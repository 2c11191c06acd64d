-- ===== src/Locks/Local/Place.antt =====
-- src/compactor/lock_manager.py: the local file of a lock is the one that `storage_path` names.
use mathlib.Core.Path.{subst}
use mathlib.Core.List.{append_assoc, append-nil}
use data_lakehouse.Base.{
  ℕ, zero, suc, ◌==◌, ◌≡◌, refl, sym, ◌∙◌, ap, ap₂, Bool, true, false, ◌&&◌, List, [], ◌∷◌, ◌++◌,
  Text, codes, keep_if, All, Bool-cases, inl, inr,
}
use data_lakehouse.Base.Strings.Affix.{is_empty, rstrip}
use data_lakehouse.Config.{slash}
use data_lakehouse.Locks.{lock_file_path}
use data_lakehouse.Locks.Paths.{
  FilePath, split, is_plain, starts_absolute, parts_of, path, child, descend, join, to_text,
}
use data_lakehouse.Locks.Paths.Parts.{
  IsPart, LacksSlash, split-cons, split-LacksSlash, parts_of_part, parts_of-append, join-split,
  suffix_last, suffix_last-append, parts_of-join, is_slash,
}
use data_lakehouse.Locks.Local.{local_path}

abbrev slashes : ℕ → Text
slashes zero = []
slashes (suc n) = slash ∷ slashes n

empty-nil : (s : Text) → is_empty s ≡ true → s ≡ []
empty-nil [] h = refl
empty-nil (c ∷ s) h = absurd (cc h)

rstrip-append : (s : Text) → (n : ℕ) × (s ≡ rstrip slash s ++ slashes n)
unfolding rstrip
rstrip-append [] = (0, refl)
rstrip-append (c ∷ s) =
    let (n, e) = rstrip-append s in
    elim (Bool-cases (c == slash)) [
      | inl f ↦ elim (Bool-cases (is_empty (rstrip slash s))) [
        | inl g ↦ (
          suc n,
          rw (f, g)
              (ap₂ ◌∷◌ (is_slash c f)
                (e ∙ ap (λ r. r ++ slashes n) (empty-nil (rstrip slash s) g))),
        )
        | inr g ↦ (n, rw (f, g) (ap (◌∷◌ c) e))
      ]
      | inr f ↦ (n, rw f (ap (◌∷◌ c) e))
    ]

parts_of-slashes : (n : ℕ) → parts_of (slashes n) ≡ []
unfolding parts_of split
parts_of-slashes zero = refl
parts_of-slashes (suc n) = parts_of-slashes n

parts_of_trailing : (s : Text) (n : ℕ) → parts_of (s ++ slashes n) ≡ parts_of s
parts_of_trailing s zero = ap parts_of (append-nil s)
parts_of_trailing s (suc n) =
    parts_of-append s (slashes n)
    ∙ ap (λ r. parts_of s ++ r) (parts_of-slashes n)
    ∙ append-nil (parts_of s)

-- Slashes at the end do not count.
parts_of-rstrip : (s : Text) → parts_of (rstrip slash s) ≡ parts_of s
parts_of-rstrip s =
    let (n, e) = rstrip-append s in sym (ap parts_of e ∙ parts_of_trailing (rstrip slash s) n)

-- A segment that is a part goes behind the others.
child_part :
    (p : FilePath) (s : Text)
    → IsPart s
    → child p s ≡ record { is_absolute = p.is_absolute; parts = p.parts ++ s ∷ [] }
child_part p [] h = absurd (cc (h.1))
child_part p (c ∷ s) h = rw (h.0.0, parts_of_part (c ∷ s) h) refl

descend_parts :
    (p : FilePath) (ss : List Text)
    → All IsPart ss
    → descend p ss ≡ record { is_absolute = p.is_absolute; parts = p.parts ++ ss }
descend_parts p [] h =
    λ i. record { is_absolute = p.is_absolute; parts = sym (append-nil p.parts) i }
descend_parts p (s ∷ ss) h =
    ap (λ q. descend q ss) (child_part p s h.0)
    ∙ descend_parts (record { is_absolute = p.is_absolute; parts = p.parts ++ s ∷ [] }) ss h.1
    ∙ (λ i. record { is_absolute = p.is_absolute; parts = append_assoc p.parts (s ∷ []) ss i })

All-append : (xs ys : List Text) → All IsPart xs → All IsPart ys → All IsPart (xs ++ ys)
All-append [] ys h k = k
All-append (x ∷ xs) ys h k = (h.0, All-append xs ys h.1 k)

keep_if-IsPart : (xs : List Text) → All LacksSlash xs → All IsPart (keep_if is_plain xs)
keep_if-IsPart [] h = tt
keep_if-IsPart (x ∷ xs) h = elim (Bool-cases (is_plain x)) [
  | inl e ↦ rw e ((h.0, e), keep_if-IsPart xs h.1)
  | inr e ↦ rw e (keep_if-IsPart xs h.1)
]

parts_of-IsPart : (s : Text) → All IsPart (parts_of s)
unfolding parts_of
parts_of-IsPart s = keep_if-IsPart (split s) (split-LacksSlash s)

starts_like :
    (c : ℕ) (p : Text) (ps : List Text)
    → starts_absolute (join ((c ∷ p) ∷ ps) ++ codes ".lock") ≡ (c == slash)
starts_like c p [] = refl
starts_like c p (q ∷ ps) = refl

-- The path with the suffix, of parts.
unfolded_path : (s : Text) → parts_of (slash ∷ s) ≡ parts_of s
unfolding parts_of split
unfolded_path s = refl

suffixed :
    (b : Bool) (p : Text) (ps : List Text)
    → IsPart p
    → All IsPart ps
    → path (to_text (record { is_absolute = b; parts = p ∷ ps }) ++ codes ".lock")
      ≡ record { is_absolute = b; parts = suffix_last (p ∷ ps) }
suffixed true p ps h hs = λ i. record {
  is_absolute = true;
  parts = (unfolded_path (join (p ∷ ps) ++ codes ".lock") ∙ parts_of-join p ps h hs) i;
}
suffixed false [] ps h hs = absurd (cc h.1)
suffixed false (c ∷ p) ps h hs = λ i. record {
  is_absolute = (starts_like c p ps ∙ h.0.0) i;
  parts = parts_of-join (c ∷ p) ps h hs i;
}

suffixed_parts :
    (b : Bool) (xs : List Text) (p : Text) (ps : List Text)
    → All IsPart xs
    → IsPart p
    → All IsPart ps
    → path (to_text (record { is_absolute = b; parts = xs ++ p ∷ ps }) ++ codes ".lock")
      ≡ record { is_absolute = b; parts = xs ++ suffix_last (p ∷ ps) }
suffixed_parts b [] p ps l h hs = suffixed b p ps h hs
suffixed_parts b (x ∷ xs) p ps l h hs =
    suffixed b x (xs ++ p ∷ ps) l.0 (All-append xs (p ∷ ps) l.1 (h, hs))
    ∙ (λ i. record { is_absolute = b; parts = suffix_last-append (x ∷ xs) p ps i })

starts_absolute-rstrip :
    (base t : Text)
    → is_empty (rstrip slash base) ≡ false
    → starts_absolute (rstrip slash base ++ t) ≡ starts_absolute base
unfolding rstrip
starts_absolute-rstrip [] t h = absurd (cc h)
starts_absolute-rstrip (c ∷ s) t h = elim (Bool-cases ((c == slash) && is_empty (rstrip slash s))) [
  | inl e ↦ absurd (cc (h))
  | inr e ↦ rw e refl
]

-- The parts of a path to the lock file, by the segments of the partition's id.
pub place :
    (base partition_id p : Text) (ps : List Text)
    → split partition_id ≡ p ∷ ps
    → IsPart p
    → All IsPart ps
    → local_path base partition_id
      ≡ record { is_absolute = starts_absolute base; parts = parts_of base ++ suffix_last (p ∷ ps) }
unfolding local_path
place base partition_id p ps e h hs =
    ap (λ ss. path (to_text (descend (path base) ss) ++ codes ".lock")) e
    ∙ ap (λ q. path (to_text q ++ codes ".lock")) (descend_parts (path base) (p ∷ ps) (h, hs))
    ∙ suffixed_parts (starts_absolute base) (parts_of base) p ps (parts_of-IsPart base) h hs

named :
    (base partition_id p : Text) (ps : List Text)
    → is_empty (rstrip slash base) ≡ false
    → split partition_id ≡ p ∷ ps
    → IsPart p
    → All IsPart ps
    → path (lock_file_path base partition_id)
      ≡ record { is_absolute = starts_absolute base; parts = parts_of base ++ suffix_last (p ∷ ps) }
unfolding lock_file_path
named base partition_id p ps n e h hs =
    let whole : partition_id ≡ join (p ∷ ps) = sym (join-split partition_id) ∙ ap join e in
    (λ i. record {
      is_absolute = starts_absolute-rstrip base (slash ∷ (partition_id ++ codes ".lock")) n i;
      parts =
          (parts_of-append (rstrip slash base) (partition_id ++ codes ".lock")
              ∙ ap₂ ◌++◌ (parts_of-rstrip base)
                  (ap (λ s. parts_of (s ++ codes ".lock")) whole ∙ parts_of-join p ps h hs))
            i;
    })

-- No segment is empty or a dot.
abbrev pub HasPlainSegments : Text → Type 0
HasPlainSegments s = All (λ p. is_plain p ≡ true) (split s)

segments : (xs : List Text) → All LacksSlash xs → All (λ p. is_plain p ≡ true) xs → All IsPart xs
segments [] l h = tt
segments (x ∷ xs) l h = ((l.0, h.0), segments xs l.1 h.1)

-- The first segment and the others, which are parts.
pub split-parts :
    (s : Text)
    → HasPlainSegments s
    → (p : Text) × (ps : List Text) × (split s ≡ p ∷ ps) × IsPart p × All IsPart ps
split-parts s h =
    let (p, ps, e) = split-cons s in
    let (first, others) : All IsPart (p ∷ ps) =
      subst (All IsPart) e (segments (split s) (split-LacksSlash s) h) in
    (p, ps, e, first, others)

-- The file of a partition's lock is the one that `storage_path` names, if no segment of the
-- partition's id is empty or a dot, and the base path has a character other than a slash.
pub local_path-lock_file_path :
    (base partition_id : Text)
    → is_empty (rstrip slash base) ≡ false
    → HasPlainSegments partition_id
    → local_path base partition_id ≡ path (lock_file_path base partition_id)
local_path-lock_file_path base partition_id n h =
    let (p, ps, e, first, others) = split-parts partition_id h in
    place base partition_id p ps e first others
    ∙ sym (named base partition_id p ps n e first others)
