-- ===== src/Locks/Paths/Parts.antt =====
-- What splitting a path and joining its parts do.
use mathlib.Core.List.{append_assoc}
use data_lakehouse.Base.{
  ℕ, ◌==◌, ◌≡◌, refl, sym, ◌∙◌, ap, ap₂, Bool, true, false, not, List, [], ◌∷◌, ◌++◌, Text, codes,
  text_eq-ne, keep_if, All, arith, Bool-cases, inl, inr,
}
use data_lakehouse.Config.{slash}
use data_lakehouse.Locks.Paths.{grow, split, is_plain, parts_of, join}

-- A text without slashes.
abbrev pub LacksSlash : Text → Type 0
LacksSlash s = All (λ c. (c == slash) ≡ false) s

-- A part that a path keeps.
abbrev pub IsPart : Text → Type 0
IsPart s = LacksSlash s × (is_plain s ≡ true)

pub split-cons : (s : Text) → (p : Text) × (ps : List Text) × (split s ≡ p ∷ ps)
unfolding split
split-cons [] = ([], [], refl)
split-cons (c ∷ s) = elim (Bool-cases (c == slash)) [
  | inl e ↦ ([], split s, rw e refl)
  | inr e ↦ let (p, ps, h) = split-cons s in (c ∷ p, ps, rw (e, h) refl)
]

grow-append :
    (c : ℕ) (xs ys : List Text) (p : Text) (ps : List Text)
    → xs ≡ p ∷ ps
    → grow c (xs ++ ys) ≡ grow c xs ++ ys
grow-append c xs ys p ps h = rw h refl

split-append : (s t : Text) → split (s ++ slash ∷ t) ≡ split s ++ split t
unfolding split
split-append [] t = refl
split-append (c ∷ s) t = elim (Bool-cases (c == slash)) [
  | inl e ↦ rw (e, split-append s t) refl
  | inr e ↦
      let (p, ps, h) = split-cons s in
      rw (e, split-append s t) (grow-append c (split s) (split t) p ps h)
]

keep_if-append :
    (p : Text → Bool) (xs ys : List Text) → keep_if p (xs ++ ys) ≡ keep_if p xs ++ keep_if p ys
keep_if-append p [] ys = refl
keep_if-append p (x ∷ xs) ys = elim (Bool-cases (p x)) [
  | inl e ↦ rw (e, keep_if-append p xs ys) refl
  | inr e ↦ rw (e, keep_if-append p xs ys) refl
]

pub parts_of-append : (s t : Text) → parts_of (s ++ slash ∷ t) ≡ parts_of s ++ parts_of t
unfolding parts_of
parts_of-append s t =
    ap (keep_if is_plain) (split-append s t) ∙ keep_if-append is_plain (split s) (split t)

join-grow :
    (c : ℕ) (xs : List Text) (p : Text) (ps : List Text)
    → xs ≡ p ∷ ps
    → join (grow c xs) ≡ c ∷ join xs
join-grow c xs p [] h = rw h refl
join-grow c xs p (q ∷ ps) h = rw h refl

join-cons :
    (xs : List Text) (p : Text) (ps : List Text) → xs ≡ p ∷ ps → join ([] ∷ xs) ≡ slash ∷ join xs
join-cons xs p ps h = rw h refl

pub is_slash : (c : ℕ) → (c == slash) ≡ true → c ≡ slash
is_slash c h = ground arith

pub join-split : (s : Text) → join (split s) ≡ s
unfolding split
join-split [] = refl
join-split (c ∷ s) =
    let (p, ps, h) = split-cons s in
    elim (Bool-cases (c == slash)) [
      | inl e ↦ rw e (join-cons (split s) p ps h ∙ ap₂ ◌∷◌ (sym (is_slash c e)) (join-split s))
      | inr e ↦ rw e (join-grow c (split s) p ps h ∙ ap (◌∷◌ c) (join-split s))
    ]

grow-LacksSlash :
    (c : ℕ)
    → (c == slash) ≡ false
    → (xs : List Text) (p : Text) (ps : List Text) → xs ≡ p ∷ ps
    → All LacksSlash xs
    → All LacksSlash (grow c xs)
grow-LacksSlash c e [] p ps h l = absurd (cc h)
grow-LacksSlash c e (x ∷ xs) p ps h l = ((e, l.0), l.1)

pub split-LacksSlash : (s : Text) → All LacksSlash (split s)
unfolding split
split-LacksSlash [] = (tt, tt)
split-LacksSlash (c ∷ s) =
    let (p, ps, h) = split-cons s in
    elim (Bool-cases (c == slash)) [
      | inl e ↦ rw e (tt, split-LacksSlash s)
      | inr e ↦ rw e (grow-LacksSlash c e (split s) p ps h (split-LacksSlash s))
    ]

split_alone : (s : Text) → LacksSlash s → split s ≡ s ∷ []
unfolding split
split_alone [] h = refl
split_alone (c ∷ s) h = rw (h.0, split_alone s h.1) refl

pub parts_of_part : (s : Text) → IsPart s → parts_of s ≡ s ∷ []
unfolding parts_of
parts_of_part s h = rw (split_alone s h.0, h.1) refl

-- The parts, with the suffix of a lock file behind the last one.
abbrev pub suffix_last : List Text → List Text
suffix_last [] = []
suffix_last (p ∷ []) = (p ++ codes ".lock") ∷ []
suffix_last (p ∷ q ∷ ps) = p ∷ suffix_last (q ∷ ps)

pub suffix_last-append :
    (xs : List Text) (p : Text) (ps : List Text)
    → suffix_last (xs ++ p ∷ ps) ≡ xs ++ suffix_last (p ∷ ps)
suffix_last-append [] p ps = refl
suffix_last-append (x ∷ []) p ps = refl
suffix_last-append (x ∷ y ∷ xs) p ps = ap (◌∷◌ x) (suffix_last-append (y ∷ xs) p ps)

LacksSlash-append : (s t : Text) → LacksSlash s → LacksSlash t → LacksSlash (s ++ t)
LacksSlash-append [] t h k = k
LacksSlash-append (c ∷ s) t h k = (h.0, LacksSlash-append s t h.1 k)

two_plain : (c d : ℕ) (s : Text) → is_plain (c ∷ d ∷ s) ≡ true
two_plain c d s = ap not (text_eq-ne (c ∷ d ∷ s) (codes ".") (λ e. cc))

suffixed_plain : (s : Text) → is_plain (s ++ codes ".lock") ≡ true
suffixed_plain [] = two_plain _ _ _
suffixed_plain (c ∷ []) = two_plain c _ _
suffixed_plain (c ∷ d ∷ s) = two_plain c d _

suffixed-IsPart : (s : Text) → IsPart s → IsPart (s ++ codes ".lock")
suffixed-IsPart s h = (
  LacksSlash-append s (codes ".lock") h.0 (refl, (refl, (refl, (refl, (refl, tt))))),
  suffixed_plain s,
)

-- The parts of the joined text with the suffix.
pub parts_of-join :
    (p : Text) (ps : List Text)
    → IsPart p
    → All IsPart ps
    → parts_of (join (p ∷ ps) ++ codes ".lock") ≡ suffix_last (p ∷ ps)
parts_of-join p [] h hs = parts_of_part (p ++ codes ".lock") (suffixed-IsPart p h)
parts_of-join p (q ∷ ps) h hs =
    ap parts_of (append_assoc p (slash ∷ join (q ∷ ps)) (codes ".lock"))
    ∙ parts_of-append p (join (q ∷ ps) ++ codes ".lock")
    ∙ ap₂ ◌++◌ (parts_of_part p h) (parts_of-join q ps hs.0 hs.1)
