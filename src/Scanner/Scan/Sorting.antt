-- ===== src/Scanner/Scan/Sorting.antt =====
-- The stable sort of `scan_partitions`, by date and hour.
use mathlib.Core.List.{append_assoc, append-nil}
use data_lakehouse.Base.{
  ◌≡◌, refl, ◌∙◌, ap, sym, ◌≢◌, Bool, true, false, none, some, List, [], ◌∷◌, ◌++◌, ite, if_pos,
  if_neg, arith, inl, inr, Bool-cases, All,
}
use data_lakehouse.Base.Dict
use data_lakehouse.Base.Dict.{values, NodupKeys}
use data_lakehouse.Scanner.{ParquetFileInfo, PartitionStats}
use data_lakehouse.Scanner.Order.{Key, key_dec, key_lt, key_lt_irrefl, key_lt_trans, key_lt-total}
use data_lakehouse.Scanner.Scan.{Partitions, key_of, insert_sorted, sorted_onto}
use data_lakehouse.Scanner.Scan.Buckets.{files_at, Keyed, IsFiled}

abbrev before : PartitionStats → PartitionStats → Bool
before p q = key_lt (key_of p) (key_of q)

-- Sorted, with equal keys allowed.
abbrev IsSorted : List PartitionStats → Type 0
IsSorted [] = Unit
IsSorted (p ∷ l) = All (λ q. before q p ≡ false) l × IsSorted l

-- Every key is smaller than all keys after it.
abbrev pub IsIncreasing : List PartitionStats → Type 0
IsIncreasing [] = Unit
IsIncreasing (p ∷ l) = All (λ q. key_lt (key_of p) (key_of q) ≡ true) l × IsIncreasing l

pub All-insert_sorted {ℓ} :
    (P : PartitionStats → Type ℓ) (p : PartitionStats) (l : List PartitionStats)
    → P p
    → All P l
    → All P (insert_sorted p l)
unfolding insert_sorted
All-insert_sorted P p [] h hl = (h, tt)
All-insert_sorted P p (q ∷ l) h hl = elim (Bool-cases (before p q)) [
  | inl e ↦ rw (e, insert_sorted) (h, hl)
  | inr e ↦ rw (e, insert_sorted) (hl.0, All-insert_sorted P p l h hl.1)
]

-- What is not smaller than a bound is greater than what is smaller than the bound.
key_lt-of_bound : (a b c : Key) → key_lt a b ≡ true → key_lt c b ≡ false → key_lt a c ≡ true
key_lt-of_bound a b c h k = elim (Bool-cases (key_lt b c)) [
  | inl e ↦ key_lt_trans a b c h e
  | inr e ↦ rw (key_lt-total c b k e) h
]

All-map {ℓ κ} :
    {A : Type ℓ} (P Q : A → Type κ) (l : List A) → ((a : A) → P a → Q a) → All P l → All Q l
All-map P Q [] f h = tt
All-map P Q (a ∷ l) f h = (f a h.0, All-map P Q l f h.1)

key_lt-asym : (a b : Key) → key_lt a b ≡ true → key_lt b a ≡ false
key_lt-asym a b h = elim (Bool-cases (key_lt b a)) [
  | inl e ↦ absurd (cc (key_lt_trans a b a h e, key_lt_irrefl a))
  | inr e ↦ e
]

insert_sorted-IsSorted :
    (p : PartitionStats) (l : List PartitionStats) → IsSorted l → IsSorted (insert_sorted p l)
unfolding insert_sorted
insert_sorted-IsSorted p [] h = (tt, tt)
insert_sorted-IsSorted p (q ∷ l) h = elim (Bool-cases (before p q)) [
  | inl e ↦
      rw (e, insert_sorted)
        (
          (
            key_lt-asym (key_of p) (key_of q) e,
            All-map _ _ l
                (λ r k.
                  key_lt-asym (key_of p) (key_of r)
                    (key_lt-of_bound (key_of p) (key_of q) (key_of r) e k))
                h.0,
          ),
          h,
        )
  | inr e ↦
      rw (e, insert_sorted)
        (All-insert_sorted (λ r. before r q ≡ false) p l e h.0, insert_sorted-IsSorted p l h.1)
]

-- No partition after a greater one has the key.
files_at-none :
    (k : Key) (l : List PartitionStats)
    → All (λ q. key_lt k (key_of q) ≡ true) l
    → files_at k l ≡ []
unfolding files_at
files_at-none k [] h = refl
files_at-none k (q ∷ l) h = elim (key_dec (key_of q) k) [
  | yes e ↦ absurd (cc (h.0, key_lt_irrefl k, ap (key_lt k) e))
  | no n ↦ rw (if_neg (key_dec (key_of q) k) n) (files_at-none k l h.1)
]

abbrev own : Key → PartitionStats → List ParquetFileInfo
own k p = ite (key_dec (key_of p) k) p.files []

files_at-cons :
    (k : Key) (p : PartitionStats) (l : List PartitionStats)
    → files_at k (p ∷ l) ≡ own k p ++ files_at k l
unfolding files_at
files_at-cons k p l = ground arith

files_at_comm :
    (k : Key) (p : PartitionStats) (l : List PartitionStats)
    → All (λ q. before p q ≡ true) l
    → own k p ++ files_at k l ≡ files_at k l ++ own k p
files_at_comm k p l h = elim (key_dec (key_of p) k) [
  | yes e ↦ rw (files_at-none k l (rw e at h)) (append-nil (own k p))
  | no n ↦ rw (if_neg (key_dec (key_of p) k) n) (sym (append-nil (files_at k l)))
]

files_at-insert_sorted :
    (k : Key) (p : PartitionStats) (l : List PartitionStats)
    → IsSorted l
    → files_at k (insert_sorted p l) ≡ files_at k l ++ own k p
unfolding insert_sorted
files_at-insert_sorted k p [] h = files_at-cons k p [] ∙ files_at_comm k p [] tt
files_at-insert_sorted k p (q ∷ l) h = elim (Bool-cases (before p q)) [
  | inl e ↦
      rw (e, insert_sorted)
        (files_at-cons k p (q ∷ l)
          ∙ files_at_comm k p (q ∷ l)
              (e, All-map _ _ l (λ r. key_lt-of_bound (key_of p) (key_of q) (key_of r) e) h.0))
  | inr e ↦
      rw (e, insert_sorted)
        (files_at-cons k q (insert_sorted p l)
          ∙ ap (λ fs. own k q ++ fs) (files_at-insert_sorted k p l h.1)
          ∙ sym (append_assoc (own k q) (files_at k l) (own k p))
          ∙ ap (λ fs. fs ++ own k p) (sym (files_at-cons k q l)))
]

-- Sorting keeps the files of every key, in their order.
pub files_at-sorted_onto :
    (k : Key) (l ps : List PartitionStats)
    → IsSorted l
    → files_at k (sorted_onto l ps) ≡ files_at k l ++ files_at k ps
unfolding sorted_onto
files_at-sorted_onto k l [] h = unfold files_at in sym (append-nil (files_at k l))
files_at-sorted_onto k l (p ∷ ps) h =
    files_at-sorted_onto k (insert_sorted p l) ps (insert_sorted-IsSorted p l h)
    ∙ ap (λ fs. fs ++ files_at k ps) (files_at-insert_sorted k p l h)
    ∙ append_assoc (files_at k l) (own k p) (files_at k ps)
    ∙ ap (λ fs. files_at k l ++ fs) (sym (files_at-cons k p ps))

-- No partition of the list has the key of `p`.
abbrev IsFresh : PartitionStats → List PartitionStats → Type 0
IsFresh p l = All (λ q. key_of q ≢ key_of p) l

key_lt-of_ne : (a b : Key) → b ≢ a → key_lt a b ≡ false → key_lt b a ≡ true
key_lt-of_ne a b n h = elim (Bool-cases (key_lt b a)) [
  | inl e ↦ e
  | inr e ↦ absurd (n (key_lt-total b a e h))
]

insert_sorted-IsIncreasing :
    (p : PartitionStats) (l : List PartitionStats)
    → IsIncreasing l
    → IsFresh p l
    → IsIncreasing (insert_sorted p l)
unfolding insert_sorted
insert_sorted-IsIncreasing p [] h f = (tt, tt)
insert_sorted-IsIncreasing p (q ∷ l) h f = elim (Bool-cases (before p q)) [
  | inl e ↦
      rw (e, insert_sorted)
        ((e, All-map _ _ l (λ r. key_lt_trans (key_of p) (key_of q) (key_of r) e) h.0), h)
  | inr e ↦
      rw (e, insert_sorted)
        (
          All-insert_sorted (λ r. before q r ≡ true) p l (key_lt-of_ne (key_of p) (key_of q) f.0 e)
              h.0,
          insert_sorted-IsIncreasing p l h.1 f.1,
        )
]

-- All keys differ, among themselves and from those of `l`.
abbrev AllFresh : List PartitionStats → List PartitionStats → Type 0
AllFresh l [] = Unit
AllFresh l (p ∷ ps) = IsFresh p l × IsFresh p ps × AllFresh l ps

AllFresh-insert_sorted :
    (p : PartitionStats) (l ps : List PartitionStats)
    → IsFresh p ps
    → AllFresh l ps
    → AllFresh (insert_sorted p l) ps
AllFresh-insert_sorted p l [] h f = tt
AllFresh-insert_sorted p l (q ∷ ps) h f = (
  All-insert_sorted (λ r. key_of r ≢ key_of q) p l (λ e. h.0 (sym e)) f.0,
  f.1,
  AllFresh-insert_sorted p l ps h.1 f.2,
)

sorted_onto-IsIncreasing :
    (l ps : List PartitionStats) → IsIncreasing l → AllFresh l ps → IsIncreasing (sorted_onto l ps)
unfolding sorted_onto
sorted_onto-IsIncreasing l [] h f = h
sorted_onto-IsIncreasing l (p ∷ ps) h f =
    sorted_onto-IsIncreasing (insert_sorted p l) ps (insert_sorted-IsIncreasing p l h f.0)
      (AllFresh-insert_sorted p l ps f.1 f.2)

IsFresh-values :
    (k : Key) (p : PartitionStats) (d : Partitions)
    → key_of p ≡ k
    → Keyed d
    → Dict.get key_dec k d ≡ none
    → IsFresh p (values d)
unfolding Dict.get
IsFresh-values k p [] e h g = tt
IsFresh-values k p ((j, q) ∷ d) e h g = elim (key_dec j k) [
  | yes y ↦ absurd (cc (g, if_pos (key_dec j k) y (some q) (Dict.get key_dec k d)))
  | no n ↦ (
    λ c. n (sym h.0 ∙ c ∙ e),
    IsFresh-values k p d e h.1 (sym (if_neg (key_dec j k) n (some q) (Dict.get key_dec k d)) ∙ g),
  )
]

AllFresh-values : (d : Partitions) → Keyed d → NodupKeys key_dec d → AllFresh [] (values d)
AllFresh-values [] h u = tt
AllFresh-values ((k, p) ∷ d) h u = (tt, IsFresh-values k p d h.0 h.1 u.0, AllFresh-values d h.1 u.1)

-- The sorted values of a dictionary of partitions have increasing keys.
pub sorted-IsIncreasing : (d : Partitions) → IsFiled d → IsIncreasing (sorted_onto [] (values d))
sorted-IsIncreasing d h =
    sorted_onto-IsIncreasing [] (values d) tt (AllFresh-values d h.keyed h.nodup)
