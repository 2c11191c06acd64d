-- ===== src/Scanner/Order.antt =====
-- The order of Python on texts and on the pairs of a date and an hour by which partitions are sorted.
use data_lakehouse.Base.{ℕ, ◌≡◌, refl, ap, Bool, true, false, [], ◌∷◌, ltb, if◌then◌else◌, arith}
use data_lakehouse.Base.{ite, ℕ_discrete, Text, text_dec}

unfoldable pub text_lt : Text → Text → Bool
text_lt [] [] = false
text_lt [] (b ∷ t) = true
text_lt (a ∷ s) [] = false
text_lt (a ∷ s) (b ∷ t) = if ltb a b then true else if ltb b a then false else text_lt s t

abbrev pub Key : Type 0
Key = Text × ℕ

unfoldable pub key_dec : Discrete Key
unfolding text_dec ℕ_discrete
key_dec a b = elim (text_dec a.0 b.0) [
  | yes p ↦ elim (ℕ_discrete a.1 b.1) [
    | yes q ↦ yes (λ i. (p i, q i))
    | no n ↦ no (λ e. n (ap (λ k. k.1) e))
  ]
  | no n ↦ no (λ e. n (ap (λ k. k.0) e))
]

-- Tuples are compared at the first place where they differ.
unfoldable pub key_lt : Key → Key → Bool
unfolding text_lt text_dec
key_lt a b = ite (text_dec a.0 b.0) (ltb a.1 b.1) (text_lt a.0 b.0)

pub text_lt_irrefl : (s : Text) → text_lt s s ≡ false
unfolding text_lt
text_lt_irrefl [] = refl
text_lt_irrefl (a ∷ s) = ground (arith, text_lt_irrefl s)

pub text_lt_trans : (s t u : Text) → text_lt s t ≡ true → text_lt t u ≡ true → text_lt s u ≡ true
unfolding text_lt
text_lt_trans [] (b ∷ t) (c ∷ u) h k = refl
text_lt_trans (a ∷ s) (b ∷ t) (c ∷ u) h k = ground (arith, text_lt_trans s t u)
text_lt_trans [] [] u h k = cc
text_lt_trans (a ∷ s) [] u h k = cc
text_lt_trans s (b ∷ t) [] h k = cc

pub text_lt-total : (s t : Text) → text_lt s t ≡ false → text_lt t s ≡ false → s ≡ t
unfolding text_lt
text_lt-total [] [] h k = refl
text_lt-total [] (b ∷ t) h k = cc
text_lt-total (a ∷ s) [] h k = cc
text_lt-total (a ∷ s) (b ∷ t) h k = ground (arith, text_lt-total s t)

pub key_lt_irrefl : (a : Key) → key_lt a a ≡ false
unfolding key_lt
key_lt_irrefl a = ground (arith, text_lt_irrefl a.0)

pub key_lt_trans : (a b c : Key) → key_lt a b ≡ true → key_lt b c ≡ true → key_lt a c ≡ true
unfolding key_lt
key_lt_trans a b c h k = ground (arith, text_lt_trans a.0 b.0 c.0, text_lt_irrefl a.0)

pub key_lt-total : (a b : Key) → key_lt a b ≡ false → key_lt b a ≡ false → a ≡ b
unfolding key_lt
key_lt-total a b h k = ground (arith, text_lt-total a.0 b.0)
