-- ===== src/Base/Strings/Affix.antt =====
-- `startswith`, `endswith`, `in`, `rstrip` and `split` at one character.
use Prim.Native.Nat.{ℕ}
use mathlib.Core.Path.{◌≡◌, refl, ap}
use mathlib.Core.Logic.{inl, inr}
use mathlib.Core.Bool.{Bool, true, false, ◌||◌, ◌&&◌}
use mathlib.Core.Option.{Option, none, some}
use mathlib.Core.List.{List, [], ◌∷◌, ◌++◌}
use native.Mathlib.Omega.{arith}
use data_lakehouse.Base.Lists.{All}
use data_lakehouse.Base.Tests.{◌==◌, if◌then◌else◌, Bool-cases}

-- What follows the prefix `p` in `s`, if `s` starts with it: `s[len(p):]` after `s.startswith(p)`.
unfoldable pub strip_prefix : List ℕ → List ℕ → Option (List ℕ)
strip_prefix [] s = some s
strip_prefix (c ∷ p) [] = none
strip_prefix (c ∷ p) (d ∷ s) = elim (c == d) [ true ↦ strip_prefix p s | false ↦ none ]

abbrev pub is_some {ℓ} : {A : Type ℓ} → Option A → Bool
is_some none = false
is_some (some a) = true

abbrev pub is_empty {ℓ} : {A : Type ℓ} → List A → Bool
is_empty [] = true
is_empty (x ∷ xs) = false

-- `p in s`
unfoldable pub contains : List ℕ → List ℕ → Bool
unfolding strip_prefix
contains p [] = is_empty p
contains p (c ∷ s) = is_some (strip_prefix p (c ∷ s)) || contains p s

-- The test `s == suffix`, by the remainder of the prefix.
abbrev is_exactly : Option (List ℕ) → Bool
is_exactly none = false
is_exactly (some rest) = is_empty rest

-- `s.endswith(suffix)`
unfoldable pub ends_with : List ℕ → List ℕ → Bool
unfolding strip_prefix
ends_with suffix [] = is_empty suffix
ends_with suffix (c ∷ s) = is_exactly (strip_prefix suffix (c ∷ s)) || ends_with suffix s

-- `s.rstrip(c)`
unfoldable pub rstrip : ℕ → List ℕ → List ℕ
rstrip c [] = []
rstrip c (x ∷ s) = let rest = rstrip c s in if x == c && is_empty rest then [] else x ∷ rest

-- The text before the first character that fails `p`, and the text from there on.
unfoldable pub span : (ℕ → Bool) → List ℕ → List ℕ × List ℕ
span p [] = ([], [])
span p (x ∷ s) = elim (p x) [ true ↦ let (a, b) = span p s in (x ∷ a, b) | false ↦ ([], x ∷ s) ]

pub strip_prefix-append : (p s : List ℕ) → strip_prefix p (p ++ s) ≡ some s
unfolding strip_prefix
strip_prefix-append [] s = refl
strip_prefix-append (c ∷ p) s = ground (arith, strip_prefix-append p s)

-- A text starts with what it was found to start with.
pub append_of_strip_prefix : (p s r : List ℕ) → strip_prefix p s ≡ some r → s ≡ p ++ r
unfolding strip_prefix
append_of_strip_prefix [] s r h = ground arith
append_of_strip_prefix (c ∷ p) [] r h = cc
append_of_strip_prefix (c ∷ p) (d ∷ s) r h = ground (arith, append_of_strip_prefix p s r)

strip_prefix_self : (s : List ℕ) → strip_prefix s s ≡ some []
unfolding strip_prefix
strip_prefix_self [] = refl
strip_prefix_self (c ∷ s) = ground (arith, strip_prefix_self s)

pub ends_with_refl : (s : List ℕ) → ends_with s s ≡ true
unfolding ends_with
ends_with_refl [] = refl
ends_with_refl (c ∷ s) = ground (arith, strip_prefix_self s)

pub ends_with-append : (suffix s : List ℕ) → ends_with suffix (s ++ suffix) ≡ true
unfolding ends_with
ends_with-append suffix [] = ends_with_refl suffix
ends_with-append suffix (c ∷ s) = ground (arith, ends_with-append suffix s)

-- Reading up to a separator that is the first character to fail the test.
pub span-append :
    (p : ℕ → Bool) (a : List ℕ) (c : ℕ) (b : List ℕ)
    → All (λ x. p x ≡ true) a
    → p c ≡ false
    → span p (a ++ (c ∷ b)) ≡ (a, c ∷ b)
unfolding span
span-append p [] c b h e = rw e
span-append p (x ∷ a) c b h e = rw (h.0, span-append p a c b h.1 e)

-- What was read and what is left make up the text, and what was read passes the test.
pub span_lem :
    (p : ℕ → Bool) (s : List ℕ)
    → (s ≡ (span p s).0 ++ (span p s).1) × All (λ x. p x ≡ true) (span p s).0
unfolding span
span_lem p [] = (refl, tt)
span_lem p (x ∷ s) = elim (Bool-cases (p x)) [
  | inl e ↦ rw (e, span) (ap (◌∷◌ x) (span_lem p s).0, (e, (span_lem p s).1))
  | inr e ↦ rw (e, span) (refl, tt)
]
