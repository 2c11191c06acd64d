-- ===== src/Base/Strings.antt =====
-- Python's `str` as its code points, with the operations of `str` that the program calls.
pub mod Decimal
pub mod Affix
pub mod Replace
pub mod Space
pub mod Number
use Prim.Native.Nat.{ℕ}
use Prim.Native.Char.{code}
use Prim.Native.String.{String}
use mathlib.Core.Path.{◌≡◌, refl, ap₂}
use mathlib.Core.Logic.{◌≢◌, ite, if_pos, if_neg}
use mathlib.Core.Bool.{Bool, true, false}
use mathlib.Core.List.{List, [], ◌∷◌}
use native.Mathlib.Decide.{ℕ_discrete}

abbrev pub Text : Type 0
Text = List ℕ

-- A literal.
abbrev pub codes : String → Text
codes String.[] = []
codes (String.◌∷◌ c s) = code c ∷ codes s

unfoldable pub text_dec : Discrete Text
text_dec [] [] = yes refl
text_dec [] (b ∷ t) = no (λ e. cc)
text_dec (a ∷ s) [] = no (λ e. cc)
text_dec (a ∷ s) (b ∷ t) = elim (ℕ_discrete a b) [
  | yes p ↦ elim (text_dec s t) [ yes q ↦ yes (ap₂ ◌∷◌ p q) | no n ↦ no (λ e. n (cc)) ]
  | no n ↦ no (λ e. n (cc))
]

-- `s == t`
abbrev pub text_eq : Text → Text → Bool
text_eq s t = ite (text_dec s t) true false

pub text_eq-eq : (s t : Text) → text_eq s t ≡ true → s ≡ t
text_eq-eq s t h = elim (text_dec s t) [
  | yes p ↦ p
  | no n ↦ absurd (cc (h, if_neg (text_dec s t) n true false))
]

pub text_eq-ne : (s t : Text) → s ≢ t → text_eq s t ≡ false
text_eq-ne s t n = if_neg (text_dec s t) n true false

pub text_eq_refl : (s : Text) → text_eq s s ≡ true
text_eq_refl s = if_pos (text_dec s s) refl true false
