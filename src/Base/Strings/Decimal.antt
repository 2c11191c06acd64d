-- ===== src/Base/Strings/Decimal.antt =====
-- Decimal numerals: `str(n)` and `int(text)` of a number that is not negative.
use Prim.Native.Nat.{ℕ, zero, suc, ◌+◌, ◌-◌, ◌*◌, ◌/◌, ◌%◌, ◌<◌}
use mathlib.Core.Path.{◌≡◌, ap}
use mathlib.Core.Bool.{Bool, true, false, ◌&&◌}
use mathlib.Core.List.{List, [], ◌∷◌, ◌++◌}
use native.Mathlib.Omega.{arith}
use mathlib.Core.Path.{◌∙◌}
use mathlib.Core.Logic.{inl, inr}
use data_lakehouse.Base.Lists.{All, length}
use data_lakehouse.Base.Strings.Affix.{is_empty}
use data_lakehouse.Base.Tests.{ltb, leb, Bool-cases}

-- The digits of `n` before those in `acc`; `n` falls by a factor of ten at each step, so that
-- `suc n` steps are enough.
unfoldable pub digits_onto : ℕ → ℕ → List ℕ → List ℕ
digits_onto zero n acc = acc
digits_onto (suc fuel) n acc =
    let here = (48 + n % 10) ∷ acc in
    elim (ltb n 10) [ true ↦ here | false ↦ digits_onto fuel (n / 10) here ]

-- `str(n)`
unfoldable pub decimal : ℕ → List ℕ
unfolding digits_onto
decimal n = digits_onto (suc n) n []

abbrev pub zeros : ℕ → List ℕ
zeros zero = []
zeros (suc n) = b'0' ∷ zeros n

-- Digits after as many zeros as a width asks for.
abbrev pub zero_padded : ℕ → List ℕ → List ℕ
zero_padded width digits = zeros (width - length digits) ++ digits

-- The character class `[0-9]`.
abbrev pub is_digit : ℕ → Bool
is_digit c = leb 48 c && leb c 57

unfoldable pub value_onto : ℕ → List ℕ → ℕ
value_onto n [] = n
value_onto n (c ∷ s) = value_onto (n * 10 + (c - 48)) s

-- `int(text)`, of a text of digits
unfoldable pub value : List ℕ → ℕ
unfolding value_onto
value s = value_onto 0 s

abbrev pub AllDigits : List ℕ → Type 0
AllDigits = All (λ c. is_digit c ≡ true)

digits_onto-AllDigits :
    (fuel n : ℕ) (acc : List ℕ) → AllDigits acc → AllDigits (digits_onto fuel n acc)
unfolding digits_onto
digits_onto-AllDigits zero n acc h = h
digits_onto-AllDigits (suc fuel) n acc h = elim (Bool-cases (ltb n 10)) [
  | inl e ↦ rw (e, digits_onto) (ground arith, h)
  | inr e ↦
      rw (e, digits_onto)
        (digits_onto-AllDigits fuel (n / 10) ((48 + n % 10) ∷ acc) (ground arith, h))
]

-- A numeral has digits only.
pub decimal-AllDigits : (n : ℕ) → AllDigits (decimal n)
unfolding decimal
decimal-AllDigits n = digits_onto-AllDigits (suc n) n [] tt

value-digits_onto :
    (fuel n : ℕ) (acc : List ℕ)
    → n < fuel
    → value_onto 0 (digits_onto fuel n acc) ≡ value_onto n acc
unfolding digits_onto value_onto
value-digits_onto zero n acc h = elim h [ ]
value-digits_onto (suc fuel) n acc h = elim (Bool-cases (ltb n 10)) [
  | inl e ↦ rw (e, digits_onto) (ap (λ k. value_onto k acc) (ground arith))
  | inr e ↦
      rw (e, digits_onto)
        (value-digits_onto fuel (n / 10) ((48 + n % 10) ∷ acc) (ground arith)
          ∙ ap (λ k. value_onto k acc) (ground arith))
]

-- A number is read back from its numeral.
pub value-decimal : (n : ℕ) → value (decimal n) ≡ n
unfolding value decimal value_onto
value-decimal n = value-digits_onto (suc n) n [] (omega arith)

digits_onto-is_empty :
    (fuel n : ℕ) (acc : List ℕ) → is_empty acc ≡ false → is_empty (digits_onto fuel n acc) ≡ false
unfolding digits_onto
digits_onto-is_empty zero n acc h = h
digits_onto-is_empty (suc fuel) n acc h =
    ground (arith, digits_onto-is_empty fuel (n / 10) ((48 + n % 10) ∷ acc))

-- A numeral has a digit.
pub decimal-is_empty : (n : ℕ) → is_empty (decimal n) ≡ false
unfolding decimal digits_onto
decimal-is_empty n = ground (arith, digits_onto-is_empty n (n / 10) ((48 + n % 10) ∷ []))
