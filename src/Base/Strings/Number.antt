-- ===== src/Base/Strings/Number.antt =====
-- Whether `float(text) >= 0`, of a text with ASCII digits. A number that is too small for a double is
-- read as zero.
use Prim.Native.Nat.{ℕ, suc, ◌+◌, ◌*◌, ◌^◌}
use mathlib.Core.Bool.{Bool, true, false, not, ◌||◌, ◌&&◌}
use mathlib.Core.Option.{Option, none, some}
use mathlib.Core.List.{List, [], ◌∷◌, ◌++◌}
use data_lakehouse.Base.Tests.{leb, ◌==◌, if◌then◌else◌}
use data_lakehouse.Base.Lists.{length}
use data_lakehouse.Base.Int.{ℤ, pos, negsuc, sub_ℕ, ◌-ℤ◌}
use data_lakehouse.Base.Strings.{codes, text_eq}
use data_lakehouse.Base.Strings.Affix.{is_empty, span}
use data_lakehouse.Base.Strings.Decimal.{is_digit, value}
use data_lakehouse.Base.Strings.Space.{strip}

-- The text without its underscores, which have to stand between digits; `after_digit` tells of the
-- character before.
abbrev digit_first : List ℕ → Bool
digit_first [] = false
digit_first (c ∷ s) = is_digit c

unfoldable pub drop_underscores : Bool → List ℕ → Option (List ℕ)
drop_underscores after_digit [] = some []
drop_underscores after_digit (c ∷ s) =
    let after_mark = drop_underscores false s in
    let after_char = drop_underscores (is_digit c) s in
    if c == b'_'
    then (if after_digit && digit_first s then after_mark else none)
    else elim after_char [ none ↦ none | some rest ↦ some (c ∷ rest) ]

-- What a text spells: a number, with its sign, its digits as a number and the exponent of ten; or one of
-- the special values.
pub data Literal : Type 0 where
  number : Bool → ℕ → ℤ → Literal
  infinity : Bool → Literal
  not_a_number : Literal

abbrev lower : ℕ → ℕ
lower c = if leb b'A' c && leb c b'Z' then c + 32 else c

unfoldable pub lower_text : List ℕ → List ℕ
lower_text [] = []
lower_text (c ∷ s) = lower c ∷ lower_text s

-- The sign that a text begins with, if any, and the rest: true for a minus.
abbrev pub split_sign : List ℕ → Bool × List ℕ
split_sign [] = (false, [])
split_sign (c ∷ s) =
    if c == b'-' then (true, s) else if c == b'+' then (false, s) else (false, c ∷ s)

-- The digits after a point, if there is one, and the rest.
abbrev fraction : List ℕ → List ℕ × List ℕ
fraction [] = ([], [])
fraction (c ∷ s) = if c == b'.' then span is_digit s else ([], c ∷ s)

abbrev signed : Bool → ℕ → ℤ
signed false n = pos n
signed true n = sub_ℕ 0 n

-- An exponent that takes up the whole text; no text is the exponent zero.
abbrev whole_exponent : Bool × List ℕ → Option ℤ
whole_exponent (negative, s) =
    let (digits, rest) = span is_digit s in
    if is_empty digits || not (is_empty rest) then none else some (signed negative (value digits))

abbrev exponent : List ℕ → Option ℤ
exponent [] = some (pos 0)
exponent (c ∷ s) = if lower c == b'e' then whole_exponent (split_sign s) else none

abbrev scaled : Bool → List ℕ → List ℕ → Option ℤ → Option Literal
scaled negative whole decimals none = none
scaled negative whole decimals (some e) =
    some (number negative (value (whole ++ decimals)) (e -ℤ pos (length decimals)))

-- A text without white space, underscores and sign.
unfoldable pub read_unsigned : Bool → List ℕ → Option Literal
unfolding lower_text span value ◌-ℤ◌
read_unsigned negative s =
    let word = lower_text s in
    if text_eq word (codes "inf") || text_eq word (codes "infinity")
    then some (infinity negative)
    else if text_eq word (codes "nan")
    then some not_a_number
    else let (whole, after_whole) = span is_digit s in
      let (decimals, after_decimals) = fraction after_whole in
      if is_empty whole && is_empty decimals
      then none
      else scaled negative whole decimals (exponent after_decimals)

abbrev read_signed : Bool × List ℕ → Option Literal
read_signed (negative, s) = read_unsigned negative s

abbrev read_plain : Option (List ℕ) → Option Literal
read_plain none = none
read_plain (some s) = read_signed (split_sign s)

-- `float(text)`; none for a `ValueError`.
unfoldable pub read_float : List ℕ → Option Literal
unfolding drop_underscores read_unsigned strip
read_float s = read_plain (drop_underscores false (strip s))

-- A number of `m * 10 ^ e` is rounded to zero if it is at most half of the least double, 2 ^ (-1074).
abbrev pub vanishes : ℕ → ℤ → Bool
vanishes m (pos e) = m == 0
vanishes m (negsuc e) = leb (m * 2 ^ 1075) (10 ^ suc e)

-- `x >= 0`
unfoldable pub at_least_zero : Literal → Bool
at_least_zero (number negative m e) = not negative || vanishes m e
at_least_zero (infinity negative) = not negative
at_least_zero not_a_number = false
