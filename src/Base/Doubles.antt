-- ===== src/Base/Doubles.antt =====
-- Doubles of positive quotients, as Python computes them: a quotient is rounded to 53 bits, and a tie goes
-- to the even neighbour. A double is a number over a power of two.
use Prim.Native.Nat.{ℕ, zero, suc, ◌+◌, ◌-◌, ◌*◌, ◌/◌, ◌%◌, ◌^◌, ◌≤◌, ◌<◌}
use mathlib.Core.Path.{◌≡◌, ap, sym, ◌∙◌}
use mathlib.Core.Bool.{true, false}
use native.Mathlib.Omega.{arith}
use native.Mathlib.Decide.{dec_lt}
use native.Mathlib.Nat.{two-pow-succ, one-mul, zero-add}
use data_lakehouse.Base.Tests.{ltb, ◌==◌, if◌then◌else◌}

-- a / b, rounded to the nearest integer.
unfoldable pub half_even : ℕ → ℕ → ℕ
half_even a b =
    let q = a / b in
    let r = a % b in if ltb (2 * r) b then q else if ltb b (2 * r) then q + 1 else q + q % 2

-- The number of binary digits; a number has at most as many as itself, so that `suc n` steps are enough.
unfoldable pub bit_length_in : ℕ → ℕ → ℕ
bit_length_in zero n = 0
bit_length_in (suc fuel) n = elim (n == 0) [ true ↦ 0 | false ↦ suc (bit_length_in fuel (n / 2)) ]

unfoldable pub bit_length : ℕ → ℕ
unfolding bit_length_in
bit_length n = bit_length_in (suc n) n

-- How many of the 120 binary places after the point are beyond the 53 that a double keeps.
unfoldable pub dropped : ℕ → ℕ → ℕ
unfolding bit_length
dropped a b = bit_length (a * 2 ^ 120 / b) - 53

-- The double of a / b, by its numerator and the exponent of its denominator; it is that of Python for
-- quotients between 2 ^ (-67) and 2 ^ 120, and for zero.
unfoldable pub double_of : ℕ → ℕ → ℕ × ℕ
unfolding half_even dropped
double_of a b = (half_even (a * 2 ^ 120) (b * 2 ^ dropped a b), 120 - dropped a b)

pub mul_mono : (x y z : ℕ) → x ≤ y → x * z ≤ y * z
mul_mono x y z q = grind arith

div-le : (a b k : ℕ) → 0 < b → a ≤ k * b → a / b ≤ k
div-le a b k hb h = elim (dec_lt k (a / b)) [
  | yes p ↦ absurd (grind (arith, mul_mono (suc k) (a / b) b p))
  | no p ↦ omega arith
]

half_even-le_suc : (a b : ℕ) → half_even a b ≤ a / b + 1
unfolding half_even
half_even-le_suc a b = ground arith

half_even-exact : (a b : ℕ) → 0 < b → a % b ≡ 0 → half_even a b ≡ a / b
unfolding half_even
half_even-exact a b hb h = rw h (ground arith)

-- A quotient that is at most a whole number is rounded to at most that.
pub half_even-le : (a b k : ℕ) → 0 < b → a ≤ k * b → half_even a b ≤ k
half_even-le a b k hb h = elim (dec_lt (a / b) k) [
  | yes p ↦ omega (arith, half_even-le_suc a b, p)
  | no p ↦
      let same : a / b ≡ k = omega (arith, div-le a b k hb h, p) in
      let whole : b * k + a % b ≡ a = rw (sym same) (grind arith) in
      let none_left : a % b ≡ 0 = grind arith in
      omega (arith, half_even-exact a b hb none_left, same)
]

bit_length_in-le : (fuel n m : ℕ) → n < 2 ^ m → bit_length_in fuel n ≤ m
unfolding bit_length_in
bit_length_in-le zero n m h = omega arith
bit_length_in-le (suc fuel) n zero h = ground arith
bit_length_in-le (suc fuel) n (suc m) h =
    ground (arith, bit_length_in-le fuel (n / 2) m (omega (arith, two-pow-succ m, h)))

double_both : (x y : ℕ) {x' z z' : ℕ} → x' ≡ x + x → z' ≡ z + z → z ≡ x * y → z' ≡ x' * y
double_both x y hx hz e = rw (hx, hz, e) (grind arith)

pow_split : (d e : ℕ) → 2 ^ (d + e) ≡ 2 ^ d * 2 ^ e
pow_split zero e = ap (λ n. 2 ^ n) (zero-add e) ∙ sym (one-mul (2 ^ e))
pow_split (suc d) e =
    let same : suc d + e ≡ suc (d + e) = omega arith in
    rw same (double_both (2 ^ d) (2 ^ e) (two-pow-succ d) (two-pow-succ (d + e)) (pow_split d e))

pub pow_pos : (d : ℕ) → 0 < 2 ^ d
pow_pos zero = omega arith
pow_pos (suc d) = omega (arith, pow_pos d, two-pow-succ d)

-- A quotient of at most 100 has few digits before the point.
dropped-le : (a b k : ℕ) → 0 < b → k ≤ 100 → a ≤ k * b → dropped a b ≤ 120
unfolding dropped bit_length
dropped-le a b k hb hk h =
    let q : a * 2 ^ 120 ≤ k * 2 ^ 120 * b = grind (arith, mul_mono a (k * b) (2 ^ 120) h) in
    let small : a * 2 ^ 120 / b < 2 ^ 127 =
      omega (arith, div-le (a * 2 ^ 120) b (k * 2 ^ 120) hb q, hk) in
    omega (arith, bit_length_in-le (suc (a * 2 ^ 120 / b)) (a * 2 ^ 120 / b) 127 small)

scaled_pos : (b x : ℕ) → 0 < b → 0 < x → 0 < b * x
scaled_pos b x hb hx = grind arith

scaled_le : (a b k x y z : ℕ) → x * y ≡ z → a ≤ k * b → a * z ≤ k * y * (b * x)
scaled_le a b k x y z e h = rw (sym e) (grind (arith, mul_mono a (k * b) (x * y) h))

-- The double of a quotient is at most a whole number up to 100 if the quotient is.
pub double_of-le :
    (a b k : ℕ) → 0 < b → k ≤ 100 → a ≤ k * b → (double_of a b).0 ≤ k * 2 ^ (double_of a b).1
unfolding double_of
double_of-le a b k hb hk h =
    let d = dropped a b in
    let places : d + (120 - d) ≡ 120 = omega (arith, dropped-le a b k hb hk h) in
    let whole : 2 ^ d * 2 ^ (120 - d) ≡ 2 ^ 120 =
      sym (pow_split d (120 - d)) ∙ ap (λ n. 2 ^ n) places in
    half_even-le (a * 2 ^ 120) (b * 2 ^ d) (k * 2 ^ (120 - d)) (scaled_pos b (2 ^ d) hb (pow_pos d))
      (scaled_le a b k (2 ^ d) (2 ^ (120 - d)) (2 ^ 120) whole h)
