-- ===== src/Sizing.antt =====
-- src/compactor/target_sizing.py: how many files a partition is rewritten into. Python divides in floating
-- point and takes the ceiling, which is the exact one for totals below 2 ^ 53 bytes.
use data_lakehouse.Base.{
  ℕ, suc, ◌+◌, ◌-◌, ◌*◌, ◌/◌, ◌≤◌, ◌<◌, ◌≡◌, codes, if◌then◌else◌, ltb, leb_ℤ, ℤ, pos, negsuc,
  pos_part, ◌≤ℤ◌, arith, ◌⊎◌, ◌<ℤ◌, inl, inr,
}
use native.Mathlib.Decide.{dec_lt}
use data_lakehouse.Errors.{Result, ok, raise, value_error}

abbrev pub default_target_file_size_bytes : ℤ
default_target_file_size_bytes = pos (128 * 1024 * 1024)

-- `max(1, n)`
abbrev at_least_one : ℕ → ℕ
at_least_one n = if ltb n 1 then 1 else n

-- `math.ceil(a / b)` of positive numbers
abbrev pub ceil_div : ℕ → ℕ → ℕ
ceil_div a b = (a + b - 1) / b

unfoldable pub estimate_output_file_count : ℤ → ℤ → Result ℕ
estimate_output_file_count total_bytes target_file_size_bytes =
    if leb_ℤ total_bytes (pos 0)
    then ok 1
    else if leb_ℤ target_file_size_bytes (pos 0)
    then raise (value_error (codes "target_file_size_bytes must be positive"))
    else ok (at_least_one (ceil_div (pos_part total_bytes) (pos_part target_file_size_bytes)))

ceil_div_bounds :
    (a b : ℕ)
    → 0 < a
    → 0 < b
    → (a ≤ ceil_div a b * b) × (ceil_div a b * b < a + b) × (0 < ceil_div a b)
ceil_div_bounds a b ha hb = (grind arith, grind arith, grind arith)

ceil_div-least : (a b m : ℕ) → 0 < a → 0 < b → a ≤ m * b → ceil_div a b ≤ m
ceil_div-least a b m ha hb h = elim (dec_lt m (ceil_div a b)) [
  | yes p ↦ absurd (grind (arith, ceil_div_bounds a b ha hb, mul_mono (suc m) (ceil_div a b) b p))
  | no p ↦ omega arith
]
  where
    mul_mono : (x y z : ℕ) → x ≤ y → x * z ≤ y * z
    mul_mono x y z q = grind arith

-- For a partition with data and a positive target the estimate is the least number of files of the
-- target size that hold the data.
pub estimate_least :
    (total target : ℕ)
    → 0 < total
    → 0 < target
    → (n : ℕ) × (estimate_output_file_count (pos total) (pos target) ≡ ok n)
      × (total ≤ n * target)
      × ((m : ℕ) → total ≤ m * target → n ≤ m)
unfolding estimate_output_file_count
estimate_least total target h k = (
  ceil_div total target,
  ground (arith, ceil_div_bounds total target h k),
  (ceil_div_bounds total target h k).0,
  λ m e. ceil_div-least total target m h k e,
)

-- The estimate fails exactly if there is data and the target is not positive; what it returns is
-- never zero.
pub estimate_total :
    (total target : ℤ)
    → ((n : ℕ) × (estimate_output_file_count total target ≡ ok n) × (0 < n))
      ⊎ ((pos 0 <ℤ total)
          × (target ≤ℤ pos 0)
          × (estimate_output_file_count total target
              ≡ raise (value_error (codes "target_file_size_bytes must be positive"))))
unfolding estimate_output_file_count
estimate_total (negsuc a) target = inl (1, ground arith, omega arith)
estimate_total (pos a) (negsuc b) = elim (dec_lt 0 a) [
  | yes h ↦ inr (omega arith, omega arith, ground arith)
  | no h ↦ inl (1, ground arith, omega arith)
]
estimate_total (pos a) (pos b) = elim (dec_lt 0 a) [
  | yes h ↦ elim (dec_lt 0 b) [
    | yes k ↦
        inl (ceil_div a b, ground (arith, ceil_div_bounds a b h k), (ceil_div_bounds a b h k).2)
    | no k ↦ inr (omega arith, omega arith, ground arith)
  ]
  | no h ↦ inl (1, ground arith, omega arith)
]
