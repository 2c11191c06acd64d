-- ===== src/Metrics/Sizes.antt =====
-- src/compactor/metrics.py: sizes for people to read. A size below 2 ^ 53 is a double, and so is its quotient by a
-- power of two, so that `round` and the formats see the exact quotient.
use data_lakehouse.Base.{
  ℕ, ◌+◌, ◌*◌, ◌/◌, ◌%◌, ◌^◌, ◌≤◌, ◌<◌, ◌++◌, Text, codes, leb, if◌then◌else◌, arith, Bool-cases,
  inl, inr,
}
use data_lakehouse.Base.Doubles.{half_even}
use data_lakehouse.Base.Strings.Decimal.{decimal, zero_padded}

-- `round(size / 1024 ** 2, 2)`, in hundredths.
unfoldable pub format_bytes_mb : ℕ → ℕ
unfolding half_even
format_bytes_mb size = half_even (size * 100) (2 ^ 20)

-- `round(size / 1024 ** 3, 3)`, in thousandths.
unfoldable pub format_bytes_gb : ℕ → ℕ
unfolding half_even
format_bytes_gb size = half_even (size * 1000) (2 ^ 30)

-- `f"{n / 10 ** places:.{places}f}"`
unfoldable pub fixed : ℕ → ℕ → Text
unfolding decimal
fixed places n =
    decimal (n / 10 ^ places) ++ (codes "." ++ zero_padded places (decimal (n % 10 ^ places)))

unfoldable pub format_bytes : ℕ → Text
unfolding format_bytes_gb format_bytes_mb fixed half_even
format_bytes size =
    if leb (2 ^ 30) size
    then fixed 3 (format_bytes_gb size) ++ codes " GB"
    else if leb (2 ^ 20) size
    then fixed 2 (format_bytes_mb size) ++ codes " MB"
    else if leb 1024 size
    then fixed 2 (half_even (size * 100) 1024) ++ codes " KB"
    else decimal size ++ codes " B"

-- `n` is a whole number nearest to `a / b`.
pub record IsNearest (a b n : ℕ) : Type 0 where
  pub above : 2 * a ≤ (2 * n + 1) * b
  pub below : 2 * n * b ≤ 2 * a + b

kb-IsNearest : (size : ℕ) → IsNearest (size * 100) 1024 (half_even (size * 100) 1024)
unfolding half_even
kb-IsNearest size = record { above = ground arith; below = ground arith }

mb-IsNearest : (size : ℕ) → IsNearest (size * 100) (2 ^ 20) (format_bytes_mb size)
unfolding format_bytes_mb half_even
mb-IsNearest size = record { above = ground arith; below = ground arith }

gb-IsNearest : (size : ℕ) → IsNearest (size * 1000) (2 ^ 30) (format_bytes_gb size)
unfolding format_bytes_gb half_even
gb-IsNearest size = record { above = ground arith; below = ground arith }

-- What a printed size says: the bytes, or a number of units with so many digits after the point, at least one unit and
-- at most 1024, or more only for the greatest unit.
pub data Says (size : ℕ) : Text → Type 0 where
  in_bytes : size < 1024 → Says size (decimal size ++ codes " B")
  in_kb :
      (n : ℕ)
      → IsNearest (size * 100) 1024 n
      → 100 ≤ n
      → n ≤ 102400
      → Says size (fixed 2 n ++ codes " KB")
  in_mb :
      (n : ℕ)
      → IsNearest (size * 100) (2 ^ 20) n
      → 100 ≤ n
      → n ≤ 102400
      → Says size (fixed 2 n ++ codes " MB")
  in_gb :
      (n : ℕ) → IsNearest (size * 1000) (2 ^ 30) n → 1000 ≤ n → Says size (fixed 3 n ++ codes " GB")

-- A printed size is a number of the unit that fits, within half of its last digit.
pub format_bytes-Says : (size : ℕ) → Says size (format_bytes size)
unfolding format_bytes
format_bytes-Says size = elim (Bool-cases (leb (2 ^ 30) size)) [
  | inl g ↦
      rw g (
        in_gb (format_bytes_gb size) (gb-IsNearest size)
          (ground (arith, (gb-IsNearest size).above)))
  | inr g ↦ elim (Bool-cases (leb (2 ^ 20) size)) [
    | inl m ↦
        rw (g, m)
          (in_mb (format_bytes_mb size) (mb-IsNearest size)
            (ground (arith, (mb-IsNearest size).above)) (ground (arith, (mb-IsNearest size).below)))
    | inr m ↦ elim (Bool-cases (leb 1024 size)) [
      | inl k ↦
          rw (g, m, k)
            (in_kb (half_even (size * 100) 1024) (kb-IsNearest size)
              (ground (arith, (kb-IsNearest size).above))
              (ground (arith, (kb-IsNearest size).below)))
      | inr k ↦ rw (g, m, k) (in_bytes (ground arith))
    ]
  ]
]
