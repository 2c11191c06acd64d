-- ===== src/Quality/Percent.antt =====
-- src/streaming/data_quality.py: the percentage of rejected records, in hundredths.
use data_lakehouse.Base.{ℕ, ◌*◌, ◌^◌, ◌≤◌, ◌<◌, ◌==◌, if◌then◌else◌, arith, Bool-cases, inl, inr}
use data_lakehouse.Base.Doubles.{double_of, half_even, double_of-le, half_even-le, pow_pos}
use data_lakehouse.Quality.{QualityMetrics, total_record_count}

-- `round(bad / total * 100, 2)`: both operations round to a double, and `round` goes by the exact value of
-- the last one.
unfoldable pub percentage : ℕ → ℕ → ℕ
unfolding double_of half_even
percentage bad total =
    let share = double_of bad total in
    let scaled = double_of (share.0 * 100) (2 ^ share.1) in
    half_even (scaled.0 * 100) (2 ^ scaled.1)

unfoldable pub bad_record_percentage : QualityMetrics → ℕ
unfolding percentage total_record_count
bad_record_percentage m =
    if total_record_count m == 0 then 0 else percentage m.bad_record_count (total_record_count m)

percentage-le : (bad total : ℕ) → 0 < total → bad ≤ total → percentage bad total ≤ 10000
unfolding percentage
percentage-le bad total ht h =
    let share = double_of bad total in
    let scaled = double_of (share.0 * 100) (2 ^ share.1) in
    let first : share.0 ≤ 1 * 2 ^ share.1 =
      double_of-le bad total 1 ht (omega arith) (omega (arith, h)) in
    let second : scaled.0 ≤ 100 * 2 ^ scaled.1 =
      double_of-le (share.0 * 100) (2 ^ share.1) 100 (pow_pos share.1) (omega arith)
        (omega (arith, first)) in
    half_even-le (scaled.0 * 100) (2 ^ scaled.1) 10000 (pow_pos scaled.1) (omega (arith, second))

-- Of any two counts, the percentage of rejected records is at most 100, also after the roundings.
pub bad_record_percentage-le : (m : QualityMetrics) → bad_record_percentage m ≤ 10000
unfolding bad_record_percentage total_record_count
bad_record_percentage-le m = elim (Bool-cases (total_record_count m == 0)) [
  | inl e ↦ rw e (omega arith)
  | inr e ↦
      rw e (percentage-le m.bad_record_count (total_record_count m) (ground arith) (omega arith))
]
