-- ===== src/Benchmark.antt =====
-- src/benchmark/benchmark_queries.py: the runs of the benchmark, their phases, and which two are
-- compared. Sizes are in hundredths of a MB, and runtimes in ten-thousandths of a second.
pub mod Execution
pub mod Greatest
pub mod Compared
pub mod Measured
pub mod Book
pub mod Whole
use data_lakehouse.Base.{
  ℕ, ◌-◌, ◌==◌, Bool, true, false, ◌&&◌, ◌||◌, not, Option, none, some, List, [], ◌∷◌, ◌++◌, map,
  Text, codes, text_eq, ltb, if◌then◌else◌, keep_if, sum, ℤ,
}
use data_lakehouse.Base.Doubles.{half_even}
use data_lakehouse.Base.Strings.Affix.{is_empty}
use data_lakehouse.Errors.{Exc, Result, ok, raise, value_error, other, ◌>>=◌}
use data_lakehouse.Exec.{Exec, pure, throw, lift}
use data_lakehouse.Exec
use data_lakehouse.Config.{Config}
use data_lakehouse.Codec.{Codec}
use data_lakehouse.Scanner.{PartitionStats, file_count, total_bytes, reference}
use data_lakehouse.Scanner.Order.{text_lt}
use data_lakehouse.Scanner.Scan.{Listing, scan_partitions}
use data_lakehouse.Metrics.Sizes.{format_bytes_mb}
use data_lakehouse.Locks.{to_iso}

pub record QueryBenchmarkResult : Type 0 where
  pub query_name : Text
  pub runtime_seconds : ℕ
  pub input_file_count : ℕ
  pub total_data_size_mb : ℕ
  pub timestamp : Text
  pub row_count : ℕ

pub record BenchmarkRun : Type 0 where
  pub benchmark_id : Text
  pub phase : Text
  pub timestamp : Text
  pub engine : Text
  pub input_file_count : ℕ
  pub total_data_size_mb : ℕ
  pub table_path : Text
  pub queries : List QueryBenchmarkResult

-- The loop of `max` with a key: a later value replaces the one kept so far if its key is greater.
abbrev pub max_from : {A : Type 0} → (A → A → Bool) → A → List A → A
max_from less kept [] = kept
max_from less kept (x ∷ xs) = max_from less (if less kept x then x else kept) xs

-- `max(xs, key=...)`
abbrev pub max_by : {A : Type 0} → (A → A → Bool) → List A → Result A
max_by less [] = raise (value_error (codes "max() arg is an empty sequence"))
max_by less (x ∷ xs) = ok (max_from less x xs)

abbrev pub has_fewer_files : BenchmarkRun → BenchmarkRun → Bool
has_fewer_files r s = ltb r.input_file_count s.input_file_count

abbrev pub is_earlier : BenchmarkRun → BenchmarkRun → Bool
is_earlier r s = text_lt r.timestamp s.timestamp

-- `[r for r in history if r.phase == phase]`
abbrev pub runs_of_phase : Text → List BenchmarkRun → List BenchmarkRun
runs_of_phase phase history = keep_if (λ r. text_eq r.phase phase) history

-- The phase by the runs so far, when it is to be found out.
abbrev pub phase_by : BenchmarkRun → List BenchmarkRun → Result Text
phase_by run [] = ok (codes "before")
phase_by run (b ∷ bs) = do
  baseline ← max_by has_fewer_files (b ∷ bs)
  ok (if has_fewer_files run baseline then codes "after" else codes "before")

unfoldable pub resolve_phase : BenchmarkRun → Text → List BenchmarkRun → Result Text
resolve_phase run phase history =
    if text_eq phase (codes "before") || text_eq phase (codes "after")
    then ok phase
    else phase_by run (runs_of_phase (codes "before") history)

abbrev pub baseline_if_any : List BenchmarkRun → Result (Option BenchmarkRun)
baseline_if_any [] = ok none
baseline_if_any (b ∷ bs) = do r ← max_by has_fewer_files (b ∷ bs); ok (some r)

unfoldable pub find_comparison_pair :
    List BenchmarkRun → BenchmarkRun → Result (Option BenchmarkRun × Option BenchmarkRun)
find_comparison_pair history current =
    let before_runs = runs_of_phase (codes "before") history in
    let after_runs = runs_of_phase (codes "after") history in
    if text_eq current.phase (codes "after")
    then (do baseline ← baseline_if_any before_runs; ok (baseline, some current))
    else if text_eq current.phase (codes "before") && not (is_empty after_runs)
    then (do
      latest_after ← max_by is_earlier after_runs
      baseline ← max_by has_fewer_files before_runs
      ok (some baseline, some latest_after))
    else ok (none, none)
