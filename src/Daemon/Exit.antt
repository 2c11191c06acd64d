-- ===== src/Daemon/Exit.antt =====
-- The exit code of the command, by what a run has counted.
use data_lakehouse.Base.{
  ℕ, zero, suc, ◌+◌, ◌≡◌, refl, false, ◌&&◌, not, List, [], ◌∷◌, if◌then◌else◌, ◌==◌, ℤ, length,
  arith, Text,
}
use data_lakehouse.Base.Strings.Affix.{is_empty}
use data_lakehouse.Metrics.{
  Status, partial_success, success, CompactionRunMetrics, FailedPartition, mark_complete, exit_code,
  has_error, is_dry_run, is_error, exit_success, exit_failure, exit_no_eligible,
}
use data_lakehouse.Daemon.Accounting.{Accounted}

-- What orchestration reads from a run without an error: 0 if something was compacted, else 1 if
-- something failed, else 2.
abbrev pub code_of_counts : ℕ → List FailedPartition → ℕ
code_of_counts (suc compacted) failed = 0
code_of_counts zero (f ∷ failed) = 1
code_of_counts zero [] = 2

abbrev pub status_of_counts : List FailedPartition → Status
status_of_counts [] = success
status_of_counts (f ∷ failed) = partial_success

counted :
    (c : ℕ) (failed : List FailedPartition)
    → let s = if not (is_empty failed) then partial_success else success in
      ((if is_error s
          then exit_failure
          else if c + length failed + 0 == 0 && c == 0
          then exit_no_eligible
          else if not (is_empty failed) && c == 0
          then exit_failure
          else exit_success)
        ≡ code_of_counts c failed)
      × (s ≡ status_of_counts failed)
counted zero [] = (refl, refl)
counted zero (f ∷ failed) = (ground arith, refl)
counted (suc c) [] = (ground arith, refl)
counted (suc c) (f ∷ failed) = (ground arith, refl)

-- A run that is not dry, has no error and has counted all its partitions is complete with the status
-- "partial_success" if a partition failed and "success" if none did; the exit code says whether a
-- partition was compacted, or else whether one failed.
pub exit_code-mark_complete :
    (scanned total : ℕ) (m : CompactionRunMetrics) (started finished : ℤ) (finished_at : Text)
    → Accounted scanned total m 0
    → has_error m.error ≡ false
    → is_dry_run m.status ≡ false
    → let done = mark_complete started finished finished_at m in
      (exit_code done ≡ code_of_counts m.compacted_partitions m.failed_partitions)
      × (done.status ≡ status_of_counts m.failed_partitions)
unfolding mark_complete exit_code
exit_code-mark_complete scanned total m started finished finished_at a no_error not_dry =
    rw (no_error, not_dry, a.eligible_ok) (counted m.compacted_partitions m.failed_partitions)
