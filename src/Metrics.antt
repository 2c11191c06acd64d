-- ===== src/Metrics.antt =====
-- src/compactor/metrics.py: the record of a run, how it ends, and the exit code of the command.
pub mod Sizes
pub mod Summary
use data_lakehouse.Base.{
  ℕ, Bool, true, false, Option, none, some, List, [], ◌==◌, Text, if◌then◌else◌, ◌&&◌, not, ℤ, pos,
  sub_ℕ, ◌-ℤ◌,
}
use data_lakehouse.Base.Strings.Affix.{is_empty}

-- The values that `status` takes.
pub data Status : Type 0 where
  running dry_run error partial_success success : Status

abbrev pub exit_success : ℕ
exit_success = 0

abbrev pub exit_failure : ℕ
exit_failure = 1

abbrev pub exit_no_eligible : ℕ
exit_no_eligible = 2

pub record FailedPartition : Type 0 where
  pub partition_id : Text
  pub error : Text

-- The way in which a partition was rewritten.
pub data Method : Type 0 where
  delta_optimize zorder_inspired : Method

-- Durations are in microseconds, before they are rounded to thousandths of a second.
pub record PartitionCompactionMetrics : Type 0 where
  pub partition_id : Text
  pub files_before : ℕ
  pub files_after : ℕ
  pub bytes_before : ℕ
  pub bytes_after : ℕ
  pub duration : ℤ
  pub method : Method

-- An entry of `partition_details`: of a run, or of a dry run, which has the planned files.
pub data Detail : Type 0 where
  compacted : PartitionCompactionMetrics → Detail
  planned : Text → ℕ → ℕ → ℕ → Detail

-- The `int` counters that only grow are numbers; `eligible_partitions` can be taken back.
pub record CompactionRunMetrics : Type 0 where
  pub run_id : Text
  pub table_path : Text
  pub started_at : Text
  pub completed_at : Option Text
  pub compaction_duration : Option ℤ
  pub partitions_scanned : ℕ
  pub eligible_partitions : ℤ
  pub skipped_partitions : ℕ
  pub compacted_partitions : ℕ
  pub lock_conflicts : ℕ
  pub files_before : ℕ
  pub files_after : ℕ
  pub bytes_before : ℕ
  pub bytes_after : ℕ
  pub failed_partitions : List FailedPartition
  pub partition_details : List Detail
  pub status : Status
  pub error : Option Text

abbrev pub new_metrics : Text → Text → Text → CompactionRunMetrics
new_metrics run_id table_path started_at = record {
  run_id = run_id;
  table_path = table_path;
  started_at = started_at;
  completed_at = none;
  compaction_duration = none;
  partitions_scanned = 0;
  eligible_partitions = pos 0;
  skipped_partitions = 0;
  compacted_partitions = 0;
  lock_conflicts = 0;
  files_before = 0;
  files_after = 0;
  bytes_before = 0;
  bytes_after = 0;
  failed_partitions = [];
  partition_details = [];
  status = running;
  error = none;
}

-- `if self.error`: an error with an empty text counts as none.
abbrev pub has_error : Option Text → Bool
has_error none = false
has_error (some t) = not (is_empty t)

abbrev pub is_dry_run : Status → Bool
is_dry_run dry_run = true
is_dry_run _ = false

abbrev pub is_error : Status → Bool
is_error error = true
is_error _ = false

-- The status of a run that was not dry.
abbrev pub final_status : CompactionRunMetrics → Status
final_status m =
    if has_error m.error
    then error
    else if not (is_empty m.failed_partitions)
    then partial_success
    else success

-- `mark_complete`, for a run from the instant `started` to the instant `finished`, which is written
-- `finished_at`.
unfoldable pub mark_complete : ℤ → ℤ → Text → CompactionRunMetrics → CompactionRunMetrics
mark_complete started finished finished_at m = record m {
  completed_at = some finished_at;
  compaction_duration = some (finished -ℤ started);
  status = if is_dry_run m.status then m.status else final_status m;
}

abbrev is_zero : ℤ → Bool
is_zero (pos n) = n == 0
is_zero n = false

unfoldable pub exit_code : CompactionRunMetrics → ℕ
exit_code m =
    if has_error m.error
    then exit_failure
    else if is_error m.status
    then exit_failure
    else if is_zero m.eligible_partitions && m.compacted_partitions == 0
    then exit_no_eligible
    else if not (is_empty m.failed_partitions) && m.compacted_partitions == 0
    then exit_failure
    else exit_success

-- `files_before - files_after`, which `to_dict` adds to the record.
unfoldable pub files_reduced : CompactionRunMetrics → ℤ
files_reduced m = sub_ℕ m.files_before m.files_after
