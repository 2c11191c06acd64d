-- ===== src/Selection.antt =====
-- src/compactor/partition_selection.py: which partitions are compacted, and why the others are not.
pub mod Summary
pub mod Verdict
pub mod Laws
use data_lakehouse.Base.{
  ℕ, Bool, true, false, Option, none, some, List, [], ◌∷◌, ◌++◌, ◌==◌, length, if◌then◌else◌, ℤ,
}
use data_lakehouse.Base.{map}
use data_lakehouse.Scanner.Scan.{Listing, scan_partitions}
use data_lakehouse.Exec.{Exec, pure, ◌>>=◌}
use data_lakehouse.Time.{Datetime}
use data_lakehouse.Config.{Config}
use data_lakehouse.Scanner.{
  PartitionStats, file_count, small_files, is_partition_eligible, partition_is_too_recent,
}

pub data SkipReason : Type 0 where
  too_recent healthy empty : SkipReason

pub record PartitionSelectionPolicy : Type 0 where
  pub small_file_threshold_bytes : ℤ
  pub small_file_count_threshold : ℤ
  pub partition_file_count_threshold : ℤ
  pub partition_age_skip_minutes : ℤ

unfoldable pub from_config : Config → PartitionSelectionPolicy
from_config config = record {
  small_file_threshold_bytes = config.small_file_threshold_bytes;
  small_file_count_threshold = config.small_file_count_threshold;
  partition_file_count_threshold = config.partition_file_count_threshold;
  partition_age_skip_minutes = config.partition_age_skip_minutes;
}

pub record PartitionSelectionResult : Type 0 where
  pub stats : PartitionStats
  pub eligible : Bool
  pub skip_reason : Option SkipReason
  pub small_file_count : ℕ

abbrev small_count : PartitionStats → PartitionSelectionPolicy → ℕ
small_count stats policy = length (small_files stats policy.small_file_threshold_bytes)

-- The return statement of `evaluate_partition` for a partition that is old enough.
unfoldable pub evaluate_old : PartitionStats → PartitionSelectionPolicy → PartitionSelectionResult
unfolding is_partition_eligible
evaluate_old stats policy =
    let is_eligible =
      is_partition_eligible stats policy.small_file_threshold_bytes
        policy.small_file_count_threshold policy.partition_file_count_threshold in
    record {
      stats = stats;
      eligible = is_eligible;
      skip_reason = if is_eligible then none else some healthy;
      small_file_count = small_count stats policy;
    }

abbrev skipped_as : PartitionStats → SkipReason → ℕ → PartitionSelectionResult
skipped_as stats reason n = record {
  stats = stats;
  eligible = false;
  skip_reason = some reason;
  small_file_count = n;
}

module _ {W : Type 0} (clock : W → ℤ × W) where
  unfoldable pub evaluate_partition :
      PartitionStats → PartitionSelectionPolicy → Option Datetime → Exec W PartitionSelectionResult
  unfolding partition_is_too_recent evaluate_old
  evaluate_partition stats policy now =
      if file_count stats == 0 then pure (skipped_as stats empty 0) else do
        recent ← partition_is_too_recent clock stats policy.partition_age_skip_minutes now
        pure (
            if recent
            then skipped_as stats too_recent (small_count stats policy)
            else evaluate_old stats policy)

  -- The loop, with the two lists that it fills.
  unfoldable pub select_loop :
      PartitionSelectionPolicy
      → Option Datetime
      → List PartitionStats
      → List PartitionStats
      → List PartitionSelectionResult
      → Exec W (List PartitionStats × List PartitionSelectionResult)
  unfolding evaluate_partition
  select_loop policy now [] eligible skipped = pure (eligible, skipped)
  select_loop policy now (stats ∷ partitions) eligible skipped = do
    result ← evaluate_partition stats policy now
    select_loop policy now partitions
        (if result.eligible then eligible ++ (stats ∷ []) else eligible)
        (if result.eligible then skipped else skipped ++ (result ∷ []))

  unfoldable pub select_partitions :
      List PartitionStats
      → PartitionSelectionPolicy
      → Option Datetime
      → Exec W (List PartitionStats × List PartitionSelectionResult)
  unfolding select_loop
  select_partitions partitions policy now = select_loop policy now partitions [] []

  -- src/compactor/file_scanner.py: `find_eligible_partitions`.
  unfoldable pub find_eligible_partitions :
      Listing W → Config → Option Datetime → Exec W (List PartitionStats × List PartitionStats)
  find_eligible_partitions listing config now = do
    all_partitions ← scan_partitions listing config
    r ← select_partitions all_partitions (from_config config) now
    pure (r.0, map (λ x. x.stats) r.1)
