-- ===== src/Daemon.antt =====
-- src/compactor/compaction_daemon.py: a run of the compaction, and a dry run.
pub mod Cycle
pub mod Loop
pub mod Whole
pub mod Untouched
pub mod Dry
pub mod Plan
pub mod Forecast
pub mod Exit
pub mod Locking
pub mod Kept
pub mod Accounting
use data_lakehouse.Base.{
  ℕ, suc, ◌+◌, Bool, true, false, not, Option, none, some, List, [], ◌∷◌, ◌++◌, ◌==◌, Text, codes,
  text_eq, if◌then◌else◌, ℤ, pos, ◌+ℤ◌, ◌-ℤ◌, length,
}
use data_lakehouse.Base.Strings.Affix.{is_empty}
use data_lakehouse.Errors.{Exc, Result, ok, raise, is_compaction_error, str, table_not_found}
use data_lakehouse.Exec.{Exec, pure, throw, lift, by_outcome, try_else, ◌>>=◌, ◌>>◌}
use data_lakehouse.Time.{Datetime, aware, micros}
use data_lakehouse.Config.{Config}
use data_lakehouse.Codec.{Codec}
use data_lakehouse.Storage.{ObjectStore}
use data_lakehouse.Scanner.{PartitionStats, partition_id, file_count, total_bytes}
use data_lakehouse.Scanner.Scan.{Listing, scan_partitions, verify_delta_table_exists}
use data_lakehouse.Selection.{PartitionSelectionResult, from_config, select_partitions}
use data_lakehouse.Sizing.{estimate_output_file_count}
use data_lakehouse.Locks.{to_iso}
use data_lakehouse.Locks.Manager.{LockManager, new_manager, acquire, release}
use data_lakehouse.Metrics.{
  Status, dry_run, error, CompactionRunMetrics, PartitionCompactionMetrics, FailedPartition, Detail,
  compacted, planned, new_metrics, mark_complete,
}
use data_lakehouse.Spark.{Spark}
use data_lakehouse.Compactor.{create_spark_session, compact_partition}

unfoldable pub find_partition : List PartitionStats → Text → Option PartitionStats
find_partition [] id = none
find_partition (stats ∷ partitions) id =
    let rest = find_partition partitions id in
    if text_eq (partition_id stats) id then some stats else rest

-- What a run reads and writes: the clock in microseconds, `time.perf_counter()`, `uuid4().hex[:12]`,
-- `socket.gethostname()`, `uuid4().hex[:8]`,
-- the listing and the objects of S3, Spark, and the metrics file with the directory that it is in.
pub record World (W : Type 0) : Type 0 where
  pub clock : W → ℤ × W
  pub timer : W → ℤ × W
  pub new_id : W → Text × W
  pub hostname : Text
  pub new_suffix : W → Text × W
  pub listing : Listing W
  pub store : ObjectStore W
  pub codec : Codec
  pub spark : Spark W
  pub make_directory : Text → Exec W (Unit {0})
  pub append_line : Text → CompactionRunMetrics → Exec W (Unit {0})

-- The variables of a run that its handlers see: `metrics`, and whether `spark` is not `None`.
pub record Run (W : Type 0) : Type 0 where
  pub metrics : CompactionRunMetrics
  pub has_spark : Bool
  pub world : W

-- Updates of the metrics.
abbrev pub add_empty : CompactionRunMetrics → CompactionRunMetrics
add_empty m = record m {
  skipped_partitions = m.skipped_partitions + 1;
  eligible_partitions = m.eligible_partitions -ℤ pos 1;
}

abbrev pub add_failed : Text → Text → CompactionRunMetrics → CompactionRunMetrics
add_failed id said m = record m {
  failed_partitions = m.failed_partitions ++ (record { partition_id = id; error = said } ∷ []);
}

abbrev pub add_conflict : Text → CompactionRunMetrics → CompactionRunMetrics
add_conflict id m =
    add_failed id (codes "lock_acquisition_failed")
      (record m { lock_conflicts = m.lock_conflicts + 1 })

abbrev pub add_before : PartitionStats → CompactionRunMetrics → CompactionRunMetrics
add_before stats m = record m {
  files_before = m.files_before + file_count stats;
  bytes_before = m.bytes_before + total_bytes stats;
}

abbrev pub add_compacted : PartitionCompactionMetrics → CompactionRunMetrics → CompactionRunMetrics
add_compacted part m = record m {
  compacted_partitions = m.compacted_partitions + 1;
  files_after = m.files_after + part.files_after;
  bytes_after = m.bytes_after + part.bytes_after;
  partition_details = m.partition_details ++ (compacted part ∷ []);
}

abbrev pub set_error : Text → CompactionRunMetrics → CompactionRunMetrics
set_error said m = record m { error = some said }

abbrev pub set_status : Status → CompactionRunMetrics → CompactionRunMetrics
set_status s m = record m { status = s }

module _ {W : Type 0} where
  abbrev pub change : (CompactionRunMetrics → CompactionRunMetrics) → Exec (Run W) (Unit {0})
  change f s = pure tt (record s { metrics = f s.metrics })

module _ {W A : Type 0} where
  -- A statement that touches no variable of the run.
  abbrev pub outside : Exec W A → Exec (Run W) A
  outside m s = let (r, w) = m s.world in (r, record s { world = w })

  -- `try: … finally: …`, for an end that returns nothing: its exception replaces what was there.
  abbrev pub finally_do : Exec (Run W) A → Exec (Run W) (Unit {0}) → Exec (Run W) A
  finally_do m last = try_else m (λ a. last >> pure a) (λ exc. last >> throw exc)

module _ {W : Type 0} (env : World W) (config : Config) where
  -- `_finalize_run` for a run that has begun at `started`.
  unfoldable pub finalize_run : Datetime → Bool → Exec (Run W) (Unit {0})
  finalize_run started write_metrics s =
      let (finished, w) = env.clock s.world in
      let s' : Run W = record s {
        metrics =
            mark_complete (micros started) finished (to_iso env.codec (aware finished)) s.metrics;
        world = w;
      } in
      if write_metrics
      then outside (env.append_line config.metrics_path s'.metrics) s'
      else pure tt s'

  module _ (m : LockManager) (run_id : Text) where
    -- The body of the inner `try`; the three handlers record the failure in the same way.
    unfoldable pub compact_locked : PartitionStats → Exec (Run W) (Unit {0})
    compact_locked stats =
        try_else
          (do
            change (add_before stats)
            part ← outside (compact_partition env.timer env.listing env.spark config stats)
            change (add_compacted part))
          pure (λ exc. change (add_failed (partition_id stats) (str exc)))

    -- The body of the loop.
    unfoldable pub run_partition : PartitionStats → Exec (Run W) (Unit {0})
    run_partition stats = if file_count stats == 0 then change add_empty else do
      held ←
          outside (acquire env.clock env.store env.codec m (partition_id stats) none (some run_id))
      if held
          then finally_do (compact_locked stats)
              (outside (release env.clock env.store env.codec m (partition_id stats)))
          else change (add_conflict (partition_id stats))

    unfoldable pub run_partitions : List PartitionStats → Exec (Run W) (Unit {0})
    run_partitions [] = pure tt
    run_partitions (stats ∷ eligible) = run_partition stats >> run_partitions eligible
