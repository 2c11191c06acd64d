-- ===== src/Daemon/Cycle.antt =====
-- src/compactor/compaction_daemon.py: `run_compaction_cycle` and `run_dry_run`. The table that a dry run
-- prints and the counts of the reasons, which are only logged, are left out.
use data_lakehouse.Base.{
  ℕ, ◌+◌, Bool, true, false, Option, none, some, List, [], ◌∷◌, ◌++◌, Text, codes, if◌then◌else◌,
  pos, length,
}
use data_lakehouse.Base.Strings.Affix.{is_empty}
use data_lakehouse.Errors.{
  Exc, Result, ok, raise, is_compaction_error, str, table_not_found, spark_compaction,
}
use data_lakehouse.Exec.{Exec, pure, throw, lift, try_else, ◌>>=◌, ◌>>◌}
use data_lakehouse.Time.{Datetime}
use data_lakehouse.Config.{Config}
use data_lakehouse.Scanner.{PartitionStats, partition_id, file_count, total_bytes, now_utc}
use data_lakehouse.Scanner.Scan.{scan_partitions, verify_delta_table_exists}
use data_lakehouse.Selection.{PartitionSelectionResult, from_config, select_partitions}
use data_lakehouse.Sizing.{estimate_output_file_count}
use data_lakehouse.Locks.{to_iso, has_text, get_or}
use data_lakehouse.Locks.Manager.{LockManager, new_manager}
use data_lakehouse.Metrics.{dry_run, error, CompactionRunMetrics, planned, new_metrics}
use data_lakehouse.Compactor.{create_spark_session}
use data_lakehouse.Daemon.{
  World, Run, change, outside, finally_do, set_error, set_status, find_partition, finalize_run,
  run_partitions,
}

abbrev pub is_table_not_found : Exc → Bool
is_table_not_found (table_not_found text) = true
is_table_not_found _ = false

abbrev pub is_spark_compaction : Exc → Bool
is_spark_compaction (spark_compaction id cause) = true
is_spark_compaction _ = false

abbrev pub set_scanned : ℕ → CompactionRunMetrics → CompactionRunMetrics
set_scanned n m = record m { partitions_scanned = n }

abbrev pub set_selected : ℕ → ℕ → CompactionRunMetrics → CompactionRunMetrics
set_selected eligible skipped m = record m {
  eligible_partitions = pos eligible;
  skipped_partitions = skipped;
}

abbrev pub set_not_found : Text → CompactionRunMetrics → CompactionRunMetrics
set_not_found id m = set_status error (set_error (codes "Partition not found: " ++ id) m)

abbrev pub add_planned : PartitionStats → ℕ → CompactionRunMetrics → CompactionRunMetrics
add_planned stats est_after m = record m {
  files_before = m.files_before + file_count stats;
  files_after = m.files_after + est_after;
  bytes_before = m.bytes_before + total_bytes stats;
  bytes_after = m.bytes_after + total_bytes stats;
  partition_details =
      m.partition_details
      ++ (planned (partition_id stats) (file_count stats) est_after (total_bytes stats) ∷ []);
}

-- The eligible partitions and the skipped ones; none if the partition that was asked for is not there.
abbrev pub Choice : Type 0
Choice = Option (List PartitionStats × List PartitionSelectionResult)

abbrev pub targeted : Option PartitionStats → Choice
targeted none = none
targeted (some stats) = some (stats ∷ [], [])

module _ {W : Type 0} (env : World W) (config : Config) where
  abbrev pub select_all : List PartitionStats → Exec W Choice
  select_all partitions = do
    r ← select_partitions env.clock partitions (from_config config) none
    pure (some r)

  abbrev pub choose : Option Text → List PartitionStats → Exec W Choice
  choose target partitions =
      if has_text target
      then pure (targeted (find_partition partitions (get_or target [])))
      else select_all partitions

  -- The scan and the choice, as both functions make them.
  abbrev pub scan_and_choose : Option Text → Exec (Run W) Choice
  scan_and_choose target = do
    partitions ← outside (scan_partitions env.listing config)
    change (set_scanned (length partitions))
    outside (choose target partitions)

  module _ (m : LockManager) (run_id : Text) (started : Datetime) (target : Option Text) where
    abbrev pub set_has_spark : Exec (Run W) (Unit {0})
    set_has_spark s = pure tt (record s { has_spark = true })

    -- From `create_spark_session` to the end of the loop.
    unfoldable pub run_with_spark : List PartitionStats → Exec (Run W) (Unit {0})
    run_with_spark eligible =
        try_else (outside (create_spark_session env.timer env.listing env.spark config))
          (λ done. do
            set_has_spark
            run_partitions env config m run_id eligible
            finalize_run env config started true)
          (λ exc.
            if is_spark_compaction exc
            then (do change (set_error (str exc)); finalize_run env config started true)
            else throw exc)

    unfoldable pub run_choice : Choice → Exec (Run W) (Unit {0})
    run_choice none = do
      change (set_not_found (get_or target []))
      finalize_run env config started true
    run_choice (some (eligible, skipped)) = do
      change (set_selected (length eligible) (length skipped))
      if is_empty eligible then finalize_run env config started true else run_with_spark eligible

    -- The second `try`, with its handlers and its `finally`.
    unfoldable pub run_guarded : Exec (Run W) (Unit {0})
    run_guarded =
        finally_do
          (try_else (do c ← scan_and_choose target; run_choice c) pure
            (λ exc. do
              change (set_error (str exc))
              finalize_run env config started true
              if is_compaction_error exc then pure tt else throw exc))
          (λ s. if s.has_spark then outside env.spark.stop s else pure tt s)

    unfoldable pub run_verified : Exec (Run W) (Unit {0})
    run_verified =
        try_else (outside (verify_delta_table_exists env.listing config)) (λ done. run_guarded)
          (λ exc.
            if is_table_not_found exc
            then (do change (set_error (str exc)); finalize_run env config started true)
            else throw exc)

  abbrev pub begin_run : CompactionRunMetrics → W → Run W
  begin_run metrics w = record { metrics = metrics; has_spark = false; world = w }

  -- The metrics that a run returns are those that it has at its end.
  abbrev pub returned : Result (Unit {0}) × Run W → Result CompactionRunMetrics × W
  returned (ok done, s) = (ok s.metrics, s.world)
  returned (raise exc, s) = (raise exc, s.world)

  -- `_default_owner_id` of the lock manager
  abbrev pub default_owner_id : Exec W Text
  default_owner_id w =
      let (suffix, w') = env.new_suffix w in pure (env.hostname ++ (codes "-" ++ suffix)) w'

  unfoldable pub run_compaction_cycle : Option Text → Exec W CompactionRunMetrics
  run_compaction_cycle target = do
    run_id ← (λ w. let (id, w') = env.new_id w in pure id w')
    started ← now_utc env.clock
    env.make_directory config.metrics_path
    owner ← default_owner_id
    (λ w. returned (
        run_verified (new_manager config none (some run_id) owner) run_id started target
          (begin_run (new_metrics run_id config.delta_table_path (to_iso env.codec started)) w)))

  unfoldable pub plan_partitions : List PartitionStats → Exec (Run W) (Unit {0})
  plan_partitions [] = pure tt
  plan_partitions (stats ∷ eligible) = do
    est_after ←
        lift (estimate_output_file_count (pos (total_bytes stats)) config.target_file_size_bytes)
    change (add_planned stats est_after)
    plan_partitions eligible

  module _ (started : Datetime) (target : Option Text) where
    -- `_finalize_run(metrics, started, MetricsWriter(...), write_metrics=False)`
    abbrev pub finish_dry : Exec (Run W) (Unit {0})
    finish_dry = do
      outside (env.make_directory config.metrics_path)
      finalize_run env config started false

    unfoldable pub plan_choice : Choice → Exec (Run W) (Unit {0})
    plan_choice none = do change (set_not_found (get_or target [])); finish_dry
    plan_choice (some (eligible, skipped)) = do
      change (set_selected (length eligible) (length skipped))
      plan_partitions eligible
      finish_dry

    unfoldable pub plan_verified : Exec (Run W) (Unit {0})
    plan_verified =
        try_else (outside (verify_delta_table_exists env.listing config))
          (λ done. do c ← scan_and_choose target; plan_choice c)
          (λ exc.
            if is_table_not_found exc
            then (do change (λ x. set_status error (set_error (str exc) x)); finish_dry)
            else throw exc)

  unfoldable pub run_dry_run : Option Text → Exec W CompactionRunMetrics
  run_dry_run target = do
    run_id ← (λ w. let (id, w') = env.new_id w in pure id w')
    started ← now_utc env.clock
    (λ w. returned (
        plan_verified started target (
          begin_run
            (set_status dry_run
              (new_metrics run_id config.delta_table_path (to_iso env.codec started)))
            w)))
