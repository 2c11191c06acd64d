-- ===== src/Tests/Whole.antt =====
-- The theorem on a whole run, at a run for one partition of the listing, and that on the daemon.
use data_lakehouse.Base.{
  pos, not, ◌∷◌, text_eq, if◌then◌else◌, false, arith, ◌-ℤ◌, ◌≡◌, refl, true, Option, some, Text,
  codes, text_dec, ℕ_discrete, [], ◌*ℤ◌,
}
use data_lakehouse.Base.Strings.Affix.{is_some, contains, ends_with}
use data_lakehouse.Base.Strings.Decimal.{decimal, digits_onto}
use data_lakehouse.Errors.{Result, ok, raise}
use data_lakehouse.Time.{plus}
use data_lakehouse.Config.{table_key_prefix}
use data_lakehouse.Scanner.{partition_id, id_of}
use data_lakehouse.Scanner.Keys.{parse_partition_from_key, search}
use data_lakehouse.Scanner.Scan.{
  add_file, scan_object, scan_objects, scan_pages, insert_sorted, sorted_onto, partitions_of,
  scan_partitions, verify_delta_table_exists,
}
use data_lakehouse.Sizing.{estimate_output_file_count}
use data_lakehouse.Locks.{lock_file_path, to_iso, to_json, from_json}
use data_lakehouse.Locks.Manager.{
  read_lock, write_lock, delete_lock, cleanup_stale_lock, new_lock, take_lock, acquire, release,
}
use data_lakehouse.Metrics.{Status, Detail, CompactionRunMetrics, new_metrics, mark_complete}
use data_lakehouse.Compactor.{
  create_spark_session, validate_partition_has_data, count_partition_files,
  compact_with_delta_optimize, compact_with_zorder_inspired_clustering, rewrite, compact_partition,
}
use data_lakehouse.Daemon.{
  find_partition, finalize_run, compact_locked, run_partition, run_partitions,
}
use data_lakehouse.Daemon.Cycle.{
  run_with_spark, run_choice, run_guarded, run_verified, run_compaction_cycle, run_dry_run,
  plan_verified, plan_choice, plan_partitions,
}
use data_lakehouse.Daemon.Plan.{Forecasted}
use data_lakehouse.Daemon.Forecast.{run_dry_run-Forecasted}
use data_lakehouse.Selection.{select_partitions, from_config}
use data_lakehouse.Daemon.Loop.{Process, daemon_cycle, after_cycles, EndsAt, run_daemon-EndsAt}
use data_lakehouse.Daemon.Whole.{Settled, run_compaction_cycle-Settled}
use data_lakehouse.Tests.World.{Bucket, empty_bucket}
use data_lakehouse.Tests.Fixtures.{env, optimizing}

abbrev target : Option Text
target = some (codes "event_date=2026-06-11/event_hour=9")

abbrev run : Result CompactionRunMetrics × Bucket
run = run_compaction_cycle env optimizing target empty_bucket

abbrev metrics_of : Result CompactionRunMetrics → CompactionRunMetrics
metrics_of (ok m) = m
metrics_of (raise exc) = new_metrics [] [] []

run_ok : run ≡ (ok (metrics_of run.0), run.1)
unfolding run_compaction_cycle run_verified run_guarded run_choice run_with_spark
    verify_delta_table_exists scan_partitions partitions_of scan_pages scan_objects scan_object
    sorted_onto insert_sorted find_partition create_spark_session run_partitions finalize_run
    table_key_prefix add_file contains ends_with parse_partition_from_key search partition_id id_of
    decimal digits_onto text_dec ℕ_discrete run_partition acquire release read_lock
    cleanup_stale_lock take_lock write_lock compact_locked compact_partition from_json to_json
    lock_file_path validate_partition_has_data estimate_output_file_count rewrite
    compact_with_delta_optimize compact_with_zorder_inspired_clustering count_partition_files
    new_lock to_iso plus ◌*ℤ◌ delete_lock
run_ok = refl

run_compaction_cycle-Settled_example :
    Settled target (metrics_of run.0) × (is_some (metrics_of run.0).completed_at ≡ true)
run_compaction_cycle-Settled_example =
    run_compaction_cycle-Settled env optimizing target empty_bucket run.1 (metrics_of run.0) run_ok

-- What a dry run for the same partition says, which has one file of 50 bytes.
abbrev forecast_metrics : CompactionRunMetrics
forecast_metrics = record (new_metrics (codes "run1") optimizing.delta_table_path (codes "a0")) {
  completed_at = some (codes "a0");
  compaction_duration = some (pos 0);
  partitions_scanned = 2;
  eligible_partitions = pos 1;
  files_before = 1;
  files_after = 1;
  bytes_before = 50;
  bytes_after = 50;
  partition_details = Detail.planned (codes "event_date=2026-06-11/event_hour=9") 1 1 50 ∷ [];
  status = Status.dry_run;
}

dry_run_ok : run_dry_run env optimizing target empty_bucket ≡ (ok forecast_metrics, empty_bucket)
unfolding run_dry_run plan_verified plan_choice plan_partitions mark_complete
    verify_delta_table_exists scan_partitions partitions_of scan_pages scan_objects scan_object
    sorted_onto insert_sorted find_partition finalize_run table_key_prefix add_file contains
    ends_with parse_partition_from_key search partition_id id_of decimal digits_onto text_dec
    ℕ_discrete estimate_output_file_count to_iso plus ◌*ℤ◌ ◌-ℤ◌
dry_run_ok = refl

run_dry_run-Forecasted_example : Forecasted env optimizing target empty_bucket forecast_metrics
run_dry_run-Forecasted_example =
    run_dry_run-Forecasted env optimizing target empty_bucket empty_bucket forecast_metrics
      dry_run_ok

-- The signal comes with the first reading of the time, and leaves a mark.
abbrev signalled : Process Bucket
signalled = record {
  is_running = λ w. not (is_some (w (codes "stop")));
  monotonic = λ w. (pos 0, λ k. if text_eq k (codes "stop") then some [] else w k);
  sleep = λ rest w. (ok tt, w);
}

stops : signalled.is_running (after_cycles signalled env optimizing 1 empty_bucket) ≡ false
unfolding daemon_cycle run_compaction_cycle run_verified run_guarded run_choice
    verify_delta_table_exists scan_partitions partitions_of scan_pages scan_objects scan_object
    sorted_onto insert_sorted finalize_run select_partitions table_key_prefix add_file contains
    ends_with parse_partition_from_key search text_dec ℕ_discrete ◌*ℤ◌ ◌-ℤ◌ from_config
stops = refl

run_daemon-EndsAt_example : EndsAt signalled env optimizing (λ rest w. refl) 5 1 empty_bucket
run_daemon-EndsAt_example =
    run_daemon-EndsAt signalled env optimizing (λ rest w. refl) 1 5 empty_bucket stops (omega arith)
