-- ===== src/Daemon/Plan.antt =====
-- src/compactor/compaction_daemon.py: what the metrics of a dry run can say.
use data_lakehouse.Base.{
  ℕ, ◌+◌, ◌++◌, ◌≡◌, refl, true, false, Option, none, some, List, [], Text, codes, ℤ, pos, length,
  sum, arith,
}
use data_lakehouse.Base.Strings.Affix.{is_some}
use data_lakehouse.Errors.{Exc, ok, raise, str}
use data_lakehouse.Time.{Datetime}
use data_lakehouse.Config.{Config}
use data_lakehouse.Scanner.{PartitionStats}
use data_lakehouse.Scanner.Scan.{scan_partitions, verify_delta_table_exists}
use data_lakehouse.Scanner.Scan.Totals.{count_files, count_bytes}
use data_lakehouse.Selection.{PartitionSelectionResult}
use data_lakehouse.Locks.{has_text, to_iso, get_or}
use data_lakehouse.Metrics.{Status, dry_run, CompactionRunMetrics, mark_complete, new_metrics}
use data_lakehouse.Daemon.{World, find_partition, set_error, set_status}
use data_lakehouse.Daemon.Cycle.{choose, set_scanned, set_selected, is_table_not_found}
use data_lakehouse.Daemon.Dry.{Estimates, plans, with_plan}
use data_lakehouse.Daemon.Whole.{choose-total}

-- Nothing is counted as rewritten, in conflict or failed.
pub record IsIdle (m : CompactionRunMetrics) : Type 0 where
  pub compacted_ok : m.compacted_partitions ≡ 0
  pub conflicts_ok : m.lock_conflicts ≡ 0
  pub failed_ok : m.failed_partitions ≡ []
  pub completed_ok : is_some m.completed_at ≡ true

-- A plan for the partitions that the scan and the choice, from the world `start` on, have given.
pub record Forecast {W : Type 0} (env : World W) (config : Config) (target : Option Text)
    (start : W) (m : CompactionRunMetrics) : Type 0 where
  pub scanned : List PartitionStats
  pub eligible : List PartitionStats
  pub skipped : List PartitionSelectionResult
  pub estimates : List ℕ
  pub verified : W
  pub listed : W
  pub chosen : W
  pub verify_ok : verify_delta_table_exists env.listing config start ≡ (ok tt, verified)
  pub scan_ok : scan_partitions env.listing config verified ≡ (ok scanned, listed)
  pub choice_ok : choose env config target scanned listed ≡ (ok (some (eligible, skipped)), chosen)
  pub total_ok : has_text target ≡ false → length skipped + length eligible ≡ length scanned
  pub estimates_ok : Estimates config eligible estimates
  pub scanned_ok : m.partitions_scanned ≡ length scanned
  pub eligible_ok : m.eligible_partitions ≡ pos (length eligible)
  pub skipped_ok : m.skipped_partitions ≡ length skipped
  pub files_before_ok : m.files_before ≡ count_files eligible
  pub files_after_ok : m.files_after ≡ sum estimates
  pub bytes_before_ok : m.bytes_before ≡ count_bytes eligible
  pub bytes_after_ok : m.bytes_after ≡ count_bytes eligible
  pub details_ok : m.partition_details ≡ plans eligible estimates
  pub status_ok : m.status ≡ dry_run
  pub error_ok : m.error ≡ none
  pub idle : IsIdle m

-- No partition is planned, for the reason that the error gives.
pub record IsUnplanned (said : Text) (m : CompactionRunMetrics) : Type 0 where
  pub error_ok : m.error ≡ some said
  pub files_before_ok : m.files_before ≡ 0
  pub files_after_ok : m.files_after ≡ 0
  pub eligible_ok : m.eligible_partitions ≡ pos 0
  pub details_ok : m.partition_details ≡ []
  pub idle : IsIdle m

-- The table was not found, or the partition that was asked for, or there is a plan.
pub data Forecasted {W : Type 0} (env : World W) (config : Config) (target : Option Text)
    (start : W) (m : CompactionRunMetrics) : Type 0 where
  no_table :
      (exc : Exc) (w : W)
      → verify_delta_table_exists env.listing config start ≡ (raise exc, w)
      → is_table_not_found exc ≡ true
      → IsUnplanned (str exc) m
      → Forecasted env config target start m
  no_partition :
      (scanned : List PartitionStats) (verified listed : W)
      → verify_delta_table_exists env.listing config start ≡ (ok tt, verified)
      → scan_partitions env.listing config verified ≡ (ok scanned, listed)
      → has_text target ≡ true
      → find_partition scanned (get_or target []) ≡ none
      → IsUnplanned (codes "Partition not found: " ++ get_or target []) m
      → m.status ≡ Status.error
      → Forecasted env config target start m
  forecast : Forecast env config target start m → Forecasted env config target start m

module _ {W : Type 0} (env : World W) (config : Config) (target : Option Text) where
  -- The metrics with which a dry run begins.
  abbrev pub dry_metrics : Text → Datetime → CompactionRunMetrics
  dry_metrics id started =
      set_status dry_run (new_metrics id config.delta_table_path (to_iso env.codec started))

  pub completed-IsUnplanned :
      (started finished : ℤ) (at id said : Text) (day : Datetime) (n : ℕ)
      → IsUnplanned said (
          mark_complete started finished at
            (set_status Status.error (set_error said (set_scanned n (dry_metrics id day)))))
  unfolding mark_complete
  completed-IsUnplanned started finished at id said day n = record {
    error_ok = refl;
    files_before_ok = refl;
    files_after_ok = refl;
    eligible_ok = refl;
    details_ok = refl;
    idle = record {
      compacted_ok = refl;
      conflicts_ok = refl;
      failed_ok = refl;
      completed_ok = refl;
    };
  }

  pub planned-Forecast :
      (start verified listed chosen : W) (id : Text) (day : Datetime) (started finished : ℤ)
      (at : Text) (ps es : List PartitionStats) (ss : List PartitionSelectionResult) (ns : List ℕ)
      → verify_delta_table_exists env.listing config start ≡ (ok tt, verified)
      → scan_partitions env.listing config verified ≡ (ok ps, listed)
      → choose env config target ps listed ≡ (ok (some (es, ss)), chosen)
      → Estimates config es ns
      → Forecast env config target start (
          mark_complete started finished at (
            with_plan (count_files es) (sum ns) (count_bytes es) (plans es ns) (
              set_selected (length es) (length ss) (set_scanned (length ps) (dry_metrics id day)))))
  unfolding mark_complete
  planned-Forecast start verified listed chosen id day started finished at ps es ss ns v p c e =
      record {
        scanned = ps;
        eligible = es;
        skipped = ss;
        estimates = ns;
        verified = verified;
        listed = listed;
        chosen = chosen;
        verify_ok = v;
        scan_ok = p;
        choice_ok = c;
        total_ok = choose-total env config target ps es ss listed chosen c;
        estimates_ok = e;
        scanned_ok = refl;
        eligible_ok = refl;
        skipped_ok = refl;
        files_before_ok = omega arith;
        files_after_ok = omega arith;
        bytes_before_ok = omega arith;
        bytes_after_ok = omega arith;
        details_ok = refl;
        status_ok = refl;
        error_ok = refl;
        idle = record {
          compacted_ok = refl;
          conflicts_ok = refl;
          failed_ok = refl;
          completed_ok = refl;
        };
      }
