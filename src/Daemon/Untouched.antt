-- ===== src/Daemon/Untouched.antt =====
-- A dry run reads, and writes nothing.
use data_lakehouse.Base.{◌≡◌, false, Option, none, some, List, [], ◌∷◌, Text, ℤ}
use data_lakehouse.Errors.{Result, ok, raise}
use data_lakehouse.Time.{Datetime}
use data_lakehouse.Config.{Config}
use data_lakehouse.Scanner.{
  PartitionStats, ParquetFileInfo, partition_is_too_recent, files_too_recent,
}
use data_lakehouse.Scanner.Scan.{scan_partitions, verify_delta_table_exists}
use data_lakehouse.Selection.{
  PartitionSelectionPolicy, PartitionSelectionResult, evaluate_partition, select_loop,
  select_partitions,
}
use data_lakehouse.Daemon.{World, Run, finalize_run, outside}
use data_lakehouse.Daemon.Kept.{Kept, bind-look, by_outcome-look, if-look}
use data_lakehouse.Daemon.Cycle.{
  plan_partitions, plan_choice, plan_verified, run_dry_run, choose, Choice, is_table_not_found,
  finish_dry, scan_and_choose, returned,
}

module _ {W V : Type 0} (look : W → V) (v : V) (clock : W → ℤ × W)
    (clock_kept : (v : V) (w : W) → look w ≡ v → look (clock w).1 ≡ v) where
  files-look :
      (fs : List ParquetFileInfo) (minutes : ℤ) (now : Option Datetime) (w : W)
      → look w ≡ v
      → look (files_too_recent clock fs minutes now w).1 ≡ v
  files-look [] minutes now w h = h
  files-look (f ∷ fs) minutes none w h = clock_kept v w h
  files-look (f ∷ fs) minutes (some now) w h = h

  recent-look :
      (stats : PartitionStats) (minutes : ℤ) (now : Option Datetime) (w : W)
      → look w ≡ v
      → look (partition_is_too_recent clock stats minutes now w).1 ≡ v
  unfolding partition_is_too_recent
  recent-look stats minutes now w h = files-look stats.files minutes now w h

  evaluate-look :
      (stats : PartitionStats) (policy : PartitionSelectionPolicy) (now : Option Datetime) (w : W)
      → look w ≡ v
      → look (evaluate_partition clock stats policy now w).1 ≡ v
  unfolding evaluate_partition
  evaluate-look stats policy now w h = search (bind-look look v, if-look look v, recent-look, h)

  select_loop-look :
      (policy : PartitionSelectionPolicy) (now : Option Datetime) (ps es : List PartitionStats)
      (ss : List PartitionSelectionResult) (w : W)
      → look w ≡ v
      → look (select_loop clock policy now ps es ss w).1 ≡ v
  unfolding select_loop
  select_loop-look policy now [] es ss w h = h
  select_loop-look policy now (p ∷ ps) es ss w h =
      search (bind-look look v, evaluate-look, select_loop-look policy now ps, h)

  select_partitions-look :
      (ps : List PartitionStats) (policy : PartitionSelectionPolicy) (now : Option Datetime) (w : W)
      → look w ≡ v
      → look (select_partitions clock ps policy now w).1 ≡ v
  unfolding select_partitions
  select_partitions-look ps policy now w h = select_loop-look policy now ps [] [] w h

-- The reads of a dry run leave what `look` shows, and so does making the directory of the metrics file.
pub record Reads {W V : Type 0} (look : W → V) (env : World W) : Type 0 where
  pub clock_kept : (v : V) (w : W) → look w ≡ v → look (env.clock w).1 ≡ v
  pub new_id_kept : (v : V) (w : W) → look w ≡ v → look (env.new_id w).1 ≡ v
  pub key_count_kept : (b p : Text) → Kept look (env.listing.key_count b p)
  pub paginate_kept : (b p : Text) → Kept look (env.listing.paginate b p)
  pub make_directory_kept : (p : Text) → Kept look (env.make_directory p)

module _ {W V : Type 0} (look : W → V) (v : V) (env : World W) (reads : Reads look env)
    (config : Config) where
  abbrev see : Run W → V
  see s = look s.world

  choose-look :
      (target : Option Text) (ps : List PartitionStats) (w : W)
      → look w ≡ v
      → look (choose env config target ps w).1 ≡ v
  choose-look target ps w h = search (
    if-look look v,
    bind-look look v,
    select_partitions-look look v env.clock reads.clock_kept,
    h,
  )

  scan-look : (w : W) → look w ≡ v → look (scan_partitions env.listing config w).1 ≡ v
  unfolding scan_partitions
  scan-look w h = search (bind-look look v, reads.paginate_kept, h)

  verify-look : (w : W) → look w ≡ v → look (verify_delta_table_exists env.listing config w).1 ≡ v
  unfolding verify_delta_table_exists
  verify-look w h = search (bind-look look v, if-look look v, reads.key_count_kept, h)

  finalize-look :
      (started : Datetime) (s : Run W)
      → see s ≡ v
      → see (finalize_run env config started false s).1 ≡ v
  unfolding finalize_run
  finalize-look started s h = reads.clock_kept v s.world h

  finish-look :
      (started : Datetime) (target : Option Text) (s : Run W)
      → see s ≡ v
      → see (finish_dry env config started target s).1 ≡ v
  finish-look started target s h =
      bind-look see v (λ done. finalize_run env config started false)
        (outside (env.make_directory config.metrics_path) s)
        (reads.make_directory_kept _ v s.world h) (λ done t e. finalize-look started t e)

  plan_partitions-look :
      (ps : List PartitionStats) (s : Run W)
      → see s ≡ v
      → see (plan_partitions env config ps s).1 ≡ v
  unfolding plan_partitions
  plan_partitions-look [] s h = h
  plan_partitions-look (p ∷ ps) s h = search (bind-look see v, plan_partitions-look ps, h)

  plan_choice-look :
      (started : Datetime) (target : Option Text) (c : Choice) (s : Run W)
      → see s ≡ v
      → see (plan_choice env config started target c s).1 ≡ v
  unfolding plan_choice
  plan_choice-look started target none s h = finish-look started target _ h
  plan_choice-look started target (some (es, ss)) s h =
      bind-look see v (λ done. finish_dry env config started target) _ (plan_partitions-look es _ h)
        (λ done t e. finish-look started target t e)

  scan_and_choose-look :
      (target : Option Text) (s : Run W)
      → see s ≡ v
      → see (scan_and_choose env config target s).1 ≡ v
  scan_and_choose-look target s h =
      bind-look see v _ (outside (scan_partitions env.listing config) s) (scan-look s.world h)
        (λ ps t e. choose-look target ps t.world e)

  plan_verified-look :
      (started : Datetime) (target : Option Text) (s : Run W)
      → see s ≡ v
      → see (plan_verified env config started target s).1 ≡ v
  unfolding plan_verified
  plan_verified-look started target s h =
      by_outcome-look see v _ _ (outside (verify_delta_table_exists env.listing config) s)
        (verify-look s.world h)
        (λ done t e.
          bind-look see v _ (scan_and_choose env config target t) (scan_and_choose-look target t e)
            (λ c u k. plan_choice-look started target c u k))
        (λ exc t e. if-look see v (is_table_not_found exc) _ _ t (finish-look started target _ e) e)

  returned-look : (r : Result (Unit {0}) × Run W) → see r.1 ≡ v → look (returned env config r).1 ≡ v
  returned-look (ok done, s) h = h
  returned-look (raise exc, s) h = h

  -- A dry run, however it ends, leaves what its reads and the making of the metrics directory
  -- leave: nothing else is called, neither Spark nor a write to the store or to the metrics file.
  pub run_dry_run-look :
      (target : Option Text) (w : W) → look w ≡ v → look (run_dry_run env config target w).1 ≡ v
  unfolding run_dry_run
  run_dry_run-look target w h =
      returned-look _
        (plan_verified-look _ target _ (reads.clock_kept v _ (reads.new_id_kept v w h)))
