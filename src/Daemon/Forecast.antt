-- ===== src/Daemon/Forecast.antt =====
-- src/compactor/compaction_daemon.py: what `run_dry_run` returns.
use mathlib.Core.Path.{subst}
use data_lakehouse.Base.{
  ℕ, ◌++◌, ◌≡◌, refl, ◌∙◌, ap, sym, inl, inr, true, Bool-cases, Option, none, some, List, [], Text,
  codes, ℤ, length, sum,
}
use data_lakehouse.Errors.{Result, ok, raise, str}
use data_lakehouse.Exec.{outcome-cases, bind_inv}
use data_lakehouse.Time.{Datetime, micros, aware}
use data_lakehouse.Config.{Config}
use data_lakehouse.Scanner.{PartitionStats, now_utc}
use data_lakehouse.Scanner.Scan.{scan_partitions, verify_delta_table_exists}
use data_lakehouse.Scanner.Scan.Totals.{count_files, count_bytes}
use data_lakehouse.Selection.{PartitionSelectionResult, select_partitions, from_config}
use data_lakehouse.Locks.{has_text, to_iso, get_or}
use data_lakehouse.Metrics.{Status, CompactionRunMetrics, mark_complete}
use data_lakehouse.Daemon.{World, Run, outside, finalize_run, find_partition, set_error, set_status}
use data_lakehouse.Daemon.Cycle.{
  Choice, targeted, choose, scan_and_choose, set_scanned, set_selected, set_not_found,
  plan_partitions, finish_dry, plan_choice, plan_verified, run_dry_run, returned, begin_run,
  is_table_not_found,
}
use data_lakehouse.Daemon.Dry.{Estimates, plans, with_plan, plan_partitions-Planned}
use data_lakehouse.Daemon.Plan.{
  IsUnplanned, Forecast, Forecasted, no_table, no_partition, forecast, dry_metrics,
  completed-IsUnplanned, planned-Forecast,
}

targeted-none :
    {W : Type 0} (o : Option PartitionStats) {w w' : W}
    → ◌≡◌ {A = Result Choice × W} (ok (targeted o), w) (ok none, w')
    → o ≡ none
targeted-none none h = refl
targeted-none (some p) h = absurd (cc (ap (λ x. x.0) h))

module _ {W : Type 0} (env : World W) (config : Config) (target : Option Text) where
  -- The metrics at the end of a dry run are those before, complete.
  finish_dry_inv :
      (started : Datetime) (s s' : Run W)
      → finish_dry env config started target s ≡ (ok tt, s')
      → (finished : ℤ) × (s'.metrics
          ≡ mark_complete (micros started) finished (to_iso env.codec (aware finished)) s.metrics)
  unfolding finalize_run
  finish_dry_inv started s s' h =
      let (done, s1, made, rest) =
        bind_inv (outside (env.make_directory config.metrics_path) s) h in
      (
        (env.clock s1.world).0,
        ap (λ r. r.1.metrics) (sym rest)
            ∙ ap
                (λ m.
                  mark_complete (micros started) (env.clock s1.world).0
                    (to_iso env.codec (aware (env.clock s1.world).0)) m)
                (sym (ap (λ r. r.1.metrics) made)),
      )

  -- Only a partition that is asked for is not found.
  choose-none :
      (ps : List PartitionStats) (w w' : W)
      → choose env config target ps w ≡ (ok none, w')
      → (has_text target ≡ true) × (find_partition ps (get_or target []) ≡ none)
  choose-none ps w w' h = elim (Bool-cases (has_text target)) [
    | inl asked ↦ (asked, targeted-none (find_partition ps (get_or target [])) (rw asked at h))
    | inr all ↦
        let (r, w1, e, rest) =
          bind_inv (select_partitions env.clock ps (from_config config) none w) (rw all at h) in
        absurd (cc (ap (λ x. x.0) rest))
  ]

  returned_inv :
      (r : Result (Unit {0}) × Run W) {m : CompactionRunMetrics} {w : W}
      → returned env config r ≡ (ok m, w)
      → (s : Run W) × (r ≡ (ok tt, s)) × (s.metrics ≡ m)
  returned_inv (ok done, s) h = (s, refl, cc (ap (λ x. x.0) h))
  returned_inv (raise exc, s) h = absurd (cc (ap (λ x. x.0) h))

  plan_choice_inv :
      (started : Datetime) (es : List PartitionStats) (ss : List PartitionSelectionResult)
      (s s' : Run W)
      → plan_choice env config started target (some (es, ss)) s ≡ (ok tt, s')
      → (ns : List ℕ) × Estimates config es ns
        × ((finished : ℤ) × (s'.metrics
              ≡ mark_complete (micros started) finished (to_iso env.codec (aware finished)) (
                  with_plan
                    (count_files es)
                    (sum ns)
                    (count_bytes es)
                    (plans es ns)
                    (set_selected (length es) (length ss) s.metrics))))
  unfolding plan_choice
  plan_choice_inv started es ss s s' h =
      let s1 : Run W = record s { metrics = set_selected (length es) (length ss) s.metrics } in
      let (done, s2, e, rest) = bind_inv (plan_partitions env config es s1) h in
      let (planned, _) = plan_partitions-Planned env config es s1 s2 e in
      let (finished, end) = finish_dry_inv started s2 s' rest in
      (
        planned.estimates,
        planned.estimates_ok,
        (
          finished,
          end
              ∙ ap
                  (λ m.
                    mark_complete (micros started) finished (to_iso env.codec (aware finished)) m)
                  planned.metrics_ok,
        ),
      )

module _ {W : Type 0} (env : World W) (config : Config) (target : Option Text) where
  -- From the choice on.
  chosen-Forecasted :
      (id : Text) (started : Datetime) (start verified listed chosen : W) (ps : List PartitionStats)
      (c : Choice) (s s' : Run W)
      → verify_delta_table_exists env.listing config start ≡ (ok tt, verified)
      → scan_partitions env.listing config verified ≡ (ok ps, listed)
      → choose env config target ps listed ≡ (ok c, chosen)
      → s.metrics ≡ set_scanned (length ps) (dry_metrics env config target id started)
      → plan_choice env config started target c s ≡ (ok tt, s')
      → Forecasted env config target start s'.metrics
  unfolding plan_choice
  chosen-Forecasted id started start verified listed chosen ps none s s' v p c m h =
      let said = codes "Partition not found: " ++ get_or target [] in
      let (finished, end) =
        finish_dry_inv env config target started
          (record s { metrics = set_not_found (get_or target []) s.metrics }) s' h in
      let at = to_iso env.codec (aware finished) in
      let whole =
        end
        ∙ ap (λ x. mark_complete (micros started) finished at (set_not_found (get_or target []) x))
            m in
      let (asked, missing) = choose-none env config target ps listed chosen c in
      no_partition ps verified listed v p asked missing
        (subst (IsUnplanned said) (sym whole) (
          completed-IsUnplanned env config target (micros started) finished at id said started
            (length ps)))
        (ap (λ x. x.status) whole ∙ unfold mark_complete in refl)
  chosen-Forecasted id started start verified listed chosen ps (some (es, ss)) s s' v p c m h =
      let (ns, e, (finished, end)) = plan_choice_inv env config target started es ss s s' h in
      let at = to_iso env.codec (aware finished) in
      forecast (
        subst (Forecast env config target start)
          (sym (
            end
            ∙ ap
                (λ x. mark_complete (micros started) finished at (
                  with_plan (count_files es) (sum ns) (count_bytes es) (plans es ns)
                    (set_selected (length es) (length ss) x)))
                m))
          (planned-Forecast env config target start verified listed chosen id started
            (micros started) finished at ps es ss ns v p c e))

  -- From the test for the table on.
  verified-Forecasted :
      (id : Text) (started : Datetime) (w : W) (s' : Run W)
      → plan_verified env config started target
          (begin_run env config (dry_metrics env config target id started) w)
        ≡ (ok tt, s')
      → Forecasted env config target w s'.metrics
  unfolding plan_verified
  verified-Forecasted id started w s' h =
      elim (outcome-cases (verify_delta_table_exists env.listing config w)) [
        | inl (done, w1, v) ↦
            let s1 : Run W = begin_run env config (dry_metrics env config target id started) w1 in
            let (c, s2, e2, rest) = bind_inv (scan_and_choose env config target s1) (rw v at h) in
            let (ps, s3, e3, chosen) =
              bind_inv (outside (scan_partitions env.listing config) s1) e2 in
            chosen-Forecasted id started w w1 s3.world s2.world ps c s2 s' v
              (ap (λ r. (r.0, r.1.world)) e3) (ap (λ r. (r.0, r.1.world)) chosen)
              (ap (λ r. r.1.metrics) (sym chosen)
                ∙ ap (λ x. set_scanned (length ps) x) (ap (λ r. r.1.metrics) (sym e3)))
              rest
        | inr (exc, w1, v) ↦ elim (Bool-cases (is_table_not_found exc)) [
          | inl lost ↦
              let s1 : Run W =
                begin_run env config
                  (set_status Status.error
                    (set_error (str exc) (dry_metrics env config target id started)))
                  w1 in
              let (finished, end) =
                finish_dry_inv env config target started s1 s' (rw (v, lost) at h) in
              no_table exc w1 v lost (
                subst (IsUnplanned (str exc)) (sym end) (
                  completed-IsUnplanned env config target (micros started) finished
                    (to_iso env.codec (aware finished)) id (str exc) started 0))
          | inr other ↦ absurd (cc (ap (λ r. r.0) (rw (v, other) at h)))
        ]
      ]

  -- A dry run that returns has an error and plans nothing, because the table or the partition that
  -- was asked for was not found, or it has no error and its metrics say what a run would do for the
  -- partitions that the scan and the choice have given: their number and that of the skipped ones,
  -- which are all that was scanned if none was asked for, the files and bytes that they have, the
  -- files that the estimate gives for them and an entry for each, in order. Its status is then
  -- "dry_run". In each case nothing counts as compacted, in conflict or failed, and the time of
  -- completion is set.
  pub run_dry_run-Forecasted :
      (w w' : W) (m : CompactionRunMetrics)
      → run_dry_run env config target w ≡ (ok m, w')
      → Forecasted env config target (now_utc env.clock (env.new_id w).1).1 m
  unfolding run_dry_run
  run_dry_run-Forecasted w w' m h =
      let id = (env.new_id w).0 in
      let w1 = (env.new_id w).1 in
      let started = aware (env.clock w1).0 in
      let w2 = (env.clock w1).1 in
      let (s, e, same) =
        returned_inv env config target
          (plan_verified env config started target
            (begin_run env config (dry_metrics env config target id started) w2))
          h in
      subst (Forecasted env config target w2) same (verified-Forecasted id started w2 s e)
