-- ===== src/Daemon/Whole.antt =====
-- The counters of a whole run, `run_compaction_cycle`.
use data_lakehouse.Base.{
  ◌++◌, codes, ℕ, ◌+◌, ◌≡◌, refl, ◌∙◌, ap, sym, Bool, true, false, Option, none, some, List, [],
  ◌∷◌, Text, ℤ, pos, if◌then◌else◌, length, arith, Bool-cases, inl, inr, length-map,
}
use data_lakehouse.Base.Strings.Affix.{is_some}
use data_lakehouse.Errors.{Exc, Result, ok, raise, str, is_compaction_error}
use data_lakehouse.Exec.{Exec, throw, by_outcome, outcome-cases, ◌>>◌, pure, bind_inv}
use data_lakehouse.Time.{Datetime, micros, aware}
use data_lakehouse.Config.{Config}
use data_lakehouse.Scanner.{PartitionStats}
use data_lakehouse.Scanner.Scan.{scan_partitions, verify_delta_table_exists}
use data_lakehouse.Selection.{PartitionSelectionResult, select_partitions, from_config}
use data_lakehouse.Selection.Laws.{select_partitions-Split, length-Split}
use data_lakehouse.Locks.{has_text, to_iso}
use data_lakehouse.Locks.Manager.{LockManager, new_manager}
use data_lakehouse.Metrics.{CompactionRunMetrics, mark_complete, new_metrics}
use data_lakehouse.Compactor.{create_spark_session}
use data_lakehouse.Daemon.{World, Run, outside, change, finalize_run, run_partitions, set_error}
use data_lakehouse.Daemon.Accounting.{Accounted, run_partitions-Accounted}
use data_lakehouse.Daemon.Cycle.{
  Choice, choose, scan_and_choose, set_scanned, set_selected, run_with_spark, run_choice,
  run_guarded, run_verified, run_compaction_cycle, returned, begin_run, is_table_not_found,
  is_spark_compaction,
}

-- A run has an error, or has counted all the partitions that it has chosen: of a run without a
-- target these are all that the scan has found.
pub data Settled (target : Option Text) (m : CompactionRunMetrics) : Type 0 where
  with_error : (text : Text) → m.error ≡ some text → Settled target m
  counted :
      (total : ℕ)
      → Accounted m.partitions_scanned total m 0
      → (has_text target ≡ false → total ≡ m.partitions_scanned)
      → Settled target m

abbrev chosen_length : Result Choice → ℕ
chosen_length (ok (some (es, ss))) = length es
chosen_length _ = 0

abbrev skipped_length : Result Choice → ℕ
skipped_length (ok (some (es, ss))) = length ss
skipped_length _ = 0

-- A run that has returned is settled, and has its time of completion.
abbrev Ended : {W : Type 0} → Option Text → Result (Unit {0}) × Run W → Type 0
Ended target (ok done, s) = Settled target s.metrics × (is_some s.metrics.completed_at ≡ true)
Ended target (raise exc, s) = Unit

mark_complete-Settled :
    (target : Option Text) (started finished : ℤ) (at : Text) (m : CompactionRunMetrics)
    → Settled target m
    → Settled target (mark_complete started finished at m)
unfolding mark_complete
mark_complete-Settled target started finished at m (with_error text e) = with_error text e
mark_complete-Settled target started finished at m (counted total a h) =
    counted total
      (record {
        eligible_ok = a.eligible_ok;
        total_ok = a.total_ok;
        conflicts_ok = a.conflicts_ok;
        details_ok = a.details_ok;
        scanned_ok = refl;
      })
      h

module _ {W : Type 0} (env : World W) (config : Config) (target : Option Text) where
  finalize-Ended :
      (started : Datetime) (s : Run W)
      → Settled target s.metrics
      → Ended target (finalize_run env config started true s)
  unfolding finalize_run
  finalize-Ended started s h =
      let (finished, w) = env.clock s.world in
      let at = to_iso env.codec (aware finished) in
      let m = mark_complete (micros started) finished at s.metrics in
      elim (outcome-cases (env.append_line config.metrics_path m w)) [
        | inl (u, w', e) ↦ rw e (
          mark_complete-Settled target (micros started) finished at s.metrics h,
          unfold mark_complete in refl,
        )
        | inr (exc, w', e) ↦ rw e tt
      ]

  -- A run without a target chooses or skips all that the scan has found.
  pub choose-total :
      (ps es : List PartitionStats) (ss : List PartitionSelectionResult) (w w' : W)
      → choose env config target ps w ≡ (ok (some (es, ss)), w')
      → has_text target ≡ false
      → length ss + length es ≡ length ps
  choose-total ps es ss w w' h no_target =
      let (r, w1, e, rest) =
        bind_inv (select_partitions env.clock ps (from_config config) none w) (rw no_target at h) in
      let (split, skipped) =
        select_partitions-Split env.clock (from_config config) ps none w r.0 r.1 w1 e in
      omega (
        arith,
        length-Split split,
        length-map (λ x. x.stats) r.1,
        ap (λ x. chosen_length x.0) rest,
        ap (λ x. skipped_length x.0) rest,
      )

settle :
    (target : Option Text) (n total : ℕ) (m : CompactionRunMetrics)
    → Accounted n total m 0
    → (has_text target ≡ false → total ≡ n)
    → Settled target m
settle target n total m a k =
    counted total
      (record {
        eligible_ok = a.eligible_ok;
        total_ok = a.total_ok;
        conflicts_ok = a.conflicts_ok;
        details_ok = a.details_ok;
        scanned_ok = refl;
      })
      (λ h. k h ∙ sym a.scanned_ok)

selected-Accounted :
    (n : ℕ) (es : List PartitionStats) (ss : List PartitionSelectionResult) (id path at : Text)
    → Accounted n
        (length ss + length es)
        (set_selected (length es) (length ss) (set_scanned n (new_metrics id path at)))
        (length es)
selected-Accounted n es ss id path at = record {
  eligible_ok = ap pos (omega arith);
  total_ok = omega arith;
  conflicts_ok = omega arith;
  details_ok = refl;
  scanned_ok = refl;
}

module _ {W : Type 0} (env : World W) (config : Config) (lm : LockManager) (run_id : Text)
    (started : Datetime) (target : Option Text) where
  run_with_spark-Ended :
      (n total : ℕ) (es : List PartitionStats) (s : Run W)
      → Accounted n total s.metrics (length es)
      → (has_text target ≡ false → total ≡ n)
      → Ended target (run_with_spark env config lm run_id started target es s)
  unfolding run_with_spark
  run_with_spark-Ended n total es s a k =
      elim (outcome-cases (create_spark_session env.timer env.listing env.spark config s.world)) [
        | inl (u, w, e) ↦
            let s2 : Run W = record s { has_spark = true; world = w } in
            let (j, j_le, after, all) =
              run_partitions-Accounted env config lm run_id n total es s2 a in
            rw e (elim (outcome-cases (run_partitions env config lm run_id es s2)) [
              | inl (v, s3, e3) ↦
                  let settled : Accounted n total s3.metrics 0 =
                    rw (all (ap (λ r. r.0) e3), e3) at after in
                  rw e3 (
                    finalize-Ended env config target started s3
                      (settle target n total s3.metrics settled k))
              | inr (exc, s3, e3) ↦ rw e3 tt
            ])
        | inr (exc, w, e) ↦ rw e (elim (Bool-cases (is_spark_compaction exc)) [
          | inl yes_spark ↦
              rw yes_spark (finalize-Ended env config target started _ (with_error (str exc) refl))
          | inr no_spark ↦ rw no_spark tt
        ])
      ]

  -- The run after its scan has found `n` partitions.
  abbrev scanned_run : ℕ → Text → Text → Text → W → Run W
  scanned_run n id path at w = record {
    metrics = set_scanned n (new_metrics id path at);
    has_spark = false;
    world = w;
  }

  run_choice-Ended :
      (c : Choice) (n : ℕ) (id path at : Text) (w : W)
      → ((es : List PartitionStats) (ss : List PartitionSelectionResult)
          → c ≡ some (es, ss)
          → has_text target ≡ false
          → length ss + length es ≡ n)
      → Ended target (run_choice env config lm run_id started target c (scanned_run n id path at w))
  unfolding run_choice
  run_choice-Ended none n id path at w k =
      finalize-Ended env config target started _ (with_error _ refl)
  run_choice-Ended (some ([], ss)) n id path at w k =
      finalize-Ended env config target started _
        (settle target n (length ss + 0) _ (selected-Accounted n [] ss id path at) (k [] ss refl))
  run_choice-Ended (some (p ∷ es, ss)) n id path at w k =
      run_with_spark-Ended n (length ss + length (p ∷ es)) (p ∷ es) _
        (selected-Accounted n (p ∷ es) ss id path at) (k (p ∷ es) ss refl)

  scan_then_run-Ended :
      (id path at : Text) (w : W)
      → Ended target (
          by_outcome
            (λ c. run_choice env config lm run_id started target c)
            throw
            (scan_and_choose env config target (begin_run env config (new_metrics id path at) w)))
  scan_then_run-Ended id path at w = elim (outcome-cases (scan_partitions env.listing config w)) [
    | inl (ps, w1, e) ↦ rw e (elim (outcome-cases (choose env config target ps w1)) [
      | inl (c, w2, e2) ↦ rw e2 (
          run_choice-Ended c (length ps) id path at w2 (λ es ss chosen no_target.
            choose-total env config target ps es ss w1 w2 (e2 ∙ ap (λ x. (ok x, w2)) chosen)
              no_target))
      | inr (exc, w2, e2) ↦ rw e2 tt
    ])
    | inr (exc, w1, e) ↦ rw e tt
  ]

  after_handler-Ended :
      (b : Bool) (exc : Exc) (r : Result (Unit {0}) × Run W)
      → Ended target r
      → Ended target (by_outcome (λ u. if b then pure tt else throw exc) throw r)
  after_handler-Ended true exc (ok u, s) h = h
  after_handler-Ended false exc (ok u, s) h = tt
  after_handler-Ended b exc (raise e, s) h = tt

  -- A handler that records the exception settles the run.
  handled-Ended :
      (r : Result (Unit {0}) × Run W)
      → Ended target r
      → Ended target (
          by_outcome pure
            (λ exc. do
              change (set_error (str exc))
              finalize_run env config started true
              if is_compaction_error exc then pure tt else throw exc)
            r)
  handled-Ended (ok u, s) h = h
  handled-Ended (raise exc, s) h =
      after_handler-Ended (is_compaction_error exc) exc _
        (finalize-Ended env config target started _ (with_error (str exc) refl))

  abbrev stop_spark : Exec (Run W) (Unit {0})
  stop_spark s = if s.has_spark then outside env.spark.stop s else pure tt s

  stop_spark-Ended :
      (s : Run W)
      → Ended target (ok tt, s)
      → Ended target (by_outcome (λ u. pure tt) throw (stop_spark s))
  stop_spark-Ended s h = elim (Bool-cases s.has_spark) [
    | inl started_spark ↦ rw started_spark (elim (outcome-cases (env.spark.stop s.world)) [
      | inl (u, w, e) ↦ rw e h
      | inr (exc, w, e) ↦ rw e tt
    ])
    | inr no_spark ↦ rw no_spark h
  ]

  throw-Ended :
      (exc : Exc) (r : Result (Unit {0}) × Run W)
      → Ended target (by_outcome (λ u. throw {A = Unit {0}} exc) throw r)
  throw-Ended exc (ok u, s) = tt
  throw-Ended exc (raise e, s) = tt

  stopped-Ended :
      (r : Result (Unit {0}) × Run W)
      → Ended target r
      → Ended target (by_outcome (λ a. stop_spark >> pure a) (λ exc. stop_spark >> throw exc) r)
  stopped-Ended (ok u, s) h = stop_spark-Ended s h
  stopped-Ended (raise exc, s) h = throw-Ended exc (stop_spark s)

  run_guarded-Ended :
      (id path at : Text) (w : W)
      → Ended target (
          run_guarded env config lm run_id started target
            (begin_run env config (new_metrics id path at) w))
  unfolding run_guarded
  run_guarded-Ended id path at w =
      stopped-Ended _ (handled-Ended _ (scan_then_run-Ended id path at w))

  run_verified-Ended :
      (id path at : Text) (w : W)
      → Ended target (
          run_verified env config lm run_id started target
            (begin_run env config (new_metrics id path at) w))
  unfolding run_verified
  run_verified-Ended id path at w =
      elim (outcome-cases (verify_delta_table_exists env.listing config w)) [
        | inl (u, w1, e) ↦ rw e (run_guarded-Ended id path at w1)
        | inr (exc, w1, e) ↦ rw e (elim (Bool-cases (is_table_not_found exc)) [
          | inl missing ↦
              rw missing (finalize-Ended env config target started _ (with_error (str exc) refl))
          | inr other_exc ↦ rw other_exc tt
        ])
      ]

returned-Ended :
    {W : Type 0} (env : World W) (config : Config) (target : Option Text)
    (r : Result (Unit {0}) × Run W) (m : CompactionRunMetrics) (w : W)
    → Ended target r
    → returned env config r ≡ (ok m, w)
    → Settled target m × (is_some m.completed_at ≡ true)
returned-Ended env config target (ok u, s) m w h e =
    let same : s.metrics ≡ m = cc (ap (λ r. r.0) e) in rw (sym same) h
returned-Ended env config target (raise exc, s) m w h e = absurd (cc (ap (λ r. r.0) e))

-- A run that returns metrics, whatever Spark, the store and the listing did, has its time of completion,
-- and has an error, or has counted each partition that it has chosen once, as compacted, failed or
-- skipped; without a target these are all that the scan has found.
pub run_compaction_cycle-Settled :
    {W : Type 0} (env : World W) (config : Config) (target : Option Text) (w w' : W)
    (m : CompactionRunMetrics)
    → run_compaction_cycle env config target w ≡ (ok m, w')
    → Settled target m × (is_some m.completed_at ≡ true)
unfolding run_compaction_cycle
run_compaction_cycle-Settled env config target w w' m h =
    let (run_id, w1) = env.new_id w in
    let (started, w2) = env.clock w1 in
    let (u, w3, e, rest) = bind_inv (env.make_directory config.metrics_path w2) h in
    let (suffix, w4) = env.new_suffix w3 in
    returned-Ended env config target _ m w'
      (run_verified-Ended env config
        (new_manager config none (some run_id) (env.hostname ++ (codes "-" ++ suffix))) run_id
        (aware started) target run_id config.delta_table_path (to_iso env.codec (aware started)) w4)
      rest
