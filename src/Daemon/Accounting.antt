-- ===== src/Daemon/Accounting.antt =====
-- The counters of a run: every eligible partition is counted once.
use data_lakehouse.Base.{
  ℕ, suc, ◌+◌, ◌≤◌, ◌≡◌, refl, ◌∙◌, ap, true, false, none, some, List, [], ◌∷◌, ◌==◌, ℤ, pos, ◌-ℤ◌,
  length, length-append, arith, Bool-cases, inl, inr, Text, codes,
}
use data_lakehouse.Errors.{Result, ok, str}
use data_lakehouse.Exec.{by_outcome, pure, throw, outcome-cases, pair_ok}
use data_lakehouse.Config.{Config}
use data_lakehouse.Scanner.{PartitionStats, partition_id, file_count}
use data_lakehouse.Locks.Manager.{LockManager, acquire, release}
use data_lakehouse.Metrics.{CompactionRunMetrics, PartitionCompactionMetrics, compacted}
use data_lakehouse.Compactor.{compact_partition}
use data_lakehouse.Daemon.{
  World, Run, add_empty, add_failed, add_conflict, add_before, add_compacted, compact_locked,
  run_partition, run_partitions, outside,
}

-- Of `total` partitions, of `scanned` that the scan has found, `remaining` are not counted yet; the others are compacted, failed or skipped.
pub record Accounted (scanned total : ℕ) (m : CompactionRunMetrics) (remaining : ℕ) : Type 0 where
  pub eligible_ok :
      m.eligible_partitions ≡ pos (m.compacted_partitions + length m.failed_partitions + remaining)
  pub total_ok :
      m.skipped_partitions + m.compacted_partitions + length m.failed_partitions + remaining ≡ total
  pub conflicts_ok : m.lock_conflicts ≤ length m.failed_partitions
  pub details_ok : length m.partition_details ≡ m.compacted_partitions
  pub scanned_ok : m.partitions_scanned ≡ scanned

pos_minus_one : (z : ℤ) (n : ℕ) → z ≡ pos (suc n) → z -ℤ pos 1 ≡ pos n
unfolding ◌-ℤ◌
pos_minus_one z n h = rw h (ground arith)

module _ (scanned total : ℕ) (m : CompactionRunMetrics) (k : ℕ)
    (a : Accounted scanned total m (suc k)) where
  add_empty-Accounted : Accounted scanned total (add_empty m) k
  add_empty-Accounted = record {
    eligible_ok = pos_minus_one _ _ (a.eligible_ok ∙ ap pos (omega arith));
    total_ok = omega (arith, a.total_ok);
    conflicts_ok = a.conflicts_ok;
    details_ok = a.details_ok;
    scanned_ok = a.scanned_ok;
  }

  module _ (id said : Text) where
    abbrev more : ℕ
    more = length (add_failed id said m).failed_partitions

    one_more : more ≡ length m.failed_partitions + 1
    one_more = length-append m.failed_partitions (record { partition_id = id; error = said } ∷ [])

    add_failed-Accounted : Accounted scanned total (add_failed id said m) k
    add_failed-Accounted = record {
      eligible_ok = a.eligible_ok ∙ ap pos (omega (arith, one_more));
      total_ok = omega (arith, a.total_ok, one_more);
      conflicts_ok = omega (arith, a.conflicts_ok, one_more);
      details_ok = a.details_ok;
      scanned_ok = a.scanned_ok;
    }

  module _ (id : Text) where
    conflict_more : length (add_conflict id m).failed_partitions ≡ length m.failed_partitions + 1
    conflict_more =
        length-append m.failed_partitions
          (record { partition_id = id; error = codes "lock_acquisition_failed" } ∷ [])

    add_conflict-Accounted : Accounted scanned total (add_conflict id m) k
    add_conflict-Accounted = record {
      eligible_ok = a.eligible_ok ∙ ap pos (omega (arith, conflict_more));
      total_ok = omega (arith, a.total_ok, conflict_more);
      conflicts_ok = omega (arith, a.conflicts_ok, conflict_more);
      details_ok = a.details_ok;
      scanned_ok = a.scanned_ok;
    }

  add_compacted-Accounted :
      (part : PartitionCompactionMetrics) → Accounted scanned total (add_compacted part m) k
  add_compacted-Accounted part = record {
    eligible_ok = a.eligible_ok ∙ ap pos (omega arith);
    total_ok = omega (arith, a.total_ok);
    conflicts_ok = a.conflicts_ok;
    details_ok =
        length-append m.partition_details (compacted part ∷ []) ∙ omega (arith, a.details_ok);
    scanned_ok = a.scanned_ok;
  }

add_before-Accounted :
    (scanned total : ℕ) (m : CompactionRunMetrics) (k : ℕ) (p : PartitionStats)
    → Accounted scanned total m k
    → Accounted scanned total (add_before p m) k
add_before-Accounted scanned total m k p a = record {
  eligible_ok = a.eligible_ok;
  total_ok = a.total_ok;
  conflicts_ok = a.conflicts_ok;
  details_ok = a.details_ok;
  scanned_ok = a.scanned_ok;
}

module _ {W : Type 0} (env : World W) (config : Config) (lm : LockManager) (run_id : Text)
    (scanned total : ℕ) where
  abbrev Counted : ℕ → Result (Unit {0}) × Run W → Type 0
  Counted k r = Accounted scanned total r.1.metrics k

  -- Whatever becomes of the rewriting, the loop goes on, with one partition less to count.
  compact_locked-Counted :
      (p : PartitionStats) (s : Run W) (k : ℕ)
      → Accounted scanned total s.metrics (suc k)
      → ((compact_locked env config lm run_id p s).0 ≡ ok tt)
        × Counted k (compact_locked env config lm run_id p s)
  unfolding compact_locked
  compact_locked-Counted p s k a =
      let b = add_before-Accounted scanned total s.metrics (suc k) p a in
      elim (outcome-cases (compact_partition env.timer env.listing env.spark config p s.world)) [
        | inl (part, w, e) ↦ rw e (refl, add_compacted-Accounted scanned total _ k b part)
        | inr (exc, w, e) ↦
            rw e (refl, add_failed-Accounted scanned total _ k b (partition_id p) (str exc))
      ]

  -- What is left to count, of `k` partitions after this one.
  record Left (k : ℕ) (r : Result (Unit {0}) × Run W) : Type 0 where
    pub left : ℕ
    pub left_le : left ≤ suc k
    pub counted : Counted left r
    pub left_ok : r.0 ≡ ok tt → left ≡ k

  release-Left :
      (p : PartitionStats) (k : ℕ) (s : Run W)
      → Accounted scanned total s.metrics k
      → Left k (
          by_outcome
            (λ a. pure tt)
            throw
            (outside (release env.clock env.store env.codec lm (partition_id p)) s))
  release-Left p k s a =
      elim (outcome-cases (release env.clock env.store env.codec lm (partition_id p) s.world)) [
        | inl (u, w, e) ↦
            rw e (record { left = k; left_le = omega arith; counted = a; left_ok = λ h. refl })
        | inr (exc, w, e) ↦
            rw e (record { left = k; left_le = omega arith; counted = a; left_ok = λ h. refl })
      ]

  run_partition-Left :
      (p : PartitionStats) (s : Run W) (k : ℕ)
      → Accounted scanned total s.metrics (suc k)
      → Left k (run_partition env config lm run_id p s)
  unfolding run_partition
  run_partition-Left p s k a = elim (Bool-cases (file_count p == 0)) [
    | inl none_here ↦ rw none_here (record {
      left = k;
      left_le = omega arith;
      counted = add_empty-Accounted scanned total s.metrics k a;
      left_ok = λ h. refl;
    })
    | inr some_here ↦
        rw some_here
          (elim (outcome-cases (
            acquire env.clock env.store env.codec lm (partition_id p) none (some run_id) s.world)) [
              | inl (true, w, e) ↦
                  let s' : Run W = record s { world = w } in
                  let (done, counted) = compact_locked-Counted p s' k a in
                  rw e (
                    rw (pair_ok (compact_locked env config lm run_id p s') done)
                      (release-Left p k (compact_locked env config lm run_id p s').1 counted))
              | inl (false, w, e) ↦ rw e (record {
                left = k;
                left_le = omega arith;
                counted = add_conflict-Accounted scanned total s.metrics k a (partition_id p);
                left_ok = λ h. refl;
              })
              | inr (exc, w, e) ↦ rw e (record {
                left = suc k;
                left_le = omega arith;
                counted = a;
                left_ok = λ h. absurd (cc h);
              })
            ])
  ]

  -- The loop over the eligible partitions counts each once, as compacted, failed or skipped; if it
  -- returns, it has counted all. If it raises, those from the one where it stopped may be uncounted.
  -- Conflicts are failures, and there is a record for each partition that was compacted.
  pub run_partitions-Accounted :
      (ps : List PartitionStats) (s : Run W)
      → Accounted scanned total s.metrics (length ps)
      → (j : ℕ) × (j ≤ length ps)
        × Accounted scanned total (run_partitions env config lm run_id ps s).1.metrics j
        × ((run_partitions env config lm run_id ps s).0 ≡ ok tt → j ≡ 0)
  unfolding run_partitions
  run_partitions-Accounted [] s a = (0, omega arith, a, λ h. refl)
  run_partitions-Accounted (p ∷ ps) s a =
      let l = run_partition-Left p s (length ps) a in
      elim (outcome-cases (run_partition env config lm run_id p s)) [
        | inl (u, s', e) ↦
            let done = l.left_ok (ap (λ r. r.0) e) in
            let (j, j_le, counted, all) =
              run_partitions-Accounted ps s' (rw (e, done) at l.counted) in
            rw e (j, omega (arith, j_le), counted, all)
        | inr (exc, s', e) ↦ rw e (l.left, l.left_le, rw e at l.counted, λ h. absurd (cc h))
      ]
