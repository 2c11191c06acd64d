-- ===== src/Daemon/Dry.antt =====
-- The loop of a dry run, which plans what a run would do.
use mathlib.Core.List.{append_assoc, append-nil}
use data_lakehouse.Base.{ℕ, ◌+◌, ◌≡◌, ◌∙◌, ap, sym, List, [], ◌∷◌, ◌++◌, pos, sum, arith}
use data_lakehouse.Errors.{ok}
use data_lakehouse.Exec.{bind_inv, lift}
use data_lakehouse.Config.{Config}
use data_lakehouse.Scanner.{PartitionStats, partition_id, file_count, total_bytes}
use data_lakehouse.Scanner.Scan.Totals.{count_files, count_bytes}
use data_lakehouse.Sizing.{estimate_output_file_count}
use data_lakehouse.Metrics.{CompactionRunMetrics, Detail, planned}
use data_lakehouse.Daemon.{World, Run}
use data_lakehouse.Daemon.Cycle.{plan_partitions, add_planned}

-- The entry of a partition that would be rewritten into `n` files.
abbrev pub plan_of : PartitionStats → ℕ → Detail
plan_of p n = planned (partition_id p) (file_count p) n (total_bytes p)

-- The numbers of files that the estimate gives for the partitions, one by one.
pub data Estimates (config : Config) : List PartitionStats → List ℕ → Type 0 where
  none_left : Estimates config [] []
  one_more :
      {p : PartitionStats} {ps : List PartitionStats} {n : ℕ} {ns : List ℕ}
      → estimate_output_file_count (pos (total_bytes p)) config.target_file_size_bytes ≡ ok n
      → Estimates config ps ns
      → Estimates config (p ∷ ps) (n ∷ ns)

abbrev pub plans : List PartitionStats → List ℕ → List Detail
plans (p ∷ ps) (n ∷ ns) = plan_of p n ∷ plans ps ns
plans _ _ = []

-- The metrics with more files before and after, more bytes before and after, and more entries.
abbrev pub with_plan : ℕ → ℕ → ℕ → List Detail → CompactionRunMetrics → CompactionRunMetrics
with_plan files estimated bytes details m = record m {
  files_before = m.files_before + files;
  files_after = m.files_after + estimated;
  bytes_before = m.bytes_before + bytes;
  bytes_after = m.bytes_after + bytes;
  partition_details = m.partition_details ++ details;
}

plus_nothing : (a : ℕ) → a ≡ a + 0
plus_nothing a = omega arith

with_plan-nothing : (m : CompactionRunMetrics) → m ≡ with_plan 0 0 0 [] m
with_plan-nothing m = λ i. record m {
  files_before = plus_nothing m.files_before i;
  files_after = plus_nothing m.files_after i;
  bytes_before = plus_nothing m.bytes_before i;
  bytes_after = plus_nothing m.bytes_after i;
  partition_details = sym (append-nil m.partition_details) i;
}

plus_plus : (a b c : ℕ) → (a + b) + c ≡ a + (b + c)
plus_plus a b c = omega arith

with_plan-add_planned :
    (p : PartitionStats) (n files estimated bytes : ℕ) (details : List Detail)
    (m : CompactionRunMetrics)
    → with_plan files estimated bytes details (add_planned p n m)
      ≡ with_plan
          (file_count p + files)
          (n + estimated)
          (total_bytes p + bytes)
          (plan_of p n ∷ details)
          m
with_plan-add_planned p n files estimated bytes details m = λ i. record m {
  files_before = plus_plus m.files_before (file_count p) files i;
  files_after = plus_plus m.files_after n estimated i;
  bytes_before = plus_plus m.bytes_before (total_bytes p) bytes i;
  bytes_after = plus_plus m.bytes_after (total_bytes p) bytes i;
  partition_details = append_assoc m.partition_details (plan_of p n ∷ []) details i;
}

-- What a plan adds to the metrics, and that it changes nothing else.
pub record Planned (config : Config) (ps : List PartitionStats) (m m' : CompactionRunMetrics)
    : Type 0 where
  pub estimates : List ℕ
  pub estimates_ok : Estimates config ps estimates
  pub metrics_ok :
      m' ≡ with_plan (count_files ps) (sum estimates) (count_bytes ps) (plans ps estimates) m

module _ {W : Type 0} (env : World W) (config : Config) where
  -- The loop over the partitions adds to the metrics the files and bytes that they have, the files
  -- that the estimate gives for them and an entry for each.
  pub plan_partitions-Planned :
      (ps : List PartitionStats) (s s' : Run W)
      → plan_partitions env config ps s ≡ (ok tt, s')
      → Planned config ps s.metrics s'.metrics × (s'.world ≡ s.world)
  unfolding plan_partitions
  plan_partitions-Planned [] s s' h = (
    record {
      estimates = [];
      estimates_ok = none_left;
      metrics_ok = ap (λ r. r.1.metrics) (sym h) ∙ with_plan-nothing s.metrics;
    },
    ap (λ r. r.1.world) (sym h),
  )
  plan_partitions-Planned (p ∷ ps) s s' h =
      let (n, s1, sized, rest) =
        bind_inv
          (lift (estimate_output_file_count (pos (total_bytes p)) config.target_file_size_bytes) s)
          h in
      let (planned_rest, world) =
        plan_partitions-Planned ps (record s1 { metrics = add_planned p n s1.metrics }) s' rest in
      let same : s1 ≡ s = ap (λ r. r.1) (sym sized) in
      (
        record {
          estimates = n ∷ planned_rest.estimates;
          estimates_ok = one_more (ap (λ r. r.0) sized) planned_rest.estimates_ok;
          metrics_ok =
              planned_rest.metrics_ok
              ∙ with_plan-add_planned p n (count_files ps) (sum planned_rest.estimates)
                  (count_bytes ps) (plans ps planned_rest.estimates) s1.metrics
              ∙ ap
                  (λ x.
                    with_plan (file_count p + count_files ps) (n + sum planned_rest.estimates)
                      (total_bytes p + count_bytes ps)
                      (plan_of p n ∷ plans ps planned_rest.estimates) x.metrics)
                  same;
        },
        world ∙ ap (λ x. x.world) same,
      )
