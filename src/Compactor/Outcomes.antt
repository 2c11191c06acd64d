-- ===== src/Compactor/Outcomes.antt =====
-- How the rewriting of a partition can end.
use data_lakehouse.Base.{
  ◌≡◌, Bool, true, false, ◌||◌, ◌==◌, Text, codes, if◌then◌else◌, ℤ, pos, ◌≤ℤ◌, Bool-cases, inl,
  inr,
}
use data_lakehouse.Errors.{
  Exc, Result, ok, raise, empty_partition, spark_compaction, value_error, json_decode_error,
  table_not_found, lock_acquisition, type_error, client_error, other,
}
use data_lakehouse.Exec.{Exec, throw, by_outcome}
use data_lakehouse.Config.{Config}
use data_lakehouse.Scanner.{PartitionStats, partition_id, file_count, total_bytes}
use data_lakehouse.Scanner.Scan.{Listing}
use data_lakehouse.Sizing.{estimate_total}
use data_lakehouse.Spark.{Spark}
use data_lakehouse.Metrics.{PartitionCompactionMetrics}
use data_lakehouse.Compactor.{
  rethrown, validate_partition_has_data, compact_with_delta_optimize,
  compact_with_zorder_inspired_clustering, rewrite, compact_partition,
}

-- The metrics are about this partition, as it was.
abbrev pub IsAbout : PartitionStats → PartitionCompactionMetrics → Type 0
IsAbout stats m =
    (m.partition_id ≡ partition_id stats)
    × (m.files_before ≡ file_count stats)
    × (m.bytes_before ≡ total_bytes stats)

-- The ends of a rewriting: metrics, no data, a failure of Spark, or a target size that is not positive.
pub data Outcome (config : Config) (stats : PartitionStats)
    : Result PartitionCompactionMetrics → Type 0 where
  rewritten : (m : PartitionCompactionMetrics) → IsAbout stats m → Outcome config stats (ok m)
  no_data : (text : Text) → Outcome config stats (raise (empty_partition text))
  spark_failed :
      (cause : Exc) → Outcome config stats (raise (spark_compaction (partition_id stats) cause))
  no_target :
      config.target_file_size_bytes ≤ℤ pos 0
      → Outcome config stats (raise (value_error (codes "target_file_size_bytes must be positive")))

-- A result that is about this partition, if it is one.
abbrev Good : PartitionStats → Result PartitionCompactionMetrics → Type 0
Good stats (ok m) = IsAbout stats m
Good stats (raise exc) = Unit

module _ {W : Type 0} (stats : PartitionStats) where
  bind-Good :
      {A : Type 0} (f : A → Exec W PartitionCompactionMetrics) (r : Result A × W)
      → ((a : A) (w : W) → Good stats (f a w).0)
      → Good stats (by_outcome f throw r).0
  bind-Good f (ok a, w) h = h a w
  bind-Good f (raise exc, w) h = tt

  by_outcome-Good :
      (h : Exc → Exec W PartitionCompactionMetrics) (r : Result PartitionCompactionMetrics × W)
      → Good stats r.0
      → ((exc : Exc) (w : W) → Good stats (h exc w).0)
      → Good stats (by_outcome (λ a w. (ok a, w)) h r).0
  by_outcome-Good h (ok a, w) good hh = good
  by_outcome-Good h (raise exc, w) good hh = hh exc w

  if-Good :
      (b : Bool) (m n : Exec W PartitionCompactionMetrics) (w : W)
      → Good stats (m w).0
      → Good stats (n w).0
      → Good stats ((if b then m else n) w).0
  if-Good true m n w hm hn = hm
  if-Good false m n w hm hn = hn

module _ {W : Type 0} (timer : W → ℤ × W) (listing : Listing W) (spark : Spark W) (config : Config)
    (stats : PartitionStats) where
  optimize-Good :
      (w : W) → Good stats (compact_with_delta_optimize timer listing spark config stats w).0
  unfolding compact_with_delta_optimize
  optimize-Good w = search (bind-Good stats)

  clustering-Good :
      (w : W)
      → Good stats (compact_with_zorder_inspired_clustering timer listing spark config stats w).0
  unfolding compact_with_zorder_inspired_clustering
  clustering-Good w = search (bind-Good stats, if-Good stats) depth 12

  rewrite-Good : (w : W) → Good stats (rewrite timer listing spark config stats w).0
  unfolding rewrite
  rewrite-Good w = search (by_outcome-Good stats, if-Good stats, optimize-Good, clustering-Good)

  rethrown-Outcome : (exc : Exc) → Outcome config stats (raise (rethrown (partition_id stats) exc))
  rethrown-Outcome (empty_partition text) = no_data text
  rethrown-Outcome (table_not_found m) = spark_failed _
  rethrown-Outcome (lock_acquisition p h) = spark_failed _
  rethrown-Outcome (spark_compaction p e) = spark_failed _
  rethrown-Outcome (value_error m) = spark_failed _
  rethrown-Outcome (json_decode_error m) = spark_failed _
  rethrown-Outcome (type_error m) = spark_failed _
  rethrown-Outcome (client_error c m) = spark_failed _
  rethrown-Outcome (other m) = spark_failed _

  attempt-Outcome :
      (r : Result PartitionCompactionMetrics × W)
      → Good stats r.0
      → Outcome config stats
          (by_outcome (λ a w. (ok a, w)) (λ exc. throw (rethrown (partition_id stats) exc)) r).0
  attempt-Outcome (ok m, w) good = rewritten m good
  attempt-Outcome (raise exc, w) good = rethrown-Outcome exc

  -- Whatever Spark and the listing do, the rewriting of a partition ends in one of four ways: with
  -- metrics that are about this partition as it was, with the exception for an empty partition, with
  -- that for a failure of Spark, which names the partition, or with the complaint about the target
  -- size, and then this is not positive.
  pub compact_partition-Outcome :
      (w : W) → Outcome config stats (compact_partition timer listing spark config stats w).0
  unfolding compact_partition validate_partition_has_data
  compact_partition-Outcome w =
      elim (Bool-cases (file_count stats == 0 || total_bytes stats == 0)) [
        | inl e ↦ rw e (no_data _)
        | inr e ↦
            rw e (elim (estimate_total (pos (total_bytes stats)) config.target_file_size_bytes) [
              | inl (n, sized, some) ↦ rw sized (attempt-Outcome _ (rewrite-Good w))
              | inr (has_data, target, refused) ↦ rw refused (no_target target)
            ])
      ]
