-- ===== src/Tests/Running.antt =====
-- The theorems on a run, in a world where Spark fails to optimize.
use data_lakehouse.Base.{ℕ, ◌≤◌, ◌≡◌, refl, true, none, List, [], ◌∷◌, Text, codes, pos, arith}
use data_lakehouse.Errors.{ok}
use data_lakehouse.Time.{seconds}
use data_lakehouse.Scanner.{PartitionStats, partition_id}
use data_lakehouse.Locks.Lease.{take, give_back}
use data_lakehouse.Locks.Exclusion.{manager}
use data_lakehouse.Metrics.{
  Status, Detail, CompactionRunMetrics, new_metrics, mark_complete, exit_code,
}
use data_lakehouse.Daemon.{Run, run_partition, run_partitions}
use data_lakehouse.Daemon.Cycle.{run_dry_run}
use data_lakehouse.Daemon.Accounting.{Accounted, run_partitions-Accounted}
use data_lakehouse.Daemon.Locking.{locks, EndsWith, run_partition-EndsWith, run_partitions-locks}
use data_lakehouse.Daemon.Exit.{exit_code-mark_complete}
use data_lakehouse.Daemon.Untouched.{run_dry_run-look}
use data_lakehouse.Tests.World.{Bucket, peek, empty_bucket, s3-IsReliable, codec-IsLawful}
use data_lakehouse.Tests.Fixtures.{env, env-Leaves, env-Reads, optimizing, partition}

abbrev eligible : List PartitionStats
eligible = partition 9 ∷ partition 10 ∷ []

abbrev begun : CompactionRunMetrics
begun = record (new_metrics (codes "run1") (codes "table") (codes "a0")) {
  eligible_partitions = pos 2;
  partitions_scanned = 2;
}

abbrev start : Run Bucket
start = record { metrics = begun; has_spark = true; world = empty_bucket }

begun-Accounted : Accounted 2 2 begun 2
begun-Accounted = record {
  eligible_ok = refl;
  total_ok = refl;
  conflicts_ok = omega arith;
  details_ok = refl;
  scanned_ok = refl;
}

run_partitions-Accounted_example :
    let r =
      run_partitions env optimizing
        (manager optimizing (codes "a") (codes "run1"))
        (codes "run1")
        eligible
        start in
    (j : ℕ) × (j ≤ 2) × Accounted 2 2 r.1.metrics j × (r.0 ≡ ok tt → j ≡ 0)
run_partitions-Accounted_example =
    run_partitions-Accounted env optimizing (manager optimizing (codes "a") (codes "run1"))
      (codes "run1") 2 2 eligible start begun-Accounted

run_partition-EndsWith_example :
    EndsWith env peek optimizing s3-IsReliable codec-IsLawful env-Leaves
      (λ w. refl)
      (codes "a")
      (codes "run1")
      (partition_id (partition 10))
      (give_back (codes "a") (take (codes "a") (codes "run1") (seconds (pos 3600)) (pos 0) none).1)
      empty_bucket
      (run_partition env optimizing
        (manager optimizing (codes "a") (codes "run1"))
        (codes "run1")
        (partition 10)
        start)
run_partition-EndsWith_example =
    run_partition-EndsWith env peek optimizing s3-IsReliable codec-IsLawful env-Leaves (λ w. refl)
      (codes "a") (codes "run1") (partition 10) start none refl refl

run_partitions-locks_example :
    let r =
      run_partitions env optimizing
        (manager optimizing (codes "a") (codes "run1"))
        (codes "run1")
        eligible
        start in
    (r.0 ≡ ok tt)
    × ((id : Text) → locks peek optimizing r.1.world id ≡ locks peek optimizing empty_bucket id)
run_partitions-locks_example =
    run_partitions-locks env peek optimizing s3-IsReliable codec-IsLawful env-Leaves (λ w. refl)
      (codes "a") (codes "run1") eligible start ((refl, refl), ((refl, refl), tt))

-- A run in which one partition was compacted and one failed.
abbrev halved : CompactionRunMetrics
halved = record begun {
  compacted_partitions = 1;
  failed_partitions = record { partition_id = codes "p"; error = codes "e" } ∷ [];
  partition_details = Detail.planned (codes "q") 3 1 9 ∷ [];
}

halved-Accounted : Accounted 2 2 halved 0
halved-Accounted = record {
  eligible_ok = refl;
  total_ok = refl;
  conflicts_ok = omega arith;
  details_ok = refl;
  scanned_ok = refl;
}

exit_code-mark_complete_example :
    let done = mark_complete (pos 0) (pos 5) (codes "a5") halved in
    (exit_code done ≡ 0) × (done.status ≡ Status.partial_success)
exit_code-mark_complete_example =
    exit_code-mark_complete 2 2 halved (pos 0) (pos 5) (codes "a5") halved-Accounted refl refl

run_dry_run-look_example :
    locks peek optimizing (run_dry_run env optimizing none empty_bucket).1
    ≡ locks peek optimizing empty_bucket
run_dry_run-look_example =
    run_dry_run-look (locks peek optimizing) (locks peek optimizing empty_bucket) env env-Reads
      optimizing none empty_bucket refl
