-- ===== src/Compactor.antt =====
-- src/compactor/delta_compactor.py: how one partition is rewritten. Logging is left out.
pub mod Counts
pub mod Outcomes
use data_lakehouse.Base.{
  ℕ, ◌-◌, Bool, true, false, ◌||◌, Option, none, some, List, [], ◌∷◌, ◌++◌, ◌==◌, Text, codes,
  text_eq, if◌then◌else◌, ℤ, pos, ◌-ℤ◌,
}
use data_lakehouse.Base.Strings.Decimal.{decimal}
use data_lakehouse.Errors.{Exc, empty_partition, spark_compaction}
use data_lakehouse.Exec.{Exec, pure, throw, lift, try_else, ◌>>=◌, ◌>>◌}
use data_lakehouse.Config.{Config}
use data_lakehouse.Scanner.{PartitionStats, partition_id, file_count, total_bytes}
use data_lakehouse.Scanner.Scan.{Listing, scan_partitions}
use data_lakehouse.Sizing.{estimate_output_file_count}
use data_lakehouse.Spark.{Spark}
use data_lakehouse.Metrics.{Method, delta_optimize, zorder_inspired, PartitionCompactionMetrics}

abbrev pub cluster_columns : List Text
cluster_columns = codes "user_id" ∷ codes "account_id" ∷ codes "event_timestamp" ∷ []

-- `', '.join(texts)`
abbrev pub join_comma : List Text → Text
join_comma [] = []
join_comma (t ∷ []) = t
join_comma (t ∷ u ∷ ts) = t ++ (codes ", " ++ join_comma (u ∷ ts))

unfoldable pub replace_where_clause : PartitionStats → Text
replace_where_clause stats =
    codes "event_date = '"
    ++ (stats.event_date ++ (codes "' AND event_hour = " ++ decimal stats.event_hour))

-- The query of `compact_with_delta_optimize`.
unfoldable pub optimize_query : Config → PartitionStats → Text
optimize_query config stats =
    codes "\n        OPTIMIZE delta.`"
    ++ (config.delta_table_path
        ++ (codes "`\n        WHERE "
            ++ (replace_where_clause stats
                ++ (codes "\n        ZORDER BY ("
                    ++ (join_comma cluster_columns ++ codes ")\n        ")))))

-- The loop of `_count_partition_files`.
unfoldable pub counts_in : Text → List PartitionStats → ℕ × ℕ
counts_in id [] = (0, 0)
counts_in id (p ∷ ps) =
    let rest = counts_in id ps in
    if text_eq (partition_id p) id then (file_count p, total_bytes p) else rest

abbrev pub partition_metrics : PartitionStats → Method → ℤ → ℕ × ℕ → PartitionCompactionMetrics
partition_metrics stats method duration (after_count, after_bytes) = record {
  partition_id = partition_id stats;
  files_before = file_count stats;
  files_after = after_count;
  bytes_before = total_bytes stats;
  bytes_after = after_bytes;
  duration = duration;
  method = method;
}

-- The message of the exceptions for a partition, before what is said of it.
abbrev pub about_partition : PartitionStats → Text → Text
about_partition stats said = codes "Partition " ++ (partition_id stats ++ said)

-- The two handlers of `compact_partition`.
abbrev pub rethrown : Text → Exc → Exc
rethrown id (empty_partition text) = empty_partition text
rethrown id e = spark_compaction id e

-- `timer` is `time.perf_counter()`, in microseconds.
module _ {W : Type 0} (timer : W → ℤ × W) (listing : Listing W) (spark : Spark W)
    (config : Config) where
  abbrev pub read_timer : Exec W ℤ
  read_timer w = let (t, w') = timer w in pure t w'

  unfoldable pub create_spark_session : Exec W (Unit {0})
  create_spark_session =
      try_else (spark.get_or_create config) pure
        (λ exc. throw (spark_compaction (codes "session_init") exc))

  unfoldable pub validate_partition_has_data : PartitionStats → Exec W (Unit {0})
  validate_partition_has_data stats =
      if file_count stats == 0 || total_bytes stats == 0
      then throw (empty_partition (about_partition stats (codes " has no data files to compact")))
      else pure tt

  unfoldable pub count_partition_files : PartitionStats → Exec W (ℕ × ℕ)
  count_partition_files stats = do
    partitions ← scan_partitions listing config
    pure (counts_in (partition_id stats) partitions)

  unfoldable pub compact_with_delta_optimize : PartitionStats → Exec W PartitionCompactionMetrics
  compact_with_delta_optimize stats = do
    started ← read_timer
    spark.sql (optimize_query config stats)
    stopped ← read_timer
    found ← count_partition_files stats
    pure (partition_metrics stats delta_optimize (stopped -ℤ started) found)

  unfoldable pub compact_with_zorder_inspired_clustering :
      PartitionStats → Exec W PartitionCompactionMetrics
  compact_with_zorder_inspired_clustering stats = do
    started ← read_timer
    let replace_where = replace_where_clause stats
    num_output_files ←
        lift (estimate_output_file_count (pos (total_bytes stats)) config.target_file_size_bytes)
    no_rows ← spark.reads_nothing config.delta_table_path replace_where
    if no_rows
        then throw
            (empty_partition (about_partition stats (codes " returned no rows from Delta read")))
        else do
          spark.overwrite config.delta_table_path replace_where num_output_files cluster_columns
          stopped ← read_timer
          found ← count_partition_files stats
          pure (partition_metrics stats zorder_inspired (stopped -ℤ started) found)

  -- The inner `try`, which turns to the second way if the first fails.
  unfoldable pub rewrite : PartitionStats → Exec W PartitionCompactionMetrics
  rewrite stats =
      if config.use_delta_optimize
      then try_else (compact_with_delta_optimize stats) pure
          (λ exc. compact_with_zorder_inspired_clustering stats)
      else compact_with_zorder_inspired_clustering stats

  unfoldable pub compact_partition : PartitionStats → Exec W PartitionCompactionMetrics
  compact_partition stats = do
    validate_partition_has_data stats
    num_output_files ←
        lift (estimate_output_file_count (pos (total_bytes stats)) config.target_file_size_bytes)
    try_else (rewrite stats) pure (λ exc. throw (rethrown (partition_id stats) exc))
