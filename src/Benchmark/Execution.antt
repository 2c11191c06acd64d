-- ===== src/Benchmark/Execution.antt =====
-- src/benchmark/benchmark_queries.py: the measuring of a run, and `main`. What is printed is left out.
use data_lakehouse.Base.{
  ℕ, ◌-◌, ◌==◌, Option, none, List, [], ◌∷◌, ◌++◌, map, Text, codes, if◌then◌else◌, sum, ℤ,
}
use data_lakehouse.Base.Doubles.{half_even}
use data_lakehouse.Errors.{Exc, ok, other}
use data_lakehouse.Exec.{Exec, pure, throw, lift, ◌>>=◌}
use data_lakehouse.Config.{Config}
use data_lakehouse.Codec.{Codec}
use data_lakehouse.Scanner.{file_count, total_bytes, reference}
use data_lakehouse.Scanner.Scan.{Listing, scan_partitions}
use data_lakehouse.Metrics.Sizes.{format_bytes_mb}
use data_lakehouse.Locks.{to_iso}
use data_lakehouse.Benchmark.{
  QueryBenchmarkResult, BenchmarkRun, resolve_phase, find_comparison_pair,
}

-- An engine for queries: a query is known by its name, and answers with the number of its rows.
pub record Engine (W : Type 0) : Type 0 where
  pub name : Text
  pub connect : Exec W (Unit {0})
  pub query : Text → Exec W ℕ
  pub close : Exec W (Unit {0})

-- The keys of `DUCKDB_QUERIES` and of `SPARK_QUERIES`.
abbrev pub query_names : List Text
query_names =
    codes "count_by_event_type"
    ∷ codes "filter_by_region"
    ∷ codes "aggregate_by_region_date"
    ∷ codes "count_total_records"
    ∷ []

-- `perf_counter`, in nanoseconds, never goes back.
pub record Meter (W : Type 0) : Type 0 where
  pub clock : W → ℤ × W
  pub perf_counter : W → ℕ × W
  pub new_id : W → Text × W
  pub listing : Listing W

module _ {W : Type 0} where
  unfoldable pub reading : {A : Type 0} → (W → A × W) → Exec W A
  reading f w = let (a, w') = f w in (ok a, w')

-- `round(time.perf_counter() - start, 4)`
abbrev pub elapsed : ℕ → ℕ → ℕ
elapsed start stop = half_even (stop - start) 100000

-- The run that has just been measured.
abbrev pub new_run : Config → Text → ℕ × ℕ → Text → Text → List QueryBenchmarkResult → BenchmarkRun
new_run config engine counts id ts queries = record {
  benchmark_id = id;
  phase = codes "pending";
  timestamp = ts;
  engine = engine;
  input_file_count = counts.0;
  total_data_size_mb = format_bytes_mb counts.1;
  table_path = config.delta_table_path;
  queries = queries;
}

-- The error that a table without files raises.
abbrev pub no_files : Config → Exc
no_files config = other (
    codes "No Parquet files found under "
    ++ (config.delta_table_path ++ codes ". Run `make produce` and `make stream` first."))

module _ {W : Type 0} (meter : Meter W) (codec : Codec) where
  -- `_utc_now`
  unfoldable pub utc_now : Exec W Text
  utc_now = do now ← reference meter.clock none; pure (to_iso codec now)

  unfoldable pub count_parquet_files : Config → Exec W (ℕ × ℕ)
  count_parquet_files config = do
    partitions ← scan_partitions meter.listing config
    pure (sum (map file_count partitions), sum (map total_bytes partitions))

  -- The time at which a statement begins, how long it takes, and its value.
  unfoldable pub timed : {A : Type 0} → Exec W A → Exec W (Text × ℕ × A)
  unfolding utc_now reading
  timed m = do
    ts ← utc_now
    start ← reading meter.perf_counter
    a ← m
    stop ← reading meter.perf_counter
    pure (ts, elapsed start stop, a)

  -- The loop over the queries; both engines are run alike.
  unfoldable pub run_each : Engine W → ℕ → ℕ → List Text → Exec W (List QueryBenchmarkResult)
  unfolding timed
  run_each engine files size_mb [] = pure []
  run_each engine files size_mb (name ∷ names) = do
    t ← timed (engine.query name)
    rest ← run_each engine files size_mb names
    pure (
        record {
          query_name = name;
          runtime_seconds = t.1;
          input_file_count = files;
          total_data_size_mb = size_mb;
          timestamp = t.0;
          row_count = t.2;
        }
        ∷ rest)

  -- `run_duckdb_queries` and `run_pyspark_queries`
  unfoldable pub run_queries : Engine W → ℕ → ℕ → Exec W (List QueryBenchmarkResult)
  unfolding run_each
  run_queries engine files size = do
    opened ← engine.connect
    results ← run_each engine files (format_bytes_mb size) query_names
    closed ← engine.close
    pure results

  unfoldable pub measure_parquet_inventory : Config → Exec W QueryBenchmarkResult
  unfolding timed count_parquet_files
  measure_parquet_inventory config = do
    t ← timed (count_parquet_files config)
    let counts = t.2
    pure (record {
      query_name = codes "parquet_file_inventory";
      runtime_seconds = t.1;
      input_file_count = counts.0;
      total_data_size_mb = format_bytes_mb counts.1;
      timestamp = t.0;
      row_count = counts.0;
    })

  -- What `execute_benchmark` does for a table with files, by their number and bytes.
  unfoldable pub measure_run : Config → Engine W → ℕ × ℕ → Exec W BenchmarkRun
  unfolding measure_parquet_inventory run_queries
  measure_run config engine counts = do
    inventory ← measure_parquet_inventory config
    results ← run_queries engine counts.0 counts.1
    id ← reading meter.new_id
    ts ← utc_now
    pure (new_run config engine.name counts id ts (results ++ inventory ∷ []))

  unfoldable pub execute_benchmark : Config → Engine W → Exec W BenchmarkRun
  unfolding count_parquet_files measure_run
  execute_benchmark config engine = do
    counts ← count_parquet_files config
    if counts.0 == 0 then throw (no_files config) else measure_run config engine counts

  -- The runs that are kept in a file, and the report that is written. What is printed is left out.
  pub record Records : Type 0 where
    pub load_benchmark_runs : Exec W (List BenchmarkRun)
    pub save_benchmark_run : BenchmarkRun → Exec W (Unit {0})
    pub generate_markdown_report : Option BenchmarkRun → Option BenchmarkRun → Exec W (Unit {0})

  -- `main` after its arguments are parsed.
  unfoldable pub main : Records → Config → Engine W → Text → Exec W (Unit {0})
  unfolding execute_benchmark resolve_phase find_comparison_pair
  main records config engine phase = do
    history ← records.load_benchmark_runs
    measured ← execute_benchmark config engine
    resolved ← lift (resolve_phase measured phase history)
    let run = record measured { phase = resolved }
    saved ← records.save_benchmark_run run
    pair ← lift (find_comparison_pair (history ++ run ∷ []) run)
    records.generate_markdown_report pair.0 pair.1
