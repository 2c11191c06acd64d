-- ===== src/Benchmark/Book.antt =====
-- src/benchmark/benchmark_queries.py: the file of the runs and the report, as `main` uses them.
use data_lakehouse.Base.{ℕ, ◌≡◌, Option, some, List, [], ◌∷◌, ◌++◌, Text}
use data_lakehouse.Errors.{ok}
use data_lakehouse.Exec.{Exec}
use data_lakehouse.Config.{Config}
use data_lakehouse.Codec.{Codec}
use data_lakehouse.Scanner.Scan.{scan_partitions}
use data_lakehouse.Metrics.Sizes.{format_bytes_mb}
use data_lakehouse.Daemon.Kept.{Kept, bind-look, if-look}
use data_lakehouse.Benchmark.{BenchmarkRun}
use data_lakehouse.Benchmark.Execution.{
  Engine, Meter, Records, utc_now, count_parquet_files, reading, timed, run_each, run_queries,
  query_names, measure_parquet_inventory, measure_run, execute_benchmark,
}

-- The clocks, the listing and the engine leave what `look` shows.
pub record Measures {W V : Type 0} (look : W → V) (meter : Meter W) (engine : Engine W)
    : Type 0 where
  pub clock_kept : (v : V) (w : W) → look w ≡ v → look (meter.clock w).1 ≡ v
  pub perf_counter_kept : (v : V) (w : W) → look w ≡ v → look (meter.perf_counter w).1 ≡ v
  pub new_id_kept : (v : V) (w : W) → look w ≡ v → look (meter.new_id w).1 ≡ v
  pub paginate_kept : (b p : Text) → Kept look (meter.listing.paginate b p)
  pub connect_kept : Kept look engine.connect
  pub query_kept : (name : Text) → Kept look (engine.query name)
  pub close_kept : Kept look engine.close

-- `book` shows the runs of the file, and `reported` the pair of the last report. What is loaded is
-- what the file holds, a run is saved at its end, and the report leaves it.
pub record Books {W : Type 0} {meter : Meter W} {codec : Codec} (records : Records meter codec)
    (book : W → List BenchmarkRun)
    (reported : W → Option (Option BenchmarkRun × Option BenchmarkRun)) : Type 0 where
  pub load_ok :
      (w w' : W) (history : List BenchmarkRun)
      → records.load_benchmark_runs w ≡ (ok history, w')
      → (history ≡ book w) × (book w' ≡ book w)
  pub save_ok :
      (run : BenchmarkRun) (w w' : W)
      → records.save_benchmark_run run w ≡ (ok tt, w')
      → book w' ≡ book w ++ run ∷ []
  pub report_ok :
      (before after : Option BenchmarkRun) (w w' : W)
      → records.generate_markdown_report before after w ≡ (ok tt, w')
      → (book w' ≡ book w) × (reported w' ≡ some (before, after))

module _ {W V : Type 0} (look : W → V) (v : V) (meter : Meter W) (codec : Codec) (engine : Engine W)
    (measures : Measures look meter engine) where
  count-look :
      (config : Config) (w : W) → look w ≡ v → look (count_parquet_files meter codec config w).1 ≡ v
  unfolding count_parquet_files scan_partitions
  count-look config w h = search (bind-look look v, measures.paginate_kept, h)

  timed-look :
      {A : Type 0} (m : Exec W A) (w : W)
      → ((w : W) → look w ≡ v → look (m w).1 ≡ v)
      → look w ≡ v
      → look (timed meter codec m w).1 ≡ v
  unfolding timed utc_now reading
  timed-look m w kept h =
      search (bind-look look v, measures.clock_kept, measures.perf_counter_kept, kept, h) depth 12

  run_each-look :
      (files size : ℕ) (names : List Text) (w : W)
      → look w ≡ v
      → look (run_each meter codec engine files size names w).1 ≡ v
  unfolding run_each
  run_each-look files size [] w h = h
  run_each-look files size (name ∷ names) w h = search (
    bind-look look v,
    timed-look (engine.query name),
    measures.query_kept name v,
    run_each-look files size names,
    h,
  )

  run_queries-look :
      (files size : ℕ) (w : W)
      → look w ≡ v
      → look (run_queries meter codec engine files size w).1 ≡ v
  unfolding run_queries
  run_queries-look files size w h = search (
    bind-look look v,
    measures.connect_kept,
    run_each-look files (format_bytes_mb size) query_names,
    measures.close_kept,
    h,
  )

  inventory-look :
      (config : Config) (w : W)
      → look w ≡ v
      → look (measure_parquet_inventory meter codec config w).1 ≡ v
  unfolding measure_parquet_inventory
  inventory-look config w h =
      search (
        bind-look look v,
        timed-look (count_parquet_files meter codec config),
        count-look config,
        h,
      )

  measure_run-look :
      (config : Config) (counts : ℕ × ℕ) (w : W)
      → look w ≡ v
      → look (measure_run meter codec config engine counts w).1 ≡ v
  unfolding measure_run utc_now reading
  measure_run-look config counts w h =
      search
        (
          bind-look look v,
          inventory-look config,
          run_queries-look counts.0 counts.1,
          measures.clock_kept,
          measures.new_id_kept,
          h,
        )
        depth 12

  -- The measuring of a run leaves whatever its calls leave.
  pub execute_benchmark-look :
      (config : Config) (w : W)
      → look w ≡ v
      → look (execute_benchmark meter codec config engine w).1 ≡ v
  unfolding execute_benchmark
  execute_benchmark-look config w h =
      search (bind-look look v, if-look look v, count-look config, measure_run-look config, h)
