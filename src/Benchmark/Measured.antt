-- ===== src/Benchmark/Measured.antt =====
-- src/benchmark/benchmark_queries.py: what a run that was measured holds.
use mathlib.Core.Path.{subst}
use data_lakehouse.Base.{
  ℕ, ◌≤◌, ◌≡◌, refl, ap, Bool, true, false, ◌==◌, List, [], ◌∷◌, ◌++◌, map, Text, codes, All,
  if◌then◌else◌, arith,
}
use data_lakehouse.Errors.{Exc, Result, ok, raise}
use data_lakehouse.Exec.{bind_inv, throw, Outcome, returned}
use data_lakehouse.Config.{Config}
use data_lakehouse.Codec.{Codec}
use data_lakehouse.Metrics.Sizes.{format_bytes_mb}
use data_lakehouse.Benchmark.{QueryBenchmarkResult, BenchmarkRun}
use data_lakehouse.Benchmark.Execution.{
  Engine, Meter, query_names, timed, measure_run, count_parquet_files, run_each, run_queries,
  measure_parquet_inventory, execute_benchmark, no_files,
}

-- The results are those of the queries with these names, in order, all with that number of files and that size.
pub record AreOf (names : List Text) (files size_mb : ℕ) (rs : List QueryBenchmarkResult)
    : Type 0 where
  pub named : map (λ q. q.query_name) rs ≡ names
  pub counted : All (λ q. (q.input_file_count ≡ files) × (q.total_data_size_mb ≡ size_mb)) rs

-- What a run holds that `execute_benchmark` returns.
pub record IsMeasured (config : Config) (engine : Text) (run : BenchmarkRun) : Type 0 where
  pub has_files : 1 ≤ run.input_file_count
  pub of_table : (run.table_path ≡ config.delta_table_path) × (run.engine ≡ engine)
  pub results : List QueryBenchmarkResult
  pub inventory : QueryBenchmarkResult
  pub are_of : AreOf query_names run.input_file_count run.total_data_size_mb results
  pub queries_lem : run.queries ≡ results ++ inventory ∷ []
  pub inventory_name : inventory.query_name ≡ codes "parquet_file_inventory"

positive : (n : ℕ) → (n == 0) ≡ false → 1 ≤ n
positive n h = ground arith

not_returned :
    {A W : Type 0} {e : Exc} {b : A} {w s : W} → ◌≡◌ {A = Result A × W} (raise e, w) (ok b, s) → ⊥
not_returned h = cc (ap (λ r. r.0) h)

module _ {W : Type 0} (meter : Meter W) (codec : Codec) (engine : Engine W) where
  run_each-AreOf :
      (files size_mb : ℕ) (names : List Text) (w : W) {rs : List QueryBenchmarkResult} {s : W}
      → run_each meter codec engine files size_mb names w ≡ (ok rs, s)
      → AreOf names files size_mb rs
  unfolding run_each
  run_each-AreOf files size_mb [] w h = rw (← returned h) (record { named = refl; counted = tt })
  run_each-AreOf files size_mb (name ∷ names) w h =
      let (t, w1, e1, h1) = bind_inv (timed meter codec (engine.query name) w) h in
      let (rest, w2, e2, h2) = bind_inv (run_each meter codec engine files size_mb names w1) h1 in
      let are = run_each-AreOf files size_mb names w1 e2 in
      rw (← returned h2)
        (record { named = ap (◌∷◌ name) are.named; counted = ((refl, refl), are.counted) })

  run_queries-AreOf :
      (files size : ℕ) (w : W) {rs : List QueryBenchmarkResult} {s : W}
      → run_queries meter codec engine files size w ≡ (ok rs, s)
      → AreOf query_names files (format_bytes_mb size) rs
  unfolding run_queries
  run_queries-AreOf files size w h =
      let (opened, w1, e1, h1) = bind_inv (engine.connect w) h in
      let (results, w2, e2, h2) =
        bind_inv (run_each meter codec engine files (format_bytes_mb size) query_names w1) h1 in
      let (closed, w3, e3, h3) = bind_inv (engine.close w2) h2 in
      rw (← returned h3) (run_each-AreOf files (format_bytes_mb size) query_names w1 e2)

  inventory-named :
      (config : Config) (w : W) {q : QueryBenchmarkResult} {s : W}
      → measure_parquet_inventory meter codec config w ≡ (ok q, s)
      → q.query_name ≡ codes "parquet_file_inventory"
  unfolding measure_parquet_inventory
  inventory-named config w h =
      let (t, w1, e1, h1) =
        bind_inv (timed meter codec (count_parquet_files meter codec config) w) h in
      rw (← returned h1) refl

  measured :
      (config : Config) (counts : ℕ × ℕ) (w : W) {run : BenchmarkRun} {s : W}
      → (counts.0 == 0) ≡ false
      → measure_run meter codec config engine counts w ≡ (ok run, s)
      → IsMeasured config engine.name run
  unfolding measure_run
  measured config counts w some h =
      let (inventory, w1, e1, h1) = bind_inv (measure_parquet_inventory meter codec config w) h in
      let (results, w2, e2, h2) =
        bind_inv (run_queries meter codec engine counts.0 counts.1 w1) h1 in
      subst (Outcome (λ run w. IsMeasured config engine.name run) (λ w. Unit {0})) h2 (record {
        has_files = positive counts.0 some;
        of_table = (refl, refl);
        results = results;
        inventory = inventory;
        are_of = run_queries-AreOf counts.0 counts.1 w1 e2;
        queries_lem = refl;
        inventory_name = inventory-named config w e1;
      })

  when_measured :
      (config : Config) (counts : ℕ × ℕ) (w : W) (b : Bool) {run : BenchmarkRun} {s : W}
      → (counts.0 == 0) ≡ b
      → (if b then throw (no_files config) else measure_run meter codec config engine counts) w
        ≡ (ok run, s)
      → IsMeasured config engine.name run
  when_measured config counts w true e h = absurd (not_returned h)
  when_measured config counts w false e h = measured config counts w e h

  -- A run that is returned is of a table with files. It holds the results of all queries, in their order and
  -- with the files and the size of the run, and then that of the inventory.
  pub execute_benchmark-IsMeasured :
      (config : Config) (w : W) {run : BenchmarkRun} {s : W}
      → execute_benchmark meter codec config engine w ≡ (ok run, s)
      → IsMeasured config engine.name run
  unfolding execute_benchmark
  execute_benchmark-IsMeasured config w h =
      let (counts, w1, e1, h1) = bind_inv (count_parquet_files meter codec config w) h in
      when_measured config counts w1 (counts.0 == 0) refl h1
