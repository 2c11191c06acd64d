-- ===== src/Tests/Comparing.antt =====
-- The theorems on the benchmark, with an engine that answers 3 rows and a history of one run.
use data_lakehouse.Base.{ℕ, pos, Option, none, some, List, [], ◌∷◌, ◌++◌, Text, codes}
use data_lakehouse.Errors.{ok}
use data_lakehouse.Benchmark.{
  BenchmarkRun, QueryBenchmarkResult, resolve_phase, find_comparison_pair,
}
use data_lakehouse.Benchmark.Execution.{Engine, Meter, Records}
use data_lakehouse.Benchmark.Compared.{
  Judged, Compared, Returns, resolve_phase-Judged, resolve_phase-Compared,
}
use data_lakehouse.Tests.World.{codec}
use data_lakehouse.Tests.Fixtures.{pages}

-- The runs of the file, and the pair of the last report.
abbrev Desk : Type 0
Desk = List BenchmarkRun × Option (Option BenchmarkRun × Option BenchmarkRun)

abbrev meter : Meter Desk
meter = record {
  clock = λ w. (pos 0, w);
  perf_counter = λ w. (7, w);
  new_id = λ w. (codes "0a1b2c", w);
  listing = record { key_count = λ b p w. (ok 1, w); paginate = λ b p w. (ok pages, w) };
}

abbrev engine : Engine Desk
engine = record {
  name = codes "duckdb";
  connect = λ w. (ok tt, w);
  query = λ name w. (ok 3, w);
  close = λ w. (ok tt, w);
}

abbrev earlier_run : BenchmarkRun
earlier_run = record {
  benchmark_id = codes "b1";
  phase = codes "before";
  timestamp = codes "2026-06-11T10:00:00Z";
  engine = codes "duckdb";
  input_file_count = 87;
  total_data_size_mb = 1200;
  table_path = codes "s3a://lakehouse/raw/events";
  queries = [];
}

abbrev records : Records meter codec
records = record {
  load_benchmark_runs = λ w. (ok w.0, w);
  save_benchmark_run = λ run w. (ok tt, (w.0 ++ run ∷ [], w.1));
  generate_markdown_report = λ before after w. (ok tt, (w.0, some (before, after)));
}

abbrev result : Text → ℕ → QueryBenchmarkResult
result name rows = record {
  query_name = name;
  runtime_seconds = 0;
  input_file_count = 3;
  total_data_size_mb = 0;
  timestamp = codes "a0";
  row_count = rows;
}

-- The run that is measured.
abbrev measured : BenchmarkRun
measured = record {
  benchmark_id = codes "0a1b2c";
  phase = codes "after";
  timestamp = codes "a0";
  engine = codes "duckdb";
  input_file_count = 3;
  total_data_size_mb = 0;
  table_path = codes "s3a://lakehouse/raw/events";
  queries =
      result (codes "count_by_event_type") 3
      ∷ result (codes "filter_by_region") 3
      ∷ result (codes "aggregate_by_region_date") 3
      ∷ result (codes "count_total_records") 3
      ∷ result (codes "parquet_file_inventory") 3
      ∷ [];
}

resolve_phase-Judged_example :
    Returns
      (Judged (earlier_run ∷ []) measured)
      (resolve_phase measured (codes "auto") (earlier_run ∷ []))
resolve_phase-Judged_example = resolve_phase-Judged (earlier_run ∷ []) measured

resolve_phase-Compared_example :
    Returns
      (λ p.
        let r = record measured { phase = p } in
        Returns (Compared (earlier_run ∷ r ∷ []) r) (find_comparison_pair (earlier_run ∷ r ∷ []) r))
      (resolve_phase measured (codes "auto") (earlier_run ∷ []))
resolve_phase-Compared_example = resolve_phase-Compared (earlier_run ∷ []) measured (codes "auto")

-- One run in the file, and no report yet.
abbrev desk : Desk
desk = (earlier_run ∷ [], none)
