-- ===== src/Benchmark/Whole.antt =====
-- src/benchmark/benchmark_queries.py: what `main` measures, keeps and compares.
use data_lakehouse.Base.{◌≡◌, Option, some, List, [], ◌∷◌, ◌++◌, Text, codes}
use data_lakehouse.Errors.{ok}
use data_lakehouse.Config.{Config}
use data_lakehouse.Codec.{Codec}
use data_lakehouse.Benchmark.{BenchmarkRun}
use data_lakehouse.Benchmark.Execution.{Engine, Meter, Records, execute_benchmark}
use data_lakehouse.Benchmark.Compared.{Compared, Judged, IsResolved}
use data_lakehouse.Benchmark.Measured.{IsMeasured}

module _ {W : Type 0} (meter : Meter W) (codec : Codec) (records : Records meter codec)
    (config : Config) (engine : Engine W) (book : W → List BenchmarkRun)
    (reported : W → Option (Option BenchmarkRun × Option BenchmarkRun)) where
  -- What `main` has done between `w` and `s`: the run that it has measured is in the file,
  -- with the phase that was asked for or found out, and it has reported what is to be compared.
  pub record Recorded (phase : Text) (w s : W) : Type 0 where
    pub loaded : W
    pub load_ok : records.load_benchmark_runs w ≡ (ok (book w), loaded)
    pub measured : BenchmarkRun
    pub after : W
    pub execute_ok : execute_benchmark meter codec config engine loaded ≡ (ok measured, after)
    pub measured_ok : IsMeasured config engine.name measured
    pub resolved : Text
    pub asked_ok : IsResolved phase → resolved ≡ phase
    pub auto_ok : phase ≡ codes "auto" → Judged (book w) measured resolved
    pub book_ok : book s ≡ book w ++ record measured { phase = resolved } ∷ []
    pub pair : Option BenchmarkRun × Option BenchmarkRun
    pub reported_ok : reported s ≡ some pair
    pub compared_ok : Compared (book s) (record measured { phase = resolved }) pair
