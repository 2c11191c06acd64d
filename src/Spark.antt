-- ===== src/Spark.antt =====
-- Spark and Delta, as the program calls them. Each call returns or raises, and leaves the world changed.
use data_lakehouse.Base.{ℕ, Bool, List, Text}
use data_lakehouse.Config.{Config}
use data_lakehouse.Exec.{Exec}

pub record Spark (W : Type 0) : Type 0 where
  -- `SparkSession.builder. … .getOrCreate()`, with the settings that it is given.
  pub get_or_create : Config → Exec W (Unit {0})
  pub stop : Exec W (Unit {0})
  -- `spark.sql(query)`
  pub sql : Text → Exec W (Unit {0})
  -- `spark.read.format("delta").load(path).where(condition)`, and `rdd.isEmpty()` of that
  pub reads_nothing : Text → Text → Exec W Bool
  -- The same rows, after `repartition(n).sortWithinPartitions(*columns)`, written to the path in mode
  -- "overwrite" with the option `replaceWhere` set to the condition.
  pub overwrite : Text → Text → ℕ → List Text → Exec W (Unit {0})
