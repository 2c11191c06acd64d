-- ===== src/Streaming/Writing.antt =====
-- src/streaming/spark_streaming_job.py: what is done with a batch.
use data_lakehouse.Base.{ℕ, List, [], ◌∷◌, Text, codes, ltb, if◌then◌else◌, length, map, ℤ, Option}
use data_lakehouse.Base.Strings.Affix.{is_empty}
use data_lakehouse.Base.Strings.Replace.{replace, zulu, offset}
use data_lakehouse.Time.{aware}
use data_lakehouse.Codec.{Codec}
use data_lakehouse.Exec.{Exec, pure, ◌>>=◌}
use data_lakehouse.Json.{Json}
use data_lakehouse.Quality.{compute_quality_metrics}
use data_lakehouse.Quality.Report.{Files, write_quality_metrics}
use data_lakehouse.Streaming.{Functions}
use data_lakehouse.Streaming.Batch.{ValidRow, QuarantineRow, classify_batch}

-- A row of one of the two tables.
pub data TableRow : Type 0 where
  event : ValidRow → TableRow
  quarantined : QuarantineRow → TableRow

-- What the job uses of the world: a query of Spark over the batch, which has a time of its own; the appending
-- of rows to a table, with the columns that it is partitioned by; and `datetime.now(UTC)`.
pub record Job (W : Type 0) : Type 0 where
  pub query : Exec W ℤ
  pub append : Text → List Text → List TableRow → Exec W (Unit {0})
  pub now : Exec W ℤ

-- The environment's settings.
pub record Paths : Type 0 where
  pub delta_path : Text
  pub quarantine_path : Text
  pub quality_metrics_path : Text

module _ {W : Type 0} (job : Job W) (files : Files W) (spark : Functions) (codec : Codec)
    (json : Json) (paths : Paths) where
  abbrev pub utc_text : ℤ → Text
  utc_text t = replace offset zulu (codec.isoformat (aware t))

  -- `df.count()`
  abbrev pub count : {A : Type 0} → (ℤ → List A) → Exec W ℕ
  count df = do t ← job.query; pure (length (df t))

  abbrev pub save :
      {A : Type 0} → (A → TableRow) → (ℤ → List A) → List Text → Text → Exec W (Unit {0})
  save row df columns path = do t ← job.query; job.append path columns (map row (df t))

  -- `if count > 0`
  abbrev pub if_any : ℕ → Exec W (Unit {0}) → Exec W (Unit {0})
  if_any n m = if ltb 0 n then m else pure tt

  abbrev pub write_metrics : ℕ → ℕ → ℕ → Exec W (Unit {0})
  write_metrics valid_count bad_count batch_id = do
    t ← job.now
    write_quality_metrics files json
        (compute_quality_metrics valid_count bad_count batch_id (utc_text t))
        paths.quality_metrics_path

  -- The two writes, by the counts.
  abbrev pub write_valid : List (Option Text) → ℕ → Exec W (Unit {0})
  write_valid batch n = if_any n (
      save event (λ t. (classify_batch spark batch t).0)
        (codes "event_date" ∷ codes "event_hour" ∷ []) paths.delta_path)

  abbrev pub write_quarantine : List (Option Text) → ℕ → Exec W (Unit {0})
  write_quarantine batch n = if_any n (
      save quarantined (λ t. (classify_batch spark batch t).1) (codes "quarantine_date" ∷ [])
        paths.quarantine_path)

  -- The batch, after the test that it is not empty.
  unfoldable pub process_rows : List (Option Text) → ℕ → Exec W (Unit {0})
  unfolding classify_batch write_quality_metrics replace
  process_rows batch batch_id = do
    valid_count ← count (λ t. (classify_batch spark batch t).0)
    bad_count ← count (λ t. (classify_batch spark batch t).1)
    _ ← write_valid batch valid_count
    _ ← write_quarantine batch bad_count
    write_metrics valid_count bad_count batch_id

  unfoldable pub process_batch : List (Option Text) → ℕ → Exec W (Unit {0})
  unfolding process_rows
  process_batch batch batch_id = do
    _ ← job.query
    if is_empty batch then pure tt else process_rows batch batch_id
