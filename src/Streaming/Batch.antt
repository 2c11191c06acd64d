-- ===== src/Streaming/Batch.antt =====
-- src/streaming/spark_streaming_job.py: the rows that a batch gives to the two tables.
use data_lakehouse.Base.{ℕ, Bool, not, Option, none, some, List, Text, ℤ, keep_if, map}
use data_lakehouse.Json.{Float}
use data_lakehouse.Quality.{Reason}
use data_lakehouse.Streaming.{Event, Functions, null_through, is_null, rejection_reason_column}

-- A row of `parsed`.
pub record ParsedRow : Type 0 where
  pub json_value : Option Text
  pub data' : Option Event
  pub rejection_reason : Option Reason
  pub quarantined_at : ℤ

-- A row for the table of events.
pub record ValidRow : Type 0 where
  pub event_id : Option Text
  pub user_id : Option Text
  pub account_id : Option Text
  pub event_type : Option Text
  pub amount : Option Float
  pub event_timestamp : Option ℤ
  pub ingest_timestamp : Option ℤ
  pub region : Option Text
  pub device_type : Option Text
  pub event_date : Option ℤ
  pub event_hour : Option ℕ

-- A row for the quarantine.
pub record QuarantineRow : Type 0 where
  pub json_value : Option Text
  pub rejection_reason : Option Reason
  pub quarantined_at : ℤ
  pub event_id : Option Text
  pub user_id : Option Text
  pub event_type : Option Text
  pub quarantine_date : ℤ

-- A row of `parsed` has no reason to be rejected.
abbrev pub is_accepted : ParsedRow → Bool
is_accepted row = is_null row.rejection_reason

abbrev pub is_rejected : ParsedRow → Bool
is_rejected row = not (is_null row.rejection_reason)

-- `F.col("data.…")`
abbrev pub column : {A : Type 0} → (Event → Option A) → Option Event → Option A
column f data' = null_through f data'

module _ (spark : Functions) where
  abbrev pub optional : {A B : Type 0} → (A → B) → Option A → Option B
  optional f none = none
  optional f (some x) = some (f x)

  -- A row of the batch, by its value, in a query that runs at `now`.
  abbrev pub parse : ℤ → Option Text → ParsedRow
  parse now value =
      let data' = null_through spark.from_json value in
      record {
        json_value = value;
        data' = data';
        rejection_reason = rejection_reason_column spark data';
        quarantined_at = now;
      }

  abbrev pub valid_row : ParsedRow → ValidRow
  valid_row row =
      let time = null_through spark.to_timestamp (column (λ e. e.event_timestamp) row.data') in
      record {
        event_id = column (λ e. e.event_id) row.data';
        user_id = column (λ e. e.user_id) row.data';
        account_id = column (λ e. e.account_id) row.data';
        event_type = column (λ e. e.event_type) row.data';
        amount = null_through spark.cast_double (column (λ e. e.amount) row.data');
        event_timestamp = time;
        ingest_timestamp =
            null_through spark.to_timestamp (column (λ e. e.ingest_timestamp) row.data');
        region = column (λ e. e.region) row.data';
        device_type = column (λ e. e.device_type) row.data';
        event_date = optional spark.to_date time;
        event_hour = optional spark.hour time;
      }

  abbrev pub quarantine_row : ParsedRow → QuarantineRow
  quarantine_row row = record {
    json_value = row.json_value;
    rejection_reason = row.rejection_reason;
    quarantined_at = row.quarantined_at;
    event_id = column (λ e. e.event_id) row.data';
    user_id = column (λ e. e.user_id) row.data';
    event_type = column (λ e. e.event_type) row.data';
    quarantine_date = spark.to_date row.quarantined_at;
  }

  -- The two tables' rows, in a query that runs at `now`; Spark computes them again in each query.
  unfoldable pub classify_batch : List (Option Text) → ℤ → List ValidRow × List QuarantineRow
  unfolding rejection_reason_column
  classify_batch values now =
      let parsed = map (parse now) values in
      (map valid_row (keep_if is_accepted parsed), map quarantine_row (keep_if is_rejected parsed))
