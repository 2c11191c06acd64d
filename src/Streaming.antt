-- ===== src/Streaming.antt =====
-- src/streaming/spark_streaming_job.py: how Spark judges an event, and how a batch is split and written.
pub mod Batch
pub mod Writing
pub mod Sorted
pub mod Sound
pub mod Reading
pub mod Agreement
pub mod Appended
pub mod Statements
pub mod Attempt
use data_lakehouse.Base.{
  ℕ, Bool, true, false, not, ◌||◌, ◌&&◌, Option, none, some, List, [], ◌∷◌, Text, text_eq,
  if◌then◌else◌, ℤ, keep_if, map, ◌==◌,
}
use mathlib.Core.Option
use data_lakehouse.Base.Strings.Affix.{is_empty, is_some}
use data_lakehouse.Json.{Float, finite, infinite, nan}
use data_lakehouse.Quality.{
  Reason, malformed_json, missing_event_id, missing_user_id, missing_account_id, missing_event_type,
  null_event_timestamp, invalid_amount,
}

-- The columns of `EVENT_SCHEMA`; each is a text, or null.
pub record Event : Type 0 where
  pub event_id : Option Text
  pub user_id : Option Text
  pub account_id : Option Text
  pub event_type : Option Text
  pub amount : Option Text
  pub event_timestamp : Option Text
  pub ingest_timestamp : Option Text
  pub region : Option Text
  pub device_type : Option Text

-- What Spark makes of a text: `from_json` with the schema, `to_timestamp` in microseconds and
-- `cast("double")`; null where it is none. `to_date` gives the day and `hour` the hour of a timestamp.
pub record Functions : Type 0 where
  pub from_json : Text → Option Event
  pub to_timestamp : Text → Option ℤ
  pub cast_double : Text → Option Float
  pub to_date : ℤ → ℤ
  pub hour : ℤ → ℕ

module _ {A B : Type 0} where
  -- A function of Spark gives null for null.
  abbrev pub null_through : (A → Option B) → Option A → Option B
  null_through f none = none
  null_through f (some x) = f x

-- `column.isNull()`
abbrev pub is_null : {A : Type 0} → Option A → Bool
is_null none = true
is_null (some x) = false

-- Conditions are true, false or null.
abbrev pub or3 : Option Bool → Option Bool → Option Bool
or3 (some true) b = some true
or3 (some false) b = b
or3 none (some true) = some true
or3 none b = none

abbrev pub and3 : Option Bool → Option Bool → Option Bool
and3 (some false) b = some false
and3 (some true) b = b
and3 none (some false) = some false
and3 none b = none

-- `column == ""` and `column != ""`
abbrev pub equals_empty : Option Text → Option Bool
equals_empty none = none
equals_empty (some t) = some (is_empty t)

abbrev pub differs_from_empty : Option Text → Option Bool
differs_from_empty none = none
differs_from_empty (some t) = some (not (is_empty t))

-- A double of Spark is below zero; its NaN is above every number.
abbrev pub is_below_zero : Float → Bool
is_below_zero (finite negative m e) = negative && not (m == 0)
is_below_zero (infinite negative) = negative
is_below_zero nan = false

abbrev pub below_zero : Option Float → Option Bool
below_zero none = none
below_zero (some x) = some (is_below_zero x)

-- `F.when(condition, reason)` and the `when`s that follow it: the reason of the first condition that is true.
unfoldable pub case_when : List (Option Bool × Reason) → Option Reason
case_when [] = none
case_when ((some true, reason) ∷ branches) = some reason
case_when ((some false, reason) ∷ branches) = case_when branches
case_when ((none, reason) ∷ branches) = case_when branches

abbrev pub is_missing : Option Text → Option Bool
is_missing column = or3 (some (is_null column)) (equals_empty column)

module _ (spark : Functions) where
  abbrev pub has_no_time : Option Text → Option Bool
  has_no_time column =
      or3 (or3 (some (is_null column)) (equals_empty column))
        (some (is_null (null_through spark.to_timestamp column)))

  abbrev pub has_bad_amount : Option Text → Option Bool
  has_bad_amount column =
      let number = null_through spark.cast_double column in
      and3 (and3 (some (not (is_null column))) (differs_from_empty column))
        (or3 (some (is_null number)) (below_zero number))

  -- The branches after the first, for a row with data.
  abbrev pub branches : Event → List (Option Bool × Reason)
  branches e =
      (is_missing e.event_id, missing_event_id)
      ∷ (is_missing e.user_id, missing_user_id)
      ∷ (is_missing e.account_id, missing_account_id)
      ∷ (is_missing e.event_type, missing_event_type)
      ∷ (has_no_time e.event_timestamp, null_event_timestamp)
      ∷ (has_bad_amount e.amount, invalid_amount)
      ∷ []

  unfoldable pub rejection_reason_column : Option Event → Option Reason
  unfolding case_when
  rejection_reason_column none = some malformed_json
  rejection_reason_column (some e) = case_when (branches e)
