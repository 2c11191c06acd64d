-- ===== src/Quality.antt =====
-- src/streaming/data_quality.py: when an event is rejected, and why.
pub mod Percent
pub mod Acceptable
pub mod Laws
pub mod Ends
pub mod Report
use data_lakehouse.Base.{
  ℕ, ◌+◌, ◌-◌, ◌^◌, Bool, true, false, not, ◌||◌, ◌&&◌, Option, none, some, List, [], ◌∷◌, Text,
  codes, if◌then◌else◌, ℤ, pos, negsuc, leb, ◌==◌,
}
use data_lakehouse.Base.Strings.Affix.{is_empty}
use data_lakehouse.Base.Strings.Space.{strip}
use data_lakehouse.Base.Strings.Number.{Literal, read_float, at_least_zero}
use data_lakehouse.Base.Strings.Replace.{replace, zulu, offset}
use data_lakehouse.Errors.{
  Exc, Result, ok, raise, value_error, json_decode_error, type_error, other, ◌>>=◌,
}
use data_lakehouse.Time.{Datetime}
use data_lakehouse.Codec.{Codec}
use data_lakehouse.Json
use data_lakehouse.Json.{
  Json, Value, Fields, Float, null, boolean, integer, floating, text, array, object, no_fields,
  field, finite, infinite, nan,
}

-- The constants `REASON_…`.
pub data Reason : Type 0 where
  malformed_json missing_event_id missing_user_id missing_account_id missing_event_type : Reason
  null_event_timestamp invalid_amount : Reason

-- A record is valid, or invalid for a reason.
pub record ValidationResult : Type 0 where
  pub is_valid : Bool
  pub rejection_reason : Option Reason

abbrev pub valid : ValidationResult
valid = record { is_valid = true; rejection_reason = none }

abbrev pub invalid : Reason → ValidationResult
invalid reason = record { is_valid = false; rejection_reason = some reason }

abbrev pub is_blank_text : Text → Bool
is_blank_text t = is_empty (strip t)

unfoldable pub is_blank : Value → Bool
is_blank null = true
is_blank (text t) = is_blank_text t
is_blank _ = false

-- `except (ValueError, TypeError)`
abbrev pub is_value_or_type : Exc → Bool
is_value_or_type (value_error m) = true
is_value_or_type (json_decode_error m) = true
is_value_or_type (type_error m) = true
is_value_or_type _ = false

abbrev pub parsed_or_false : Result Datetime → Result Bool
parsed_or_false (ok d) = ok true
parsed_or_false (raise e) = if is_value_or_type e then ok false else raise e

-- The magnitude from which `float` of an integer overflows: half way from the greatest double to 2 ^ 1024.
abbrev pub int_overflow : ℕ
int_overflow = 2 ^ 1024 - 2 ^ 970

abbrev pub overflow_error : Exc
overflow_error = other (codes "int too large to convert to float")

-- `float(n) >= 0`
unfoldable pub int_at_least_zero : ℤ → Result Bool
int_at_least_zero (pos n) = if leb int_overflow n then raise overflow_error else ok true
int_at_least_zero (negsuc n) = if leb int_overflow (n + 1) then raise overflow_error else ok false

unfoldable pub float_at_least_zero : Float → Bool
float_at_least_zero (finite negative m e) = not negative || m == 0
float_at_least_zero (infinite negative) = not negative
float_at_least_zero nan = false

abbrev pub literal_at_least_zero : Option Literal → Bool
literal_at_least_zero none = false
literal_at_least_zero (some l) = at_least_zero l

-- A text that is not blank.
unfoldable pub text_at_least_zero : Text → Bool
unfolding read_float at_least_zero
text_at_least_zero t = literal_at_least_zero (read_float t)

unfoldable pub is_valid_amount : Value → Result Bool
unfolding strip
is_valid_amount null = ok true
is_valid_amount (text t) = if is_blank_text t then ok true else ok (text_at_least_zero t)
is_valid_amount (boolean b) = ok true
is_valid_amount (integer n) = int_at_least_zero n
is_valid_amount (floating x) = ok (float_at_least_zero x)
is_valid_amount (array items) = ok false
is_valid_amount (object fs) = ok false

module _ (codec : Codec) (json : Json) where
  -- `str(value)`
  abbrev pub as_text : Value → Text
  as_text (text t) = t
  as_text v = json.shown v

  unfoldable pub is_valid_timestamp : Value → Result Bool
  unfolding replace is_blank
  is_valid_timestamp v =
      if is_blank v
      then ok false
      else parsed_or_false (codec.fromisoformat (replace zulu offset (as_text v)))

  -- The checks after the loop over the required fields.
  abbrev pub check_amount : Fields → Result ValidationResult
  check_amount record' = do
    good ← is_valid_amount (Json.get (codes "amount") record')
    ok (if good then valid else invalid invalid_amount)

  abbrev pub check_values : Fields → Result ValidationResult
  check_values record' = do
    good ← is_valid_timestamp (Json.get (codes "event_timestamp") record')
    if good then check_amount record' else ok (invalid null_event_timestamp)

  -- The items of `field_reasons`.
  abbrev pub field_reasons : List (Text × Reason)
  field_reasons =
      (codes "event_id", missing_event_id)
      ∷ (codes "user_id", missing_user_id)
      ∷ (codes "account_id", missing_account_id)
      ∷ (codes "event_type", missing_event_type)
      ∷ []

  -- The loop over `field_reasons`, and what comes after it.
  unfoldable pub check_fields : List (Text × Reason) → Fields → Result ValidationResult
  check_fields [] record' = check_values record'
  check_fields ((name, reason) ∷ more) record' =
      let rest = check_fields more record' in
      if is_blank (Json.get name record') then ok (invalid reason) else rest

  unfoldable pub validate_record : Option Fields → Result ValidationResult
  validate_record none = ok (invalid malformed_json)
  validate_record (some no_fields) = ok (invalid malformed_json)
  validate_record (some (field k v fs)) = check_fields field_reasons (field k v fs)

  -- `(data, None)` or `(None, REASON_MALFORMED_JSON)`
  abbrev pub object_or_malformed : Result Value → Result (Option Fields × Option Reason)
  object_or_malformed (ok (object fs)) = ok (some fs, none)
  object_or_malformed (ok v) = ok (none, some malformed_json)
  object_or_malformed (raise (json_decode_error m)) = ok (none, some malformed_json)
  object_or_malformed (raise e) = raise e

  unfoldable pub parse_json_payload : Text → Result (Option Fields × Option Reason)
  unfolding strip
  parse_json_payload raw =
      if is_empty raw || is_blank_text raw
      then ok (none, some malformed_json)
      else object_or_malformed (json.loads raw)

  abbrev pub with_record : Option Fields × Option Reason → Result (ValidationResult × Option Fields)
  with_record (parsed, some reason) = ok (invalid reason, none)
  with_record (parsed, none) = do result ← validate_record parsed; ok (result, parsed)

  unfoldable pub validate_json_string : Text → Result (ValidationResult × Option Fields)
  validate_json_string raw = do p ← parse_json_payload raw; with_record p

pub record QualityMetrics : Type 0 where
  pub valid_record_count : ℕ
  pub bad_record_count : ℕ
  pub batch_id : ℕ
  pub timestamp : Text

abbrev pub compute_quality_metrics : ℕ → ℕ → ℕ → Text → QualityMetrics
compute_quality_metrics valid_count bad_count batch_id timestamp = record {
  valid_record_count = valid_count;
  bad_record_count = bad_count;
  batch_id = batch_id;
  timestamp = timestamp;
}

unfoldable pub total_record_count : QualityMetrics → ℕ
total_record_count m = m.valid_record_count + m.bad_record_count
