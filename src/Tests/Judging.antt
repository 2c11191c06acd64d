-- ===== src/Tests/Judging.antt =====
-- The theorems on the quality of events, at one event.
use data_lakehouse.Base.{
  negsuc, pos, ◌^◌, ◌≡◌, ◌↔◌, refl, Bool, true, some, [], ◌∷◌, Text, codes, ◌≤◌, arith, text_dec,
  ℕ_discrete, sym, ap, ◌∙◌,
}
use data_lakehouse.Base.Doubles.{double_of, half_even, dropped, bit_length, bit_length_in}
use data_lakehouse.Errors.{Result, ok, raise}
use data_lakehouse.Time.{Datetime}
use data_lakehouse.Json
use data_lakehouse.Json.{
  Json, Value, Fields, no_fields, field, integer, text, object, Float, finite, infinite, nan,
}
use data_lakehouse.Quality.{
  int_at_least_zero, overflow_error, total_record_count, parse_json_payload, check_fields, is_blank,
  is_valid_timestamp, is_valid_amount, text_at_least_zero, QualityMetrics, compute_quality_metrics,
  valid, validate_json_string, is_value_or_type, validate_record,
}
use data_lakehouse.Quality.Percent.{bad_record_percentage, percentage, bad_record_percentage-le}
use data_lakehouse.Quality.Acceptable.{HasInk, Acceptable}
use data_lakehouse.Quality.Laws.{validate_json_string-valid}
use data_lakehouse.Quality.Ends.{IsStrict, Ends, validate_record-Ends}
use data_lakehouse.Metrics.Sizes.{Says, format_bytes, format_bytes-Says}
use data_lakehouse.Selection.Summary.{bytes_label}
use data_lakehouse.Tests.World.{codec, read_time}

abbrev two_of_three : QualityMetrics
two_of_three = compute_quality_metrics 1 2 7 (codes "")

two_of_three-rounded : bad_record_percentage two_of_three ≡ 6667
unfolding bad_record_percentage percentage double_of half_even dropped bit_length bit_length_in
    total_record_count
two_of_three-rounded = refl

bad_record_percentage-le_example : bad_record_percentage two_of_three ≤ 10000
bad_record_percentage-le_example = bad_record_percentage-le two_of_three

abbrev pub order : Fields
order = field (codes "event_id") (text (codes "e1")) (
    field (codes "user_id") (text (codes "u1")) (
      field (codes "account_id") (text (codes "c1")) (
        field (codes "event_type") (text (codes "purchase")) (
          field (codes "event_timestamp") (text (codes "a5"))
            (field (codes "amount") (text (codes "12.5")) no_fields)))))

-- Every text spells this event.
abbrev pub json : Json
json = record { dumps = λ v. codes "order"; loads = λ t. ok (object order); shown = λ v. codes "" }

validate_json_string-valid_example :
    (validate_json_string codec json (codes "order") ≡ ok (valid, some order)) ↔ (
      HasInk (codes "order")
      × (json.loads (codes "order") ≡ ok (object order))
      × Acceptable codec json order)
validate_json_string-valid_example = validate_json_string-valid codec json (codes "order") order

order-valid : validate_json_string codec json (codes "order") ≡ ok (valid, some order)
unfolding validate_json_string parse_json_payload validate_record check_fields is_blank Json.get
    text_dec ℕ_discrete is_valid_timestamp is_valid_amount text_at_least_zero
order-valid = refl

abbrev is_handled : Result Datetime → Bool
is_handled (ok d) = true
is_handled (raise e) = is_value_or_type e

read_time-is_handled : (t : Text) → is_handled (read_time t) ≡ true
read_time-is_handled [] = refl
read_time-is_handled (c ∷ s) = ground arith

pub codec-IsStrict : IsStrict codec
codec-IsStrict t e h = sym (ap is_handled h) ∙ read_time-is_handled t

-- The same event with an amount that `float` does not hold.
abbrev huge_order : Fields
huge_order = field (codes "event_id") (text (codes "e1")) (
    field (codes "user_id") (text (codes "u1")) (
      field (codes "account_id") (text (codes "c1")) (
        field (codes "event_type") (text (codes "purchase")) (
          field (codes "event_timestamp") (text (codes "a5"))
            (field (codes "amount") (integer (pos (10 ^ 400))) no_fields)))))

huge_raises : validate_record codec json (some huge_order) ≡ raise overflow_error
unfolding validate_json_string parse_json_payload validate_record check_fields is_blank Json.get
    text_dec ℕ_discrete is_valid_timestamp is_valid_amount text_at_least_zero int_at_least_zero
huge_raises = refl

validate_record-Ends_example :
    Ends (Json.get (codes "amount") order) (validate_record codec json (some order))
validate_record-Ends_example = validate_record-Ends codec json codec-IsStrict order

format_bytes-Says_example : Says 123456789 (format_bytes 123456789)
format_bytes-Says_example = format_bytes-Says 123456789

some_megabytes : format_bytes 123456789 ≡ codes "117.74 MB"
unfolding format_bytes
some_megabytes = refl

-- One byte less than a gigabyte.
many_megabytes : format_bytes 1073741823 ≡ codes "1024.00 MB"
unfolding format_bytes
many_megabytes = refl

-- A size of 128 MB, and one that is less than one.
some_label : bytes_label (pos 134217728) ≡ codes "128 MB"
unfolding bytes_label
some_label = refl

negative_label : bytes_label (negsuc 4) ≡ codes "-5 B"
unfolding bytes_label
negative_label = refl
