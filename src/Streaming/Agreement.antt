-- ===== src/Streaming/Agreement.antt =====
-- src/streaming/spark_streaming_job.py and data_quality.py: when the column of Spark and the validation in Python
-- judge an event alike.
use data_lakehouse.Base.{
  ◌≡◌, ◌≢◌, refl, ap, sym, ◌∙◌, Bool, true, false, not, Option, none, some, List, [], ◌∷◌, Text,
  codes, if◌then◌else◌,
}
use data_lakehouse.Base.Strings.Number.{read_float}
use data_lakehouse.Base.Strings.Replace.{replace, zulu, offset}
use data_lakehouse.Errors.{Result, ok}
use data_lakehouse.Codec.{Codec}
use data_lakehouse.Json
use data_lakehouse.Json.{
  Json, Value, Fields, no_fields, field, null, text, Float, finite, infinite, nan,
}
use data_lakehouse.Quality.{
  Reason, ValidationResult, valid, invalid, is_blank, validate_record, check_values, check_fields,
  field_reasons, check_amount, invalid_amount, null_event_timestamp, missing_event_id,
  missing_user_id, missing_account_id, missing_event_type,
}
use data_lakehouse.Quality.Ends.{IsStrict}
use data_lakehouse.Streaming.{
  Event, Functions, is_null, rejection_reason_column, case_when, branches, is_missing, has_no_time,
  has_bad_amount,
}
use data_lakehouse.Streaming.Reading.{
  SameNumber, IsNotSpace, is_raised, value_of, is_missing-is_blank, has_no_time-is_valid_timestamp,
  has_bad_amount-is_valid_amount,
}

-- A dictionary that is not empty has the texts of an event.
pub record Shows (record' : Fields) (e : Event) : Type 0 where
  pub some_field : record' ≢ no_fields
  pub event_id : Json.get (codes "event_id") record' ≡ value_of e.event_id
  pub user_id : Json.get (codes "user_id") record' ≡ value_of e.user_id
  pub account_id : Json.get (codes "account_id") record' ≡ value_of e.account_id
  pub event_type : Json.get (codes "event_type") record' ≡ value_of e.event_type
  pub event_timestamp : Json.get (codes "event_timestamp") record' ≡ value_of e.event_timestamp
  pub amount : Json.get (codes "amount") record' ≡ value_of e.amount

-- The texts of an event, as far as the two sides can read them differently: none is made of white space only, and
-- the time and the amount are read alike.
pub record ReadsAlike (codec : Codec) (spark : Functions) (e : Event) : Type 0 where
  pub event_id : IsNotSpace e.event_id
  pub user_id : IsNotSpace e.user_id
  pub account_id : IsNotSpace e.account_id
  pub event_type : IsNotSpace e.event_type
  pub event_timestamp : IsNotSpace e.event_timestamp
  pub amount : IsNotSpace e.amount
  pub same_time :
      (t : Text)
      → e.event_timestamp ≡ some t
      → is_null (spark.to_timestamp t) ≡ is_raised (codec.fromisoformat (replace zulu offset t))
  pub same_number : (t : Text) → e.amount ≡ some t → SameNumber (read_float t) (spark.cast_double t)

-- The result for a reason, or for none.
abbrev pub judged : Option Reason → ValidationResult
judged none = valid
judged (some reason) = invalid reason

-- One step of the two chains.
step-agrees :
    (c : Option Bool) (b : Bool) (reason : Reason) (bs : List (Option Bool × Reason))
    (rest : Result ValidationResult)
    → c ≡ some b
    → rest ≡ ok (judged (case_when bs))
    → (if b then ok (invalid reason) else rest) ≡ ok (judged (case_when ((c, reason) ∷ bs)))
unfolding case_when
step-agrees c true reason bs rest h e = rw h refl
step-agrees c false reason bs rest h e = rw h e

-- A step whose test is that a value is good.
good-agrees :
    (c : Option Bool) (good : Bool) (reason : Reason) (bs : List (Option Bool × Reason))
    (rest : Result ValidationResult)
    → c ≡ some (not good)
    → rest ≡ ok (judged (case_when bs))
    → (if good then rest else ok (invalid reason)) ≡ ok (judged (case_when ((c, reason) ∷ bs)))
unfolding case_when
good-agrees c true reason bs rest h e = rw h e
good-agrees c false reason bs rest h e = rw h refl

if-ok : {A : Type 0} (b : Bool) (x y : A) → ok (if b then x else y) ≡ (if b then ok x else ok y)
if-ok true x y = refl
if-ok false x y = refl

module _ (codec : Codec) (json : Json) (spark : Functions) where
  module _ (strict : IsStrict codec) (record' : Fields) (e : Event) (shows : Shows record' e)
      (alike : ReadsAlike codec spark e) where
    check_amount-agrees :
        check_amount codec json record'
        ≡ ok (judged (case_when ((has_bad_amount spark e.amount, invalid_amount) ∷ [])))
    unfolding case_when
    check_amount-agrees =
        let (good, valid_eq, column_eq) =
          has_bad_amount-is_valid_amount codec json spark e.amount alike.amount alike.same_number in
        rw (shows.amount, valid_eq)
          (if-ok good valid (invalid invalid_amount)
            ∙ good-agrees (has_bad_amount spark e.amount) good invalid_amount [] (ok valid)
                column_eq refl)

    missing-agrees :
        (name : Text) (o : Option Text) (reason : Reason) (bs : List (Option Bool × Reason))
        (rest : Result ValidationResult)
        → Json.get name record' ≡ value_of o
        → IsNotSpace o
        → rest ≡ ok (judged (case_when bs))
        → (if is_blank (Json.get name record') then ok (invalid reason) else rest)
          ≡ ok (judged (case_when ((is_missing o, reason) ∷ bs)))
    missing-agrees name o reason bs rest shown h e' =
        step-agrees (is_missing o) (is_blank (Json.get name record')) reason bs rest
          (is_missing-is_blank o h ∙ ap (λ v. some (is_blank v)) (sym shown)) e'

    check_values-agrees :
        check_values codec json record'
        ≡ ok (
            judged (
              case_when (
                (has_no_time spark e.event_timestamp, null_event_timestamp)
                ∷ (has_bad_amount spark e.amount, invalid_amount)
                ∷ [])))
    check_values-agrees =
        let (good, valid_eq, column_eq) =
          has_no_time-is_valid_timestamp codec json spark e.event_timestamp strict
            alike.event_timestamp alike.same_time in
        rw (shows.event_timestamp, valid_eq)
          (good-agrees (has_no_time spark e.event_timestamp) good null_event_timestamp _
            (check_amount codec json record') column_eq check_amount-agrees)

    check_fields-agrees :
        check_fields codec json (field_reasons codec json) record'
        ≡ ok (judged (case_when (branches spark e)))
    unfolding check_fields
    check_fields-agrees =
        missing-agrees _ e.event_id missing_event_id _ _ shows.event_id alike.event_id (
          missing-agrees _ e.user_id missing_user_id _ _ shows.user_id alike.user_id (
            missing-agrees _ e.account_id missing_account_id _ _ shows.account_id alike.account_id (
              missing-agrees _ e.event_type missing_event_type _ _ shows.event_type alike.event_type
                check_values-agrees)))

  non_empty :
      (r : Fields)
      → r ≢ no_fields
      → validate_record codec json (some r) ≡ check_fields codec json (field_reasons codec json) r
  unfolding validate_record
  non_empty no_fields h = absurd (h refl)
  non_empty (field k v fs) h = refl

  -- If `fromisoformat` raises only what the code handles, a dictionary that has the texts of an event, which both
  -- sides read alike, is judged in Python as the column of Spark judges the event, with the same reason.
  pub validate_record-rejection_reason_column :
      (record' : Fields) (e : Event)
      → IsStrict codec
      → Shows record' e
      → ReadsAlike codec spark e
      → validate_record codec json (some record')
        ≡ ok (judged (rejection_reason_column spark (some e)))
  unfolding rejection_reason_column
  validate_record-rejection_reason_column record' e strict shows alike =
      non_empty record' shows.some_field ∙ check_fields-agrees strict record' e shows alike
