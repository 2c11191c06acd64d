-- ===== src/Tests/Batches.antt =====
-- The theorems on the streaming job, at a batch of three values.
use data_lakehouse.Base.{
  ◌≡◌, ◌≢◌, refl, Bool, true, false, Option, none, some, List, [], ◌∷◌, ◌++◌, ◌+◌, Text, codes, pos,
  if◌then◌else◌, ℤ, ite, text_dec, length, ℕ_discrete, All, ap,
}
use mathlib.Core.Path.{subst}
use data_lakehouse.Json
use data_lakehouse.Base.Strings.Affix.{is_empty}
use data_lakehouse.Base.Strings.Number.{
  Literal, number, infinity, not_a_number, read_float, vanishes,
}
use data_lakehouse.Base.Strings.Space.{strip}
use data_lakehouse.Base.Strings.Replace.{replace, zulu, offset}
use data_lakehouse.Errors.{Exc, Result, ok, raise, other}
use data_lakehouse.Time.{Datetime, micros}
use data_lakehouse.Exec.{Outcome}
use data_lakehouse.Json.{Float, finite, infinite, nan}
use data_lakehouse.Quality.{validate_record, is_blank_text}
use data_lakehouse.Quality.Report.{Files}
use data_lakehouse.Streaming.{is_null, Event, Functions, rejection_reason_column}
use data_lakehouse.Streaming.Batch.{classify_batch}
use data_lakehouse.Streaming.Sorted.{Classified, classify_batch-Classified}
use data_lakehouse.Streaming.Sound.{IsSound, classify_batch-IsSound}
use data_lakehouse.Streaming.Reading.{is_raised, SameNumber, near, IsNotSpace}
use data_lakehouse.Streaming.Agreement.{
  Shows, ReadsAlike, judged, validate_record-rejection_reason_column,
}
use data_lakehouse.Streaming.Writing.{TableRow, Job, Paths, process_batch}
use data_lakehouse.Streaming.Appended.{IsAtomic}
use data_lakehouse.Streaming.Attempt.{Whole, Partial, process_batch-Whole}
use data_lakehouse.Tests.World.{codec, distinct}
use data_lakehouse.Tests.Judging.{json, order, codec-IsStrict}

abbrev order_event : Event
order_event = record {
  event_id = some (codes "e1");
  user_id = some (codes "u1");
  account_id = some (codes "c1");
  event_type = some (codes "purchase");
  amount = some (codes "12.5");
  event_timestamp = some (codes "a5");
  ingest_timestamp = none;
  region = none;
  device_type = none;
}

abbrev timestamp_of : Result Datetime → Option ℤ
timestamp_of (ok d) = some (micros d)
timestamp_of (raise e) = none

abbrev double_of_literal : Option Literal → Option Float
double_of_literal none = none
double_of_literal (some (number negative m e)) =
    some (finite negative (if vanishes m e then 0 else 1) e)
double_of_literal (some (infinity negative)) = some (infinite negative)
double_of_literal (some not_a_number) = some nan

-- A text that is not empty spells the event.
abbrev spark : Functions
spark = record {
  from_json = λ t. elim (text_dec t (codes "")) [ yes p ↦ none | no n ↦ some order_event ];
  to_timestamp = λ t. timestamp_of (codec.fromisoformat (replace zulu offset t));
  cast_double = λ t. double_of_literal (read_float t);
  to_date = λ t. t;
  hour = λ t. 0;
}

abbrev batch : List (Option Text)
batch = some (codes "order") ∷ some (codes "") ∷ none ∷ []

classify_batch-Classified_example :
    Classified spark (pos 0) batch (classify_batch spark batch (pos 0))
    × (length (classify_batch spark batch (pos 0)).0 + length (classify_batch spark batch (pos 0)).1
        ≡ 3)
classify_batch-Classified_example = classify_batch-Classified spark batch (pos 0)

classify_batch-IsSound_example : All IsSound (classify_batch spark batch (pos 0)).0
unfolding read_float text_dec
classify_batch-IsSound_example = classify_batch-IsSound spark batch (pos 0) refl

-- What holds of the text of a column holds of every text that the column has.
of_text : (P : Text → Type 0) (s t : Text) → P s → some s ≡ some t → P t
of_text P s t h e = subst P (ap (λ o. elim o [ none ↦ s | some x ↦ x ]) e) h

not_space : (s : Text) → is_blank_text s ≡ is_empty s → IsNotSpace (some s)
not_space s h t e = of_text (λ x. is_blank_text x ≡ is_empty x) s t h e

order-Shows : Shows order order_event
unfolding Json.get text_dec ℕ_discrete
order-Shows = record {
  some_field = λ e. cc e;
  event_id = refl;
  user_id = refl;
  account_id = refl;
  event_type = refl;
  event_timestamp = refl;
  amount = refl;
}

time_alike : (r : Result Datetime) → is_null (timestamp_of r) ≡ is_raised r
time_alike (ok d) = refl
time_alike (raise e) = refl

order-ReadsAlike : ReadsAlike codec spark order_event
unfolding read_float text_dec ℕ_discrete
order-ReadsAlike = record {
  event_id = not_space (codes "e1") refl;
  user_id = not_space (codes "u1") refl;
  account_id = not_space (codes "c1") refl;
  event_type = not_space (codes "purchase") refl;
  event_timestamp = not_space (codes "a5") refl;
  amount = not_space (codes "12.5") refl;
  same_time = λ t e. time_alike (codec.fromisoformat (replace zulu offset t));
  same_number = λ t e.
      of_text (λ x. SameNumber (read_float x) (spark.cast_double x)) (codes "12.5") t (near refl) e;
}

validate_record-rejection_reason_column_example :
    validate_record codec json (some order)
    ≡ ok (judged (rejection_reason_column spark (some order_event)))
validate_record-rejection_reason_column_example =
    validate_record-rejection_reason_column codec json spark order order_event codec-IsStrict
      order-Shows order-ReadsAlike

-- An account of one space: a reason in Python, and none in Spark.
abbrev blank_event : Event
blank_event = record order_event { account_id = some (codes " ") }

blank_accepted : rejection_reason_column spark (some blank_event) ≡ none
unfolding rejection_reason_column replace read_float text_dec ℕ_discrete
blank_accepted = refl

blank_missing : is_blank_text (codes " ") ≡ true
unfolding strip
blank_missing = refl

-- Tables in memory, and for each append to come, whether it fails.
record Tables : Type 0 where
  fails : List Bool
  rows_of : Text → List TableRow

abbrev rows : Tables → Text → List TableRow
rows w path = w.rows_of path

abbrev append_in :
    Text → List TableRow → List Bool → (Text → List TableRow) → Result (Unit {0}) × Tables
append_in p new [] now =
    (ok tt, record { fails = []; rows_of = λ q. ite (text_dec p q) (now q ++ new) (now q) })
append_in p new (false ∷ fs) now =
    (ok tt, record { fails = fs; rows_of = λ q. ite (text_dec p q) (now q ++ new) (now q) })
append_in p new (true ∷ fs) now =
    (raise (other (codes "disk")), record { fails = fs; rows_of = now })

abbrev job : Job Tables
job = record {
  query = λ w. (ok (pos 0), w);
  append = λ p columns new w. append_in p new w.fails w.rows_of;
  now = λ w. (ok (pos 0), w);
}

abbrev files : Files Tables
files = record { make_parent = λ path w. (ok tt, w); append_text = λ path t w. (ok tt, w) }

append_in-ok :
    (p : Text) (new : List TableRow) (fs : List Bool) (now : Text → List TableRow)
    → (append_in p new fs now).0 ≡ ok tt
    → (q : Text) → rows (append_in p new fs now).1 q ≡ ite (text_dec p q) (now q ++ new) (now q)
append_in-ok p new [] now h q = refl
append_in-ok p new (false ∷ fs) now h q = refl
append_in-ok p new (true ∷ fs) now h q = absurd (cc h)

append_in-raise :
    (p : Text) (new : List TableRow) (fs : List Bool) (now : Text → List TableRow) (e : Exc)
    → (append_in p new fs now).0 ≡ raise e
    → (q : Text) → rows (append_in p new fs now).1 q ≡ now q
append_in-raise p new [] now e h q = absurd (cc h)
append_in-raise p new (false ∷ fs) now e h q = absurd (cc h)
append_in-raise p new (true ∷ fs) now e h q = refl

tables-IsAtomic : IsAtomic job files rows
tables-IsAtomic = record {
  rows-query = λ w q. refl;
  rows-now = λ w q. refl;
  rows-make_parent = λ path w q. refl;
  rows-append_text = λ path t w q. refl;
  append_ok = λ p columns new w h. append_in-ok p new w.fails w.rows_of h;
  append_raise = λ p columns new w e h. append_in-raise p new w.fails w.rows_of e h;
}

abbrev paths : Paths
paths = record {
  delta_path = codes "raw";
  quarantine_path = codes "bad";
  quality_metrics_path = codes "log";
}

paths_distinct : codes "raw" ≢ codes "bad"
unfolding text_dec ℕ_discrete
paths_distinct = distinct (codes "raw") (codes "bad") refl

-- The second append fails.
abbrev start : Tables
start = record { fails = false ∷ true ∷ []; rows_of = λ q. [] }

abbrev run : Tables → Result (Unit {0}) × Tables
run w = process_batch job files spark codec json paths batch 7 w

process_batch-Whole_example :
    Outcome
      (λ a. Whole job files spark codec json paths rows tables-IsAtomic batch start)
      (Partial job files spark codec json paths rows tables-IsAtomic batch start)
      (run start)
process_batch-Whole_example =
    process_batch-Whole job files spark codec json paths rows tables-IsAtomic batch 7 start
      paths_distinct

abbrev after_failure : Tables
after_failure = (run start).1

-- The event stands in the table twice.
appended_twice : length (rows (run after_failure).1 (codes "raw")) ≡ 2
unfolding process_batch text_dec read_float ℕ_discrete
appended_twice = refl
