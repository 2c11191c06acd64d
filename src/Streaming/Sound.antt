-- ===== src/Streaming/Sound.antt =====
-- src/streaming/spark_streaming_job.py: what the table of events holds.
use data_lakehouse.Base.{
  ◌≡◌, ◌≢◌, refl, ap, sym, ◌∙◌, inl, inr, Bool, true, false, Option, none, some, List, [], ◌∷◌,
  Text, map, All, ℤ, Option-cases, Bool-cases,
}
use data_lakehouse.Base.Strings.Affix.{is_empty}
use data_lakehouse.Json.{Float}
use data_lakehouse.Quality.{Reason}
use data_lakehouse.Streaming.{
  Event, Functions, null_through, rejection_reason_column, is_below_zero, case_when, branches,
  is_missing, has_no_time, has_bad_amount, or3,
}
use data_lakehouse.Streaming.Batch.{optional, ValidRow, parse, valid_row, classify_batch}
use data_lakehouse.Streaming.Sorted.{IsGood, classify_batch-Classified}

-- The column has a text that is not empty.
abbrev pub IsFilled : Option Text → Type 0
IsFilled o = (t : Text) × (o ≡ some t) × (is_empty t ≡ false)

abbrev pub IsNotBelow : Option Float → Type 0
IsNotBelow none = Unit
IsNotBelow (some x) = is_below_zero x ≡ false

-- A row that has its required fields, its time with the columns that the table is partitioned by, and no amount below
-- zero.
pub record IsSound (row : ValidRow) : Type 0 where
  pub event_id : IsFilled row.event_id
  pub user_id : IsFilled row.user_id
  pub account_id : IsFilled row.account_id
  pub event_type : IsFilled row.event_type
  pub event_timestamp : row.event_timestamp ≢ none
  pub event_date : row.event_date ≢ none
  pub event_hour : row.event_hour ≢ none
  pub amount : IsNotBelow row.amount

-- Without a reason no condition is true.
abbrev IsNotMet : Option Bool × Reason → Type 0
IsNotMet branch = branch.0 ≢ some true

case_when-none : (bs : List (Option Bool × Reason)) → case_when bs ≡ none → All IsNotMet bs
unfolding case_when
case_when-none [] h = tt
case_when-none ((some true, reason) ∷ bs) h = absurd (cc h)
case_when-none ((some false, reason) ∷ bs) h = ((λ n. cc n), case_when-none bs h)
case_when-none ((none, reason) ∷ bs) h = ((λ n. cc n), case_when-none bs h)

is_missing-IsFilled : (o : Option Text) → is_missing o ≢ some true → IsFilled o
is_missing-IsFilled none h = absurd (h refl)
is_missing-IsFilled (some []) h = absurd (h refl)
is_missing-IsFilled (some (c ∷ t)) h = (c ∷ t, refl, refl)

module _ (spark : Functions) where
  has_no_time-some :
      (o : Option Text)
      → has_no_time spark o ≢ some true
      → (t : ℤ) × (null_through spark.to_timestamp o ≡ some t)
  has_no_time-some none h = absurd (h refl)
  has_no_time-some (some []) h = absurd (h refl)
  has_no_time-some (some (c ∷ t)) h = elim (Option-cases (spark.to_timestamp (c ∷ t))) [
    | inl e ↦ absurd (h (rw e refl))
    | inr (d, e) ↦ (d, e)
  ]

  filled-IsNotBelow :
      (x : Float) → or3 (some false) (some (is_below_zero x)) ≢ some true → is_below_zero x ≡ false
  filled-IsNotBelow x h = elim (Bool-cases (is_below_zero x)) [
    | inl e ↦ absurd (h (rw e refl))
    | inr e ↦ e
  ]

  -- No amount is read from the empty text.
  has_bad_amount-IsNotBelow :
      (o : Option Text)
      → spark.cast_double [] ≡ none
      → has_bad_amount spark o ≢ some true
      → IsNotBelow (null_through spark.cast_double o)
  has_bad_amount-IsNotBelow none e h = tt
  has_bad_amount-IsNotBelow (some []) e h = rw e tt
  has_bad_amount-IsNotBelow (some (c ∷ t)) e h = elim (Option-cases (spark.cast_double (c ∷ t))) [
    | inl n ↦ rw n tt
    | inr (x, n) ↦ rw n (filled-IsNotBelow x (rw n at h))
  ]

  optional-some :
      {A B : Type 0} (f : A → B) (o : Option A) (a : A) → o ≡ some a → optional spark f o ≢ none
  optional-some f o a e n = absurd (cc (ap (optional spark f) e, n))

  event-IsSound :
      (e : Event) (now : ℤ) (v : Option Text)
      → spark.cast_double [] ≡ none
      → null_through spark.from_json v ≡ some e
      → case_when (branches spark e) ≡ none
      → IsSound (valid_row spark (parse spark now v))
  event-IsSound e now v empty parsed h =
      let (a, (b, (c, (d, (t, (m, _)))))) = case_when-none (branches spark e) h in
      let (time, time_eq) = has_no_time-some e.event_timestamp t in
      rw parsed record {
        event_id = is_missing-IsFilled e.event_id a;
        user_id = is_missing-IsFilled e.user_id b;
        account_id = is_missing-IsFilled e.account_id c;
        event_type = is_missing-IsFilled e.event_type d;
        event_timestamp = λ n. cc (n, time_eq);
        event_date = optional-some spark.to_date _ time time_eq;
        event_hour = optional-some spark.hour _ time time_eq;
        amount = has_bad_amount-IsNotBelow e.amount empty m;
      }

  good-IsSound :
      (now : ℤ) (v : Option Text)
      → spark.cast_double [] ≡ none
      → IsGood spark v
      → IsSound (valid_row spark (parse spark now v))
  unfolding rejection_reason_column
  good-IsSound now v empty h = elim (Option-cases (null_through spark.from_json v)) [
    | inl e ↦ absurd (cc (h, ap (rejection_reason_column spark) e))
    | inr (x, e) ↦ event-IsSound x now v empty e (sym (ap (rejection_reason_column spark) e) ∙ h)
  ]

  goods-AreSound :
      (now : ℤ) (vs : List (Option Text))
      → spark.cast_double [] ≡ none
      → All (IsGood spark) vs
      → All IsSound (map (λ v. valid_row spark (parse spark now v)) vs)
  goods-AreSound now [] empty h = tt
  goods-AreSound now (v ∷ vs) empty h =
      (good-IsSound now v empty h.0, goods-AreSound now vs empty h.1)

  -- If no number is read from the empty text, every row that a batch gives to the table of events is sound.
  pub classify_batch-IsSound :
      (batch : List (Option Text)) (now : ℤ)
      → spark.cast_double [] ≡ none
      → All IsSound (classify_batch spark batch now).0
  classify_batch-IsSound batch now empty =
      let c = (classify_batch-Classified spark batch now).0 in
      rw c.valid_rows (goods-AreSound now c.good empty c.all_good)
