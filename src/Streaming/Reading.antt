-- ===== src/Streaming/Reading.antt =====
-- src/streaming/spark_streaming_job.py and data_quality.py: the tests of a column of Spark and of a value in Python.
use data_lakehouse.Base.{
  ◌≡◌, refl, ap, sym, ◌∙◌, inl, inr, Bool, true, false, not, ◌||◌, ◌&&◌, Option, none, some, Text,
  ℤ, ◌==◌, Bool-cases, ℕ,
}
use data_lakehouse.Base.Strings.Affix.{is_empty}
use data_lakehouse.Base.Strings.Number.{
  Literal, number, infinity, read_float, vanishes, at_least_zero,
}
use data_lakehouse.Base.Strings.Replace.{replace, zulu, offset}
use data_lakehouse.Errors.{Result, ok, raise, Exc}
use data_lakehouse.Time.{Datetime}
use data_lakehouse.Codec.{Codec}
use data_lakehouse.Json.{Json, Value, null, text, Float, finite, infinite}
use data_lakehouse.Quality.{
  is_blank, is_blank_text, is_valid_amount, is_valid_timestamp, text_at_least_zero,
  literal_at_least_zero, parsed_or_false, is_value_or_type,
}
use data_lakehouse.Quality.Ends.{IsStrict}
use data_lakehouse.Streaming.{
  Functions, is_null, is_missing, has_no_time, has_bad_amount, or3, below_zero,
}

-- The same number, by what a text spells in Python and what Spark casts it to.
pub data SameNumber : Option Literal → Option Float → Type 0 where
  neither : SameNumber none none
  near :
      {negative : Bool} {m m' : ℕ} {e e' : ℤ}
      → (m' == 0) ≡ vanishes m e
      → SameNumber (some (number negative m e)) (some (finite negative m' e'))
  beyond :
      {negative : Bool} {m : ℕ} {e : ℤ}
      → vanishes m e ≡ false
      → SameNumber (some (number negative m e)) (some (infinite negative))
  unbounded : {negative : Bool} → SameNumber (some (infinity negative)) (some (infinite negative))

-- A column that is not made of white space only.
abbrev pub IsNotSpace : Option Text → Type 0
IsNotSpace o = (t : Text) → o ≡ some t → is_blank_text t ≡ is_empty t

abbrev pub is_raised : {A : Type 0} → Result A → Bool
is_raised (ok a) = false
is_raised (raise e) = true

-- The value of a column, in Python.
abbrev pub value_of : Option Text → Value
value_of none = null
value_of (some t) = text t

pub is_missing-is_blank :
    (o : Option Text) → IsNotSpace o → is_missing o ≡ some (is_blank (value_of o))
unfolding is_blank
is_missing-is_blank none h = refl
is_missing-is_blank (some t) h = ap some (sym (h t refl))

not_near : (a b c : Bool) → b ≡ c → (a && not b) ≡ not (not a || c)
not_near true b c h = ap not h
not_near false b c h = refl

double_negation : (b : Bool) → b ≡ not (not b)
double_negation true = refl
double_negation false = refl

double_negation_or : (b : Bool) → b ≡ not (not b || false)
double_negation_or true = refl
double_negation_or false = refl

number-at_least_zero :
    {l : Option Literal} {x : Option Float}
    → SameNumber l x
    → or3 (some (is_null x)) (below_zero x) ≡ some (not (literal_at_least_zero l))
unfolding at_least_zero
number-at_least_zero neither = refl
number-at_least_zero (near {negative} {m} {m'} {e} {e'} h) =
    ap some (not_near negative (m' == 0) (vanishes m e) h)
number-at_least_zero (beyond {negative} {m} {e} h) = rw h (ap some (double_negation_or negative))
number-at_least_zero (unbounded {negative}) = ap some (double_negation negative)

parsed_or_false-is_raised :
    (r : Result Datetime)
    → ((e : Exc) → r ≡ raise e → is_value_or_type e ≡ true)
    → parsed_or_false r ≡ ok (not (is_raised r))
parsed_or_false-is_raised (ok d) h = refl
parsed_or_false-is_raised (raise e) h = rw (h e refl) refl

module _ (codec : Codec) (json : Json) (spark : Functions) where
  pub has_no_time-is_valid_timestamp :
      (o : Option Text)
      → IsStrict codec
      → IsNotSpace o
      → ((t : Text)
          → o ≡ some t
          → is_null (spark.to_timestamp t)
            ≡ is_raised (codec.fromisoformat (replace zulu offset t)))
      → (good : Bool) × (is_valid_timestamp codec json (value_of o) ≡ ok good)
        × (has_no_time spark o ≡ some (not good))
  unfolding is_valid_timestamp is_blank
  has_no_time-is_valid_timestamp none strict h time = (false, refl, refl)
  has_no_time-is_valid_timestamp (some t) strict h time = elim (Bool-cases (is_empty t)) [
    | inl e ↦ (false, rw (h t refl ∙ e) refl, rw e refl)
    | inr e ↦
        let text_of = replace zulu offset t in
        let parsed = parsed_or_false-is_raised (codec.fromisoformat text_of) (strict text_of) in
        (
          not (is_null (spark.to_timestamp t)),
          rw (h t refl ∙ e) (rw (time t refl) parsed),
          rw e (ap some (double_negation (is_null (spark.to_timestamp t)))),
        )
  ]

  pub has_bad_amount-is_valid_amount :
      (o : Option Text)
      → IsNotSpace o
      → ((t : Text) → o ≡ some t → SameNumber (read_float t) (spark.cast_double t))
      → (good : Bool) × (is_valid_amount (value_of o) ≡ ok good)
        × ((has_bad_amount spark o ≡ some (not good)))
  unfolding is_valid_amount text_at_least_zero
  has_bad_amount-is_valid_amount none h same = (true, refl, refl)
  has_bad_amount-is_valid_amount (some t) h same = elim (Bool-cases (is_empty t)) [
    | inl e ↦ (true, rw (h t refl ∙ e) refl, rw e refl)
    | inr e ↦
        (text_at_least_zero t, rw (h t refl ∙ e) refl, rw e (number-at_least_zero (same t refl)))
  ]
