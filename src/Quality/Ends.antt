-- ===== src/Quality/Ends.antt =====
-- src/streaming/data_quality.py: how the validation of a record can end.
use data_lakehouse.Base.{
  ◌≡◌, ◌⊎◌, inl, inr, refl, Bool, true, false, some, List, [], ◌∷◌, Text, codes, leb, if◌then◌else◌,
  Bool-cases, ℤ, pos, negsuc, ◌+◌, arith, ◌≤◌, leb→le, ℕ, neg_part, pos_part,
}
use data_lakehouse.Base.Strings.Replace.{replace, zulu, offset}
use data_lakehouse.Errors.{Exc, Result, ok, raise, ◌>>=◌}
use data_lakehouse.Time.{Datetime}
use data_lakehouse.Codec.{Codec}
use data_lakehouse.Json
use data_lakehouse.Json.{
  Json, Value, Fields, no_fields, field, integer, null, boolean, floating, text, array, object,
}
use data_lakehouse.Quality.{
  Reason, ValidationResult, is_blank, is_valid_amount, is_valid_timestamp, check_values,
  field_reasons, check_fields, validate_record, is_value_or_type, parsed_or_false, int_overflow,
  overflow_error, as_text, is_blank_text, text_at_least_zero, float_at_least_zero,
  int_at_least_zero,
}

-- `fromisoformat` raises a `ValueError` or a `TypeError`, and no other.
abbrev pub IsStrict : Codec → Type 0
IsStrict codec = (t : Text) (e : Exc) → codec.fromisoformat t ≡ raise e → is_value_or_type e ≡ true

-- An integer that `float` does not hold.
abbrev pub IsHuge : Value → Type 0
IsHuge v = (n : ℤ) × (v ≡ integer n) × (int_overflow ≤ pos_part n + neg_part n)

abbrev pub Ends {ℓ} : {A : Type ℓ} → Value → Result A → Type ℓ
Ends {A = A} v r = ((a : A) × (r ≡ ok a)) ⊎ (IsHuge v × (r ≡ raise overflow_error))

integer-Ends :
    (n : ℤ) (m : ℕ) (b : Bool)
    → pos_part n + neg_part n ≡ m
    → Ends (integer n) (if leb int_overflow m then raise overflow_error else ok b)
integer-Ends n m b e = elim (Bool-cases (leb int_overflow m)) [
  | inl h ↦ rw h (inr ((n, refl, rw e (leb→le int_overflow m h)), refl))
  | inr h ↦ rw h (inl (b, refl))
]

is_valid_amount-Ends : (v : Value) → Ends v (is_valid_amount v)
unfolding is_valid_amount int_at_least_zero
is_valid_amount-Ends null = inl (true, refl)
is_valid_amount-Ends (boolean b) = inl (true, refl)
is_valid_amount-Ends (integer (pos n)) = integer-Ends (pos n) n true (omega arith)
is_valid_amount-Ends (integer (negsuc n)) = integer-Ends (negsuc n) (n + 1) false (omega arith)
is_valid_amount-Ends (floating x) = inl (float_at_least_zero x, refl)
is_valid_amount-Ends (text t) = elim (Bool-cases (is_blank_text t)) [
  | inl h ↦ rw h (inl (true, refl))
  | inr h ↦ rw h (inl (text_at_least_zero t, refl))
]
is_valid_amount-Ends (array items) = inl (false, refl)
is_valid_amount-Ends (object fs) = inl (false, refl)

then-Ends :
    {v : Value} (r : Result Bool) (k : Bool → Result ValidationResult)
    → Ends v r
    → ((b : Bool) → Ends v (k b))
    → Ends v (r >>= k)
then-Ends r k (inl (b, e)) h = rw e (h b)
then-Ends r k (inr (huge, e)) h = rw e (inr (huge, refl))

if-Ends :
    {v : Value} (b : Bool) (x y : Result ValidationResult)
    → Ends v x
    → Ends v y
    → Ends v (if b then x else y)
if-Ends true x y hx hy = hx
if-Ends false x y hx hy = hy

parsed_or_false-Ends :
    (v : Value) (r : Result Datetime)
    → ((e : Exc) → r ≡ raise e → is_value_or_type e ≡ true)
    → Ends v (parsed_or_false r)
parsed_or_false-Ends v (ok d) h = inl (true, refl)
parsed_or_false-Ends v (raise e) h = rw (h e refl) (inl (false, refl))

module _ (codec : Codec) (json : Json) (strict : IsStrict codec) where
  is_valid_timestamp-Ends : (v w : Value) → Ends v (is_valid_timestamp codec json w)
  unfolding is_valid_timestamp
  is_valid_timestamp-Ends v w = elim (Bool-cases (is_blank w)) [
    | inl h ↦ rw h (inl (false, refl))
    | inr h ↦ rw h (
        parsed_or_false-Ends v (codec.fromisoformat (replace zulu offset (as_text codec json w)))
          (strict (replace zulu offset (as_text codec json w))))
  ]

  check_values-Ends : (r : Fields) → Ends (Json.get (codes "amount") r) (check_values codec json r)
  check_values-Ends r =
      let amount = Json.get (codes "amount") r in
      then-Ends _ _ (is_valid_timestamp-Ends amount (Json.get (codes "event_timestamp") r)) (λ b.
        if-Ends b _ _ (then-Ends _ _ (is_valid_amount-Ends amount) (λ good. inl (_, refl)))
          (inl (_, refl)))

  check_fields-Ends :
      (names : List (Text × Reason)) (r : Fields)
      → Ends (Json.get (codes "amount") r) (check_fields codec json names r)
  unfolding check_fields
  check_fields-Ends [] r = check_values-Ends r
  check_fields-Ends ((name, reason) ∷ names) r =
      if-Ends (is_blank (Json.get name r)) _ _ (inl (_, refl)) (check_fields-Ends names r)

  -- The validation of a record returns, unless its amount is an integer that `float` does not hold: then the
  -- overflow may leave it, and no other exception does.
  pub validate_record-Ends :
      (r : Fields) → Ends (Json.get (codes "amount") r) (validate_record codec json (some r))
  unfolding validate_record
  validate_record-Ends no_fields = inl (_, refl)
  validate_record-Ends (field k v fs) = check_fields-Ends (field_reasons codec json) (field k v fs)
