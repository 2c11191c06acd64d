-- ===== src/Quality/Laws.antt =====
-- src/streaming/data_quality.py: which records are valid, and how the validation can end.
use data_lakehouse.Base.{
  ◌≡◌, ◌↔◌, inl, inr, refl, ap, sym, arith, Bool, true, false, Option, none, some, List, [], ◌∷◌,
  Text, All, codes, if◌then◌else◌, Bool-cases,
}
use data_lakehouse.Base.Strings.Space.{strip, lstrip, rstrip_space}
use data_lakehouse.Errors.{Result, ok, raise, ◌>>=◌}
use data_lakehouse.Time.{Datetime}
use data_lakehouse.Codec.{Codec}
use data_lakehouse.Json
use data_lakehouse.Json.{Json, Value, Fields, no_fields, field, integer, object}
use data_lakehouse.Quality.Acceptable.{
  HasInk, IsPresent, Acceptable, time_of, is_blank_text-HasInk, is_blank-IsPresent,
  is_valid_amount-IsAmount,
}
use data_lakehouse.Quality.{
  Reason, ValidationResult, valid, invalid, is_blank, null_event_timestamp, invalid_amount,
  is_valid_amount, is_valid_timestamp, check_amount, check_values, field_reasons, check_fields,
  validate_record, is_value_or_type, parsed_or_false, parse_json_payload, validate_json_string,
  is_blank_text, with_record, object_or_malformed,
}

-- Only an early `return` of a reason keeps a record from being valid.
abbrev passes : Result ValidationResult → Bool
passes (ok v) = v.is_valid
passes (raise e) = false

if-invalid-valid :
    (b : Bool) (reason : Reason) (rest : Result ValidationResult)
    → ((if b then ok (invalid reason) else rest) ≡ ok valid) ↔ ((b ≡ false) × (rest ≡ ok valid))
if-invalid-valid true reason rest = (λ h. absurd (cc (ap passes h)), λ h. absurd (cc (h.0)))
if-invalid-valid false reason rest = (λ h. (refl, h), λ h. h.1)

if-valid-valid :
    (r : Result Bool) (reason : Reason)
    → ((do good ← r; ok (if good then valid else invalid reason)) ≡ ok valid) ↔ (r ≡ ok true)
if-valid-valid (ok true) reason = (λ h. refl, λ h. refl)
if-valid-valid (ok false) reason = (λ h. absurd (cc (ap passes h)), λ h. absurd (cc h))
if-valid-valid (raise e) reason = (λ h. absurd (cc h), λ h. absurd (cc h))

then-valid :
    (r : Result Bool) (reason : Reason) (rest : Result ValidationResult)
    → ((do good ← r; if good then rest else ok (invalid reason)) ≡ ok valid)
      ↔ ((r ≡ ok true) × (rest ≡ ok valid))
then-valid (ok true) reason rest = (λ h. (refl, h), λ h. h.1)
then-valid (ok false) reason rest = (λ h. absurd (cc (ap passes h)), λ h. absurd (cc (h.0)))
then-valid (raise e) reason rest = (λ h. absurd (cc h), λ h. absurd (cc (h.0)))

-- A time that was read, or an error that says that it is none.
parsed_or_false-true :
    (r : Result Datetime) → (parsed_or_false r ≡ ok true) ↔ ((d : Datetime) × (r ≡ ok d))
parsed_or_false-true (ok d) = (λ h. (d, refl), λ h. refl)
parsed_or_false-true (raise e) = elim (Bool-cases (is_value_or_type e)) [
  | inl b ↦ rw b (λ h. absurd (cc h), λ h. absurd (cc (h.1)))
  | inr b ↦ rw b (λ h. absurd (cc h), λ h. absurd (cc (h.1)))
]

module _ (codec : Codec) (json : Json) (r : Fields) where
  abbrev pub IsFilled : Text × Reason → Type 0
  IsFilled (name, reason) = is_blank (Json.get name r) ≡ false

  -- What the code has checked of a valid record.
  pub record IsChecked : Type 0 where
    pub present : All IsFilled (field_reasons codec json)
    pub has_time : is_blank (Json.get (codes "event_timestamp") r) ≡ false
    pub time : Datetime
    pub time_eq : time_of codec json (Json.get (codes "event_timestamp") r) ≡ ok time
    pub amount : is_valid_amount (Json.get (codes "amount") r) ≡ ok true

  check_fields-valid :
      (names : List (Text × Reason))
      → (check_fields codec json names r ≡ ok valid)
        ↔ (All IsFilled names × (check_values codec json r ≡ ok valid))
  unfolding check_fields
  check_fields-valid [] = (λ h. (tt, h), λ h. h.1)
  check_fields-valid ((name, reason) ∷ names) =
      let one =
        if-invalid-valid (is_blank (Json.get name r)) reason (check_fields codec json names r) in
      let more = check_fields-valid names in
      (
        λ h. let (a, b) = one.0 h in let (c, d) = more.0 b in ((a, c), d),
        λ h. one.1 (h.0.0, more.1 (h.0.1, h.1)),
      )

  is_valid_timestamp-true :
      (v : Value)
      → (is_valid_timestamp codec json v ≡ ok true)
        ↔ ((is_blank v ≡ false) × ((d : Datetime) × (time_of codec json v ≡ ok d)))
  unfolding is_valid_timestamp
  is_valid_timestamp-true v = elim (Bool-cases (is_blank v)) [
    | inl e ↦ rw e (λ h. absurd (cc h), λ h. absurd (cc (h.0)))
    | inr e ↦ rw e (
      λ h. (refl, (parsed_or_false-true (time_of codec json v)).0 h),
      λ h. (parsed_or_false-true (time_of codec json v)).1 (h.1),
    )
  ]

  check_values-valid : (check_values codec json r ≡ ok valid) ↔ (
      (is_valid_timestamp codec json (Json.get (codes "event_timestamp") r) ≡ ok true)
      × (is_valid_amount (Json.get (codes "amount") r) ≡ ok true))
  check_values-valid =
      let time = is_valid_timestamp codec json (Json.get (codes "event_timestamp") r) in
      let amount = is_valid_amount (Json.get (codes "amount") r) in
      let outer = then-valid time null_event_timestamp (check_amount codec json r) in
      let inner = if-valid-valid amount invalid_amount in
      (λ h. let (a, b) = outer.0 h in (a, inner.0 b), λ h. outer.1 (h.0, inner.1 (h.1)))

  checked-valid : (check_fields codec json (field_reasons codec json) r ≡ ok valid) ↔ IsChecked
  checked-valid =
      let names = check_fields-valid (field_reasons codec json) in
      let time = is_valid_timestamp-true (Json.get (codes "event_timestamp") r) in
      (
        λ h.
            let (present, values) = names.0 h in
            let (t, amount) = check_values-valid.0 values in
            let (has_time, (d, e)) = time.0 t in
            record {
              present = present;
              has_time = has_time;
              time = d;
              time_eq = e;
              amount = amount;
            },
        λ a.
            names.1 (
              a.present,
              check_values-valid.1 (time.1 (a.has_time, (a.time, a.time_eq)), a.amount),
            ),
      )

paired_inv :
    {A B : Type 0} (x : Result A) {p b : B} {a : A}
    → ◌>>=◌ {B = A × B} x (λ v. ok (v, p)) ≡ ok (a, b)
    → (x ≡ ok a) × (p ≡ b)
paired_inv (ok v) h = (cc h, cc h)
paired_inv (raise e) h = absurd (cc h)

module _ (codec : Codec) (json : Json) (r : Fields) where
  object-parsed :
      (v : Result Value)
      → (object_or_malformed codec json v ≡ ok (some r, none)) ↔ (v ≡ ok (object r))
  object-parsed v = ground arith

  pub parse_json_payload-parsed :
      (raw : Text)
      → (parse_json_payload codec json raw ≡ ok (some r, none))
        ↔ ((is_blank_text raw ≡ false) × (json.loads raw ≡ ok (object r)))
  unfolding parse_json_payload strip lstrip rstrip_space
  parse_json_payload-parsed [] = (λ h. absurd (cc h), λ h. absurd (cc (h.0)))
  parse_json_payload-parsed (c ∷ t) = elim (Bool-cases (is_blank_text (c ∷ t))) [
    | inl e ↦ rw e (λ h. absurd (cc h), λ h. absurd (cc (h.0)))
    | inr e ↦
        let parsed = object-parsed (json.loads (c ∷ t)) in
        rw e (λ h. (refl, parsed.0 h), λ h. parsed.1 (h.1))
  ]

  with_record-valid :
      (p : Result (Option Fields × Option Reason))
      → ((do x ← p; with_record codec json x) ≡ ok (valid, some r))
      → (p ≡ ok (some r, none)) × (validate_record codec json (some r) ≡ ok valid)
  with_record-valid (raise e) h = absurd (cc h)
  with_record-valid (ok (parsed, some reason)) h = absurd (cc h)
  with_record-valid (ok (parsed, none)) h =
      let (a, b) = paired_inv (validate_record codec json parsed) h in (cc b, rw (sym b) a)

module _ (codec : Codec) (json : Json) where
  pub validate_record-IsChecked :
      (r : Fields) → (validate_record codec json (some r) ≡ ok valid) ↔ IsChecked codec json r
  unfolding validate_record is_blank Json.get
  validate_record-IsChecked no_fields =
      (λ h. absurd (cc (ap passes h)), λ a. absurd (cc (a.present.0)))
  validate_record-IsChecked (field k v fs) = checked-valid codec json (field k v fs)

  pub validate_json_string-IsChecked :
      (raw : Text) (r : Fields)
      → (validate_json_string codec json raw ≡ ok (valid, some r))
        ↔ ((is_blank_text raw ≡ false) × (json.loads raw ≡ ok (object r)) × IsChecked codec json r)
  unfolding validate_json_string
  validate_json_string-IsChecked raw r =
      let parsed = parse_json_payload-parsed codec json r raw in
      let checked = validate_record-IsChecked r in
      (
        λ h.
            let (p, v) = with_record-valid codec json r (parse_json_payload codec json raw) h in
            let (a, b) = parsed.0 p in (a, b, checked.0 v),
        λ h. rw (parsed.1 (h.0, h.1), checked.1 (h.2)) refl,
      )

  -- What is checked is what is described.
  IsChecked-Acceptable : (r : Fields) → IsChecked codec json r ↔ Acceptable codec json r
  IsChecked-Acceptable r =
      let filled : (name : Text)
          → (is_blank (Json.get name r) ≡ false) ↔ IsPresent (Json.get name r) =
        λ name. is_blank-IsPresent (Json.get name r) in
      let amount = is_valid_amount-IsAmount (Json.get (codes "amount") r) in
      (
        λ c. record {
          event_id = (filled (codes "event_id")).0 c.present.0;
          user_id = (filled (codes "user_id")).0 c.present.1.0;
          account_id = (filled (codes "account_id")).0 c.present.1.1.0;
          event_type = (filled (codes "event_type")).0 c.present.1.1.1.0;
          event_timestamp = (filled (codes "event_timestamp")).0 c.has_time;
          time = c.time;
          time_eq = c.time_eq;
          amount = amount.0 c.amount;
        },
        λ a. record {
          present = (
            (filled (codes "event_id")).1 a.event_id,
            (
              (filled (codes "user_id")).1 a.user_id,
              (
                (filled (codes "account_id")).1 a.account_id,
                ((filled (codes "event_type")).1 a.event_type, tt),
              ),
            ),
          );
          has_time = (filled (codes "event_timestamp")).1 a.event_timestamp;
          time = a.time;
          time_eq = a.time_eq;
          amount = amount.1 a.amount;
        },
      )

  -- A text is accepted, with what it spells, exactly if it does not consist of white space and spells
  -- an object with an event_id, a user_id, an account_id, an event_type and an event_timestamp,
  -- none of them null or a text of white space, of which the last is read as a time, and with an
  -- amount that is missing, null or a text of white space, or else true or false, or a number that
  -- is at least zero: an integer that a double holds, a double, or a text that spells a number and
  -- is then rounded to a double.
  pub validate_json_string-valid :
      (raw : Text) (r : Fields)
      → (validate_json_string codec json raw ≡ ok (valid, some r))
        ↔ (HasInk raw × (json.loads raw ≡ ok (object r)) × Acceptable codec json r)
  validate_json_string-valid raw r =
      let checked = validate_json_string-IsChecked raw r in
      let ink = is_blank_text-HasInk raw in
      let same = IsChecked-Acceptable r in
      (
        λ h. let c = checked.0 h in (ink.0 c.0, c.1, same.0 c.2),
        λ h. checked.1 (ink.1 h.0, h.1, same.1 h.2),
      )
