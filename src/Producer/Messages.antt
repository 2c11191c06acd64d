-- ===== src/Producer/Messages.antt =====
-- src/producer: how src/streaming/data_quality.py judges what the producer sends.
use data_lakehouse.Base.{
  ℕ, zero, suc, ◌≡◌, refl, ap, ◌∙◌, true, false, none, some, List, [], ◌∷◌, Text, codes, All,
  text_dec, ℕ_discrete, Bool-cases, inl, inr, arith,
}
use data_lakehouse.Base.Strings.Affix.{is_some, strip_prefix}
use data_lakehouse.Base.Strings.Space.{strip, lstrip, rstrip_space, is_space}
use data_lakehouse.Base.Strings.Replace.{
  replace, replace_from, zulu, offset, IsNotZ, replace-replace,
}
use data_lakehouse.Errors.{ok, raise, json_decode_error}
use data_lakehouse.Time.{Datetime}
use data_lakehouse.Codec.{Codec, IsLawful}
use data_lakehouse.Json
use data_lakehouse.Json.{Json, Value, Fields, text, object}
use data_lakehouse.Quality.{
  valid, invalid, Reason, is_blank, is_blank_text, float_at_least_zero, validate_record,
  validate_json_string, parse_json_payload, check_fields, is_valid_timestamp, is_valid_amount,
  text_at_least_zero, missing_event_id, null_event_timestamp, invalid_amount, malformed_json,
}
use data_lakehouse.Quality.Laws.{parse_json_payload-parsed, validate_json_string-IsChecked}
use data_lakehouse.Producer.{
  Draw, event_fields, event_without_id, event_with_bad_amount, null_event, malformed_text, pick,
  event_types,
}

-- `loads` inverts `dumps` of an object, whose text is not blank, and does not read the text of `malformed_json`.
pub record IsFaithful (json : Json) : Type 0 where
  pub loads-dumps : (fs : Fields) → json.loads (json.dumps (object fs)) ≡ ok (object fs)
  pub dumps-is_blank : (fs : Fields) → is_blank_text (json.dumps (object fs)) ≡ false
  pub malformed : (m : Text) × (json.loads malformed_text ≡ raise (json_decode_error m))

abbrev IsShown : Text → Type 0
IsShown t = is_blank_text t ≡ false

-- What holds of all items holds of the one that is picked.
pub pick-All :
    {A : Type 0} (P : A → Type 0) (x : A) (xs : List A) (i : ℕ) → P x → All P xs → P (pick x xs i)
unfolding pick
pick-All P x [] i hx h = hx
pick-All P x (y ∷ ys) zero hx h = hx
pick-All P x (y ∷ ys) (suc i) hx h = pick-All P y ys i h.0 h.1

-- A text that begins with a character that is no white space.
abbrev pub IsVisible : Text → Type 0
IsVisible t = (c : ℕ) × (s : Text) × (t ≡ c ∷ s) × (is_space c ≡ false)

is_blank_text-cons : (c : ℕ) (s : Text) → is_space c ≡ false → is_blank_text (c ∷ s) ≡ false
unfolding strip lstrip rstrip_space
is_blank_text-cons c s h = rw h (rw h refl)

IsVisible-IsShown : (t : Text) → IsVisible t → IsShown t
IsVisible-IsShown t (c, s, e, h) = ap is_blank_text e ∙ is_blank_text-cons c s h

replace-IsVisible : (t : Text) → IsVisible t → IsVisible (replace offset zulu t)
unfolding replace replace_from is_space
replace-IsVisible t (c, s, e, h) = elim (Bool-cases (is_some (strip_prefix offset (c ∷ s)))) [
  | inl b ↦ (b'Z', replace_from 5 offset zulu s, ap (replace offset zulu) e ∙ rw b refl, refl)
  | inr b ↦ (c, replace_from 0 offset zulu s, ap (replace offset zulu) e ∙ rw b refl, h)
]

zulu-absent : (s : Text) → All IsNotZ s → replace_from 0 zulu offset s ≡ s
unfolding replace_from
zulu-absent [] h = refl
zulu-absent (c ∷ s) h = ground (arith, h.0, zulu-absent s h.1)

module _ (codec : Codec) (lawful : IsLawful codec) (json : Json) (faithful : IsFaithful json) where
  rejected :
      (fs : Fields) (reason : Reason)
      → validate_record codec json (some fs) ≡ ok (invalid reason)
      → validate_json_string codec json (json.dumps (object fs)) ≡ ok (invalid reason, some fs)
  unfolding validate_json_string
  rejected fs reason h =
      let parsed =
        (parse_json_payload-parsed codec json fs (json.dumps (object fs))).1
          (faithful.dumps-is_blank fs, faithful.loads-dumps fs) in
      rw (parsed, h) refl

  pub event_without_id-rejected :
      (time : Text)
      → validate_json_string codec json (json.dumps (object (event_without_id time)))
        ≡ ok (invalid missing_event_id, some (event_without_id time))
  unfolding validate_record check_fields is_blank Json.get text_dec ℕ_discrete
  event_without_id-rejected time = rejected (event_without_id time) missing_event_id refl

  pub null_event-rejected :
      validate_json_string codec json (json.dumps (object null_event))
      ≡ ok (invalid null_event_timestamp, some null_event)
  unfolding validate_record check_fields is_blank Json.get text_dec ℕ_discrete is_valid_timestamp
      strip
  null_event-rejected = rejected null_event null_event_timestamp refl

  pub malformed_text-rejected :
      validate_json_string codec json malformed_text ≡ ok (invalid malformed_json, none)
  unfolding validate_json_string parse_json_payload strip lstrip rstrip_space is_space
  malformed_text-rejected = let (m, e) = faithful.malformed in rw e refl

  module _ (visible : (d : Datetime) → IsVisible (codec.isoformat d)) where
    pub event_with_bad_amount-rejected :
        (d : Datetime)
        → validate_json_string codec json
            (json.dumps (object (event_with_bad_amount (codec.isoformat d))))
          ≡ ok (invalid invalid_amount, some (event_with_bad_amount (codec.isoformat d)))
    unfolding validate_record check_fields is_blank Json.get text_dec ℕ_discrete is_valid_timestamp
        is_valid_amount text_at_least_zero strip
    event_with_bad_amount-rejected d =
        let shown = IsVisible-IsShown (codec.isoformat d) (visible d) in
        let read =
          ap codec.fromisoformat (zulu-absent (codec.isoformat d) (lawful.isoformat-IsNotZ d))
          ∙ lawful.fromisoformat-isoformat d in
        rejected (event_with_bad_amount (codec.isoformat d)) invalid_amount (rw (shown, read) refl)

    -- What the draws of `generate_event` are.
    pub record IsDrawn (d : Draw) : Type 0 where
      pub now : Datetime
      pub time_eq : d.time ≡ replace offset zulu (codec.isoformat now)
      pub amount : float_at_least_zero d.amount ≡ true

    pub event_fields-accepted :
        (sequence : ℕ) (d : Draw)
        → IsDrawn d
        → validate_json_string codec json (json.dumps (object (event_fields sequence d)))
          ≡ ok (valid, some (event_fields sequence d))
    unfolding event_fields is_blank Json.get text_dec ℕ_discrete strip is_valid_amount
    event_fields-accepted sequence d drawn =
        (validate_json_string-IsChecked codec json (json.dumps (object (event_fields sequence d)))
            (event_fields sequence d)).1
          (
            faithful.dumps-is_blank (event_fields sequence d),
            faithful.loads-dumps (event_fields sequence d),
            record {
              present = (
                refl,
                (
                  refl,
                  (
                    refl,
                    (
                      pick-All IsShown (codes "purchase") event_types d.event_type refl
                          (refl, (refl, (refl, (refl, (refl, (refl, tt)))))),
                      tt,
                    ),
                  ),
                ),
              );
              has_time =
                  ap is_blank_text drawn.time_eq
                  ∙ IsVisible-IsShown _ (replace-IsVisible _ (visible drawn.now));
              time = drawn.now;
              time_eq =
                  ap (λ t. codec.fromisoformat (replace zulu offset t)) drawn.time_eq
                  ∙ ap codec.fromisoformat (
                      replace-replace (codec.isoformat drawn.now)
                        (lawful.isoformat-IsNotZ drawn.now))
                  ∙ lawful.fromisoformat-isoformat drawn.now;
              amount = ap ok drawn.amount;
            },
          )
