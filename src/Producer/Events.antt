-- ===== src/Producer/Events.antt =====
-- src/producer: the events, good and bad, by what is drawn for them.
use data_lakehouse.Base.{ℕ, zero, suc, ◌+◌, false, List, [], ◌∷◌, ◌++◌, Text, codes, pos}
use data_lakehouse.Base.Strings.Decimal.{decimal, zero_padded}
use data_lakehouse.Json.{Value, Fields, no_fields, field, null, floating, text, Float, finite}

-- `text[:n]`
abbrev pub take : ℕ → Text → Text
take zero s = []
take (suc n) [] = []
take (suc n) (c ∷ s) = c ∷ take n s

-- The item that `random.choice` takes of a list with a first item.
unfoldable pub pick : {A : Type 0} → A → List A → ℕ → A
pick x [] i = x
pick x (y ∷ ys) zero = x
pick x (y ∷ ys) (suc i) = pick y ys i

-- `f"{n:0{width}d}"`
unfoldable pub padded : ℕ → ℕ → Text
unfolding decimal
padded width n = zero_padded width (decimal n)

abbrev pub ten : Value
ten = floating (finite false 10 (pos 0))

-- The texts of `null_event_timestamp`, which has no time, and of `malformed_json`.
abbrev pub null_event : Fields
null_event = field (codes "event_id") (text (codes "evt-bad-null-ts")) (
    field (codes "user_id") (text (codes "user_00002")) (
      field (codes "account_id") (text (codes "acct_00002")) (
        field (codes "event_type") (text (codes "purchase"))
          (field (codes "amount") ten (field (codes "event_timestamp") null no_fields)))))

abbrev pub malformed_text : Text
malformed_text = codes "{\"event_id\": \"evt-bad-json\", \"user_id\": "

-- `missing_event_id` and `invalid_amount`, at a given time.
abbrev pub event_without_id : Text → Fields
event_without_id time = field (codes "user_id") (text (codes "user_00001")) (
    field (codes "account_id") (text (codes "acct_00001")) (
      field (codes "event_type") (text (codes "purchase"))
        (field (codes "amount") ten (field (codes "event_timestamp") (text time) no_fields))))

abbrev pub event_with_bad_amount : Text → Fields
event_with_bad_amount time = field (codes "event_id") (text (codes "evt-bad-amount")) (
    field (codes "user_id") (text (codes "user_00003")) (
      field (codes "account_id") (text (codes "acct_00003")) (
        field (codes "event_type") (text (codes "refund")) (
          field (codes "amount") (text (codes "not-a-number"))
            (field (codes "event_timestamp") (text time) no_fields)))))

-- The values that `generate_event` has drawn.
pub record Draw : Type 0 where
  pub time : Text
  pub hex : Text
  pub user : ℕ
  pub account : ℕ
  pub event_type : ℕ
  pub amount : Float
  pub region : ℕ
  pub device : ℕ

abbrev pub event_types : List Text
event_types =
    codes "refund"
    ∷ codes "login"
    ∷ codes "logout"
    ∷ codes "click"
    ∷ codes "view"
    ∷ codes "signup"
    ∷ []

abbrev pub regions : List Text
regions = codes "us-west" ∷ codes "eu-central" ∷ codes "ap-south" ∷ codes "ap-northeast" ∷ []

abbrev pub device_types : List Text
device_types = codes "desktop" ∷ codes "tablet" ∷ codes "tv" ∷ codes "wearable" ∷ []

abbrev pub event_id : ℕ → Draw → Text
event_id sequence d = codes "evt-" ++ (padded 10 sequence ++ (codes "-" ++ take 8 d.hex))

unfoldable pub event_fields : ℕ → Draw → Fields
unfolding pick padded
event_fields sequence d = field (codes "event_id") (text (event_id sequence d)) (
    field (codes "user_id") (text (codes "user_" ++ padded 5 (1 + d.user))) (
      field (codes "account_id") (text (codes "acct_" ++ padded 5 (1 + d.account))) (
        field (codes "event_type") (text (pick (codes "purchase") event_types d.event_type)) (
          field (codes "amount") (floating d.amount) (
            field (codes "event_timestamp") (text d.time) (
              field (codes "ingest_timestamp") (text d.time) (
                field (codes "region") (text (pick (codes "us-east") regions d.region)) (
                  field (codes "device_type") (text (pick (codes "mobile") device_types d.device))
                    no_fields))))))))
