-- ===== src/Producer.antt =====
-- src/producer: the events that a demonstration sends to the lakehouse, a share of them bad on purpose.
pub mod Events
pub mod Messages
pub mod Draws
pub mod Sent
pub mod Rounds
pub mod Ends
pub use Events.{
  take, ten, null_event, malformed_text, event_without_id, event_with_bad_amount, Draw, event_types,
  regions, device_types, event_id,
}
unfoldable pub use Events.{pick, padded, event_fields}
use data_lakehouse.Base.{
  ℕ, zero, suc, ◌+◌, ◌-◌, ◌*◌, ◌^◌, Bool, true, false, not, ◌&&◌, Option, none, some, List, [], ◌∷◌,
  ◌++◌, Text, codes, if◌then◌else◌, ℤ, pos, length, ltb,
}
use data_lakehouse.Base.Strings.Decimal.{decimal, zero_padded}
use data_lakehouse.Base.Strings.Replace.{replace, zulu, offset}
use data_lakehouse.Time.{aware}
use data_lakehouse.Codec.{Codec}
use data_lakehouse.Exec.{Exec, pure, ◌>>=◌, ◌>>◌}
use data_lakehouse.Json.{
  Json, Value, Fields, no_fields, field, null, floating, text, object, Float, finite,
}

-- Messages have a key or none.
pub record Message : Type 0 where
  pub key : Option Text
  pub value : Text

-- What the producer uses of the world: `datetime.now(UTC)` and `time.monotonic()` in microseconds, `random()` as a
-- number over 2 ^ 53, the index that `choice` picks, `randint` above its lower end, `uniform` between 0.5 and 999.99
-- rounded to hundredths, `uuid4().hex`, the flag that a signal turns off, and the client of the broker.
pub record Env (W : Type 0) : Type 0 where
  pub now : Exec W ℤ
  pub monotonic : Exec W ℕ
  pub random : Exec W ℕ
  pub below : ℕ → Exec W ℕ
  pub amount : Exec W Float
  pub hex : Exec W Text
  pub is_running : Exec W Bool
  pub produce : Message → Exec W (Unit {0})
  pub poll : Exec W (Unit {0})
  pub flush : Exec W (Unit {0})
  -- A fraction of a second.
  pub sleep : ℕ → ℕ → Exec W (Unit {0})

-- A double that is `numerator / 2 ^ places`, or its negation.
pub record Rate : Type 0 where
  pub negative : Bool
  pub numerator : ℕ
  pub places : ℕ

abbrev pub is_positive : Rate → Bool
is_positive rate = not rate.negative && ltb 0 rate.numerator

-- `random() < rate`
abbrev pub is_under : ℕ → Rate → Bool
is_under r rate = not rate.negative && ltb (r * 2 ^ rate.places) (rate.numerator * 2 ^ 53)

module _ {W : Type 0} (env : Env W) (codec : Codec) (json : Json) where
  -- `datetime.now(UTC).isoformat()`
  abbrev pub iso_now : Exec W Text
  iso_now = do t ← env.now; pure (codec.isoformat (aware t))

  abbrev pub missing_event_id : Exec W Text
  missing_event_id = do time ← iso_now; pure (json.dumps (object (event_without_id time)))

  abbrev pub null_event_timestamp : Exec W Text
  null_event_timestamp = pure (json.dumps (object null_event))

  abbrev pub invalid_amount : Exec W Text
  invalid_amount = do time ← iso_now; pure (json.dumps (object (event_with_bad_amount time)))

  abbrev pub malformed_json : Exec W Text
  malformed_json = pure malformed_text

  -- The items of `BAD_EVENT_GENERATORS` after the first, which is `missing_event_id`.
  abbrev pub bad_event_generators : List (Exec W Text)
  bad_event_generators = null_event_timestamp ∷ invalid_amount ∷ malformed_json ∷ []

  abbrev pub bad_message : Exec W Message
  bad_message = do
    i ← env.below 4
    raw_payload ← pick missing_event_id bad_event_generators i
    pure record { key = none; value = raw_payload }

  -- `generate_event`, the draws in the order of the code.
  abbrev pub draw : Exec W Draw
  draw = do
    t ← env.now
    hex ← env.hex
    user ← env.below 50000
    account ← env.below 10000
    event_type ← env.below 7
    amount ← env.amount
    region ← env.below 5
    device ← env.below 5
    pure record {
      time = replace offset zulu (codec.isoformat (aware t));
      hex = hex;
      user = user;
      account = account;
      event_type = event_type;
      amount = amount;
      region = region;
      device = device;
    }

  abbrev pub event_message : ℕ → Draw → Message
  event_message sequence d = record {
    key = some (event_id sequence d);
    value = json.dumps (object (event_fields sequence d));
  }

  abbrev pub good_message : ℕ → Exec W Message
  good_message sequence = do d ← draw; pure (event_message sequence d)

  module _ (rate : Rate) where
    -- Whether the next message is a bad one; without a rate nothing is drawn.
    abbrev pub is_bad : Exec W Bool
    is_bad = if is_positive rate then (do r ← env.random; pure (is_under r rate)) else pure false

    abbrev pub publish : ℕ → Exec W (Unit {0})
    publish sequence = do
      bad ← is_bad
      message ← if bad then bad_message else good_message sequence
      env.produce message

    -- The loop over a batch, from the number of messages sent so far; it gives the new number.
    unfoldable pub publish_batch : ℕ → ℕ → Exec W ℕ
    unfolding pick event_fields replace
    publish_batch zero sequence = pure sequence
    publish_batch (suc n) sequence =
        let rest = publish_batch n (suc sequence) in
        do
          running ← env.is_running
          if running then (do _ ← publish (suc sequence); rest) else pure sequence

    module _ (eps batch_size : ℕ) where
      abbrev pub rate_of_events : ℕ
      rate_of_events = if ltb eps 1 then 1 else eps

      -- `if elapsed < target: time.sleep(target - elapsed)`, over a million times the events per second.
      abbrev pub sleep_rest : ℕ → ℕ → Exec W (Unit {0})
      sleep_rest start finish =
          let elapsed = (finish - start) * rate_of_events in
          let target = batch_size * 1000000 in
          if ltb elapsed target
          then env.sleep (target - elapsed) (1000000 * rate_of_events)
          else pure tt

      -- What a round does after its messages.
      abbrev pub end_round : ℕ → ℕ → Exec W ℕ
      end_round start sent = do
        _ ← env.poll
        finish ← env.monotonic
        _ ← sleep_rest start finish
        pure sent

      abbrev pub produce_round : ℕ → Exec W ℕ
      produce_round sequence = do
        start ← env.monotonic
        sent ← publish_batch batch_size sequence
        end_round start sent

      -- `while _running`, and the flush after it; none if the rounds are used up.
      unfoldable pub produce_all : ℕ → ℕ → Exec W (Option ℕ)
      unfolding publish_batch
      produce_all zero sequence = pure none
      produce_all (suc rounds) sequence = do
        running ← env.is_running
        if running
            then (do sent ← produce_round sequence; produce_all rounds sent)
            else (do _ ← env.flush; pure (some sequence))
