-- ===== src/Producer/Draws.antt =====
-- src/producer: what the producer draws for a message, before anything is sent.
use data_lakehouse.Base.{
  ℕ, ◌≡◌, refl, ◌∙◌, true, false, Option, none, some, List, [], ◌∷◌, ◌++◌, Text, Bool-cases, inl,
  inr,
}
use data_lakehouse.Errors.{Exc, Result, ok, raise}
use data_lakehouse.Time.{aware}
use data_lakehouse.Exec.{Exec, pure, ◌>>=◌, Outcome, Outcome-bind, Outcome-map}
use data_lakehouse.Codec.{Codec, IsLawful}
use data_lakehouse.Json.{Json, Fields, object}
use data_lakehouse.Quality.{valid, invalid, Reason, float_at_least_zero, validate_json_string}
use data_lakehouse.Time.{Datetime}
use data_lakehouse.Producer.{
  Message, Env, Draw, Rate, pick, event_without_id, event_with_bad_amount, iso_now, bad_message,
  missing_event_id, event_message, draw, good_message, is_bad, is_positive, is_under,
  bad_event_generators,
}
use data_lakehouse.Producer.Messages.{
  IsFaithful, IsVisible, IsDrawn, pick-All, event_without_id-rejected, null_event-rejected,
  malformed_text-rejected, event_with_bad_amount-rejected, event_fields-accepted,
}

-- The messages that the client has taken, in order: `produce` adds its message, unless it raises, and no other call
-- sends any. An amount is at least zero.
pub record IsHonest {W : Type 0} (env : Env W) (log : W → List Message) : Type 0 where
  pub log-now : (w : W) → log (env.now w).1 ≡ log w
  pub log-monotonic : (w : W) → log (env.monotonic w).1 ≡ log w
  pub log-random : (w : W) → log (env.random w).1 ≡ log w
  pub log-below : (n : ℕ) (w : W) → log (env.below n w).1 ≡ log w
  pub log-amount : (w : W) → log (env.amount w).1 ≡ log w
  pub log-hex : (w : W) → log (env.hex w).1 ≡ log w
  pub log-is_running : (w : W) → log (env.is_running w).1 ≡ log w
  pub log-poll : (w : W) → log (env.poll w).1 ≡ log w
  pub log-flush : (w : W) → log (env.flush w).1 ≡ log w
  pub log-sleep : (a b : ℕ) (w : W) → log (env.sleep a b w).1 ≡ log w
  pub produce_ok :
      (m : Message) (w : W)
      → (env.produce m w).0 ≡ ok tt
      → log (env.produce m w).1 ≡ log w ++ (m ∷ [])
  pub produce_raise :
      (m : Message) (w : W) (e : Exc)
      → (env.produce m w).0 ≡ raise e
      → log (env.produce m w).1 ≡ log w
  pub amount_good :
      (w : W) → Outcome (λ a s. float_at_least_zero a ≡ true) (λ s. Unit) (env.amount w)

module _ {W : Type 0} (log : W → List Message) where
  -- A statement that sends nothing, and whose value has a property.
  abbrev pub Draws : {A : Type 0} → (A → Type 0) → Exec W A → Type 0
  Draws Q m = (w : W) → Outcome (λ a s. Q a × (log s ≡ log w)) (λ s. log s ≡ log w) (m w)

  pub kept-Outcome :
      {A : Type 0} (Q : A → Type 0) (w : W) (r : Result A × W)
      → log r.1 ≡ log w
      → Outcome (λ a s. Q a) (λ s. Unit) r
      → Outcome (λ a s. Q a × (log s ≡ log w)) (λ s. log s ≡ log w) r
  kept-Outcome Q w (ok a, s) h q = (q, h)
  kept-Outcome Q w (raise e, s) h q = h

  pub any-Outcome : {A : Type 0} (r : Result A × W) → Outcome (λ a s. Unit {0}) (λ s. Unit) r
  any-Outcome (ok a, s) = tt
  any-Outcome (raise e, s) = tt

  pub keeps-Draws :
      {A : Type 0} (m : Exec W A) → ((w : W) → log (m w).1 ≡ log w) → Draws (λ a. Unit {0}) m
  keeps-Draws m h w = kept-Outcome (λ a. Unit) w (m w) (h w) (any-Outcome (m w))

  pub Draws-pure : {A : Type 0} (Q : A → Type 0) (a : A) → Q a → Draws Q (pure a)
  Draws-pure Q a q w = (q, refl)

  pub Draws-bind :
      {A B : Type 0} (Q : A → Type 0) (Q' : B → Type 0) (m : Exec W A) (f : A → Exec W B)
      → Draws Q m
      → ((a : A) → Q a → Draws Q' (f a))
      → Draws Q' (m >>= f)
  Draws-bind Q Q' m f hm hf w =
      Outcome-bind _ _ f (m w) (hm w) (λ s h. h)
        (λ a s h.
          Outcome-map (f a s) (λ b s' h'. (h'.0, h'.1 ∙ h.1)) (λ s' h'. h' ∙ h.1) (hf a h.0 s))

module _ {W : Type 0} (env : Env W) (codec : Codec) (json : Json) where
  -- A message with a key is accepted by the validation, and one without is rejected.
  abbrev Judged : Option Text → Text → Type 0
  Judged none value =
      (reason : Reason) × (rest : Option Fields) × (validate_json_string codec json value
        ≡ ok (invalid reason, rest))
  Judged (some key) value =
      (fs : Fields) × (validate_json_string codec json value ≡ ok (valid, some fs))

  abbrev pub IsJudged : Message → Type 0
  IsJudged m = Judged m.key m.value

  module _ (lawful : IsLawful codec) (faithful : IsFaithful json)
      (visible : (d : Datetime) → IsVisible (codec.isoformat d)) (log : W → List Message)
      (honest : IsHonest env log) where
    abbrev IsBad : Text → Type 0
    IsBad value = Judged none value

    iso_now-Draws :
        Draws log (λ t. (d : Datetime) × (t ≡ codec.isoformat d)) (iso_now env codec json)
    iso_now-Draws =
        Draws-bind log (λ t. Unit) (λ t. (d : Datetime) × (t ≡ codec.isoformat d)) env.now
          (λ t. pure (codec.isoformat (aware t))) (keeps-Draws log env.now honest.log-now)
          (λ t h.
            Draws-pure log (λ t. (d : Datetime) × (t ≡ codec.isoformat d))
              (codec.isoformat (aware t)) (aware t, refl))

    -- A generator that takes the time gives a text that is rejected if each text of a time gives one.
    timed-IsBad :
        (f : Text → Text)
        → ((d : Datetime) → IsBad (f (codec.isoformat d)))
        → Draws log IsBad (do time ← iso_now env codec json; pure (f time))
    timed-IsBad f h =
        Draws-bind log (λ t. (d : Datetime) × (t ≡ codec.isoformat d)) IsBad
          (iso_now env codec json) (λ time. pure (f time)) iso_now-Draws
          (λ time (d, e). Draws-pure log IsBad (f time) (rw e (h d)))

    pick-Draws :
        (i : ℕ)
        → Draws log IsBad
            (pick (missing_event_id env codec json) (bad_event_generators env codec json) i)
    pick-Draws i =
        pick-All (Draws log IsBad) (missing_event_id env codec json)
          (bad_event_generators env codec json) i
          (timed-IsBad (λ time. json.dumps (object (event_without_id time)))
            (λ d. (_, _, event_without_id-rejected codec lawful json faithful (codec.isoformat d))))
          (
            Draws-pure log IsBad _ (_, _, null_event-rejected codec lawful json faithful),
            (
              timed-IsBad (λ time. json.dumps (object (event_with_bad_amount time)))
                  (λ d.
                    (_, _, event_with_bad_amount-rejected codec lawful json faithful visible d)),
              (
                Draws-pure log IsBad _ (_, _, malformed_text-rejected codec lawful json faithful),
                tt,
              ),
            ),
          )

    pub bad_message-Draws : Draws log IsJudged (bad_message env codec json)
    bad_message-Draws =
        Draws-bind log (λ i. Unit) IsJudged (env.below 4) _
          (keeps-Draws log (env.below 4) (honest.log-below 4))
          (λ i h.
            Draws-bind log IsBad IsJudged
              (pick (missing_event_id env codec json) (bad_event_generators env codec json) i) _
              (pick-Draws i)
              (λ value bad. Draws-pure log IsJudged (record { key = none; value = value }) bad))

    -- A draw that has no property of its own.
    free :
        {A B : Type 0} (Q : B → Type 0) (m : Exec W A) (f : A → Exec W B)
        → ((w : W) → log (m w).1 ≡ log w)
        → ((a : A) → Draws log Q (f a))
        → Draws log Q (m >>= f)
    free Q m f kept h = Draws-bind log (λ a. Unit) Q m f (keeps-Draws log m kept) (λ a u. h a)

    abbrev Drawn : Draw → Type 0
    Drawn d = IsDrawn codec lawful json faithful visible d

    draw-Draws : Draws log Drawn (draw env codec json)
    draw-Draws = free Drawn env.now _ honest.log-now (λ t.
        free Drawn env.hex _ honest.log-hex (λ hex.
          free Drawn (env.below 50000) _ (honest.log-below 50000) (λ user.
            free Drawn (env.below 10000) _ (honest.log-below 10000) (λ account.
              free Drawn (env.below 7) _ (honest.log-below 7) (λ event_type.
                Draws-bind log (λ a. float_at_least_zero a ≡ true) Drawn env.amount _
                  (λ w.
                    kept-Outcome log (λ a. float_at_least_zero a ≡ true) w (env.amount w)
                      (honest.log-amount w) (honest.amount_good w))
                  (λ amount good. free Drawn (env.below 5) _ (honest.log-below 5) (λ region.
                    free Drawn (env.below 5) _ (honest.log-below 5) (λ device.
                      Draws-pure log Drawn _
                        (record { now = aware t; time_eq = refl; amount = good })))))))))

    pub good_message-Draws :
        (sequence : ℕ) → Draws log IsJudged (good_message env codec json sequence)
    good_message-Draws sequence =
        Draws-bind log Drawn IsJudged (draw env codec json) _ draw-Draws (λ d drawn.
          Draws-pure log IsJudged (event_message env codec json sequence d)
            (_, event_fields-accepted codec lawful json faithful visible sequence d drawn))

    pub is_bad-Draws : (rate : Rate) → Draws log (λ b. Unit {0}) (is_bad env codec json rate)
    is_bad-Draws rate = elim (Bool-cases (is_positive rate)) [
      | inl e ↦ rw e (
          free (λ b. Unit) env.random _ honest.log-random
            (λ r. Draws-pure log (λ b. Unit {0}) (is_under r rate) tt))
      | inr e ↦ rw e (Draws-pure log (λ b. Unit) false tt)
    ]
