-- ===== src/Producer/Ends.antt =====
-- src/producer/event_producer.py: the loop ends once a signal has come.
use data_lakehouse.Base.{
  ℕ, zero, suc, ◌-◌, ◌*◌, ◌≤◌, ◌<◌, ◌≡◌, refl, Bool, true, false, some, Text, Bool-cases, inl, inr,
  if◌then◌else◌, arith, ltb,
}
use data_lakehouse.Errors.{Result, ok, raise}
use data_lakehouse.Exec.{Exec, pure, ◌>>=◌, Outcome, Outcome-bind, pair_ok, by_outcome, throw}
use data_lakehouse.Codec.{Codec}
use data_lakehouse.Json.{Json}
use data_lakehouse.Producer.{
  Message, Env, Rate, publish, publish_batch, produce_round, produce_all, sleep_rest, is_bad,
  bad_message, good_message, iso_now, rate_of_events, draw, pick, missing_event_id,
  bad_event_generators, is_positive,
}
use data_lakehouse.Producer.Messages.{pick-All}

-- A statement that returns.
abbrev Works : {W A : Type 0} → Exec W A → Type 0
Works {W} m = (w : W) → Outcome (λ a s. Unit {0}) (λ s. ⊥) (m w)

Works-bind :
    {W A B : Type 0} (m : Exec W A) (f : A → Exec W B)
    → Works m
    → ((a : A) → Works (f a))
    → Works (m >>= f)
Works-bind m f hm hf w = Outcome-bind _ _ f (m w) (hm w) (λ s h. h) (λ a s h. hf a s)

-- No call raises.
pub record NeverFails {W : Type 0} (env : Env W) : Type 0 where
  pub now : Works env.now
  pub monotonic : Works env.monotonic
  pub random : Works env.random
  pub below : (n : ℕ) → Works (env.below n)
  pub amount : Works env.amount
  pub hex : Works env.hex
  pub is_running : Works env.is_running
  pub produce : (m : Message) → Works (env.produce m)
  pub poll : Works env.poll
  pub flush : Works env.flush
  pub sleep : (a b : ℕ) → Works (env.sleep a b)

module _ {W : Type 0} (env : Env W) (codec : Codec) (json : Json) (rate : Rate)
    (sound : NeverFails env) where
  timed-Works :
      {A : Type 0} (f : Text → A) → Works (do time ← iso_now env codec json; pure (f time))
  timed-Works f =
      Works-bind (iso_now env codec json) _ (Works-bind env.now _ sound.now (λ t w. tt))
        (λ time w. tt)

  bad_message-Works : Works (bad_message env codec json)
  bad_message-Works = Works-bind (env.below 4) _ (sound.below 4) (λ i.
      Works-bind (pick (missing_event_id env codec json) (bad_event_generators env codec json) i) _
        (pick-All Works (missing_event_id env codec json) (bad_event_generators env codec json) i
          (timed-Works _) ((λ w. tt), (timed-Works _, ((λ w. tt), tt))))
        (λ value w. tt))

  draw-Works : Works (draw env codec json)
  draw-Works = Works-bind env.now _ sound.now (λ t. Works-bind env.hex _ sound.hex (λ hex.
      Works-bind (env.below 50000) _ (sound.below 50000) (λ user.
        Works-bind (env.below 10000) _ (sound.below 10000) (λ account.
          Works-bind (env.below 7) _ (sound.below 7) (λ event_type.
            Works-bind env.amount _ sound.amount (λ amount.
              Works-bind (env.below 5) _ (sound.below 5)
                (λ region. Works-bind (env.below 5) _ (sound.below 5) (λ device w. tt))))))))

  message-Works :
      (bad : Bool) (sequence : ℕ)
      → Works (if bad then bad_message env codec json else good_message env codec json sequence)
  message-Works true sequence = bad_message-Works
  message-Works false sequence = Works-bind (draw env codec json) _ draw-Works (λ d w. tt)

  is_bad-Works : Works (is_bad env codec json rate)
  is_bad-Works = elim (Bool-cases (is_positive rate)) [
    | inl e ↦ rw e (Works-bind env.random _ sound.random (λ r w. tt))
    | inr e ↦ rw e (λ w. tt)
  ]

  publish-Works : (sequence : ℕ) → Works (publish env codec json rate sequence)
  publish-Works sequence = Works-bind (is_bad env codec json rate) _ is_bad-Works (λ bad.
      Works-bind (if bad then bad_message env codec json else good_message env codec json sequence)
        _ (message-Works bad sequence) (λ m. sound.produce m))

  publish_batch-Works : (n sequence : ℕ) → Works (publish_batch env codec json rate n sequence)
  unfolding publish_batch
  publish_batch-Works zero sequence = λ w. tt
  publish_batch-Works (suc n) sequence = Works-bind env.is_running _ sound.is_running (λ running.
      elim (Bool-cases running) [
        | inl e ↦ rw e (
            Works-bind (publish env codec json rate (suc sequence)) _ (publish-Works (suc sequence))
              (λ u. publish_batch-Works n (suc sequence)))
        | inr e ↦ rw e (λ w. tt)
      ])

  module _ (eps batch_size : ℕ) where
    sleep_rest-Works :
        (start finish : ℕ) → Works (sleep_rest env codec json rate eps batch_size start finish)
    sleep_rest-Works start finish =
        elim (Bool-cases (
          ltb ((finish - start) * rate_of_events env codec json rate eps batch_size)
            (batch_size * 1000000))) [ inl e ↦ rw e (sound.sleep _ _) | inr e ↦ rw e (λ w. tt) ]

    produce_round-Works :
        (sequence : ℕ) → Works (produce_round env codec json rate eps batch_size sequence)
    produce_round-Works sequence = Works-bind env.monotonic _ sound.monotonic (λ start.
        Works-bind (publish_batch env codec json rate batch_size sequence) _
          (publish_batch-Works batch_size sequence)
          (λ sent. Works-bind env.poll _ sound.poll (λ u.
            Works-bind env.monotonic _ sound.monotonic (λ finish.
              Works-bind (sleep_rest env codec json rate eps batch_size start finish) _
                (sleep_rest-Works start finish) (λ v w. tt)))))

    -- The number of messages and the world after a round, which begins with a look at the flag.
    abbrev pub after_result : ℕ → Result ℕ × W → ℕ × W
    after_result sequence (ok sent, s) = (sent, s)
    after_result sequence (raise e, s) = (sequence, s)

    abbrev pub after_round : ℕ × W → ℕ × W
    after_round (sequence, w) =
        after_result sequence
          (produce_round env codec json rate eps batch_size sequence (env.is_running w).1)

    abbrev pub after_rounds : ℕ → ℕ × W → ℕ × W
    after_rounds zero now = now
    after_rounds (suc n) now = after_rounds n (after_round now)

    -- The loop returns the number of messages, before the first round at which the flag is off.
    pub record Stops (flag : W → Bool) (fuel n sequence : ℕ) (w : W) : Type 0 where
      pub rounds : ℕ
      pub rounds_le : rounds ≤ n
      pub off_then : flag (after_rounds rounds (sequence, w)).1 ≡ false
      pub returned :
          (produce_all env codec json rate eps batch_size fuel sequence w).0
          ≡ ok (some (after_rounds rounds (sequence, w)).0)

    round-returned :
        (sequence : ℕ) (s : W) (r : Result ℕ × W)
        → Outcome (λ a s. Unit {0}) (λ s. ⊥) r
        → r ≡ (ok (after_result sequence r).0, (after_result sequence r).1)
    round-returned sequence s (ok sent, s') h = refl
    round-returned sequence s (raise e, s') h = absurd h

    flush-returned :
        (sequence : ℕ) (r : Result (Unit {0}) × W)
        → Outcome (λ a s. Unit {0}) (λ s. ⊥) r
        → (by_outcome (λ u. pure (some sequence)) throw r).0 ≡ ok (some sequence)
    flush-returned sequence (ok u, s) h = refl
    flush-returned sequence (raise e, s) h = absurd h

    off-Stops :
        (flag : W → Bool) (fuel n sequence : ℕ) (w : W)
        → ((s : W) → (env.is_running s).0 ≡ ok (flag s))
        → flag w ≡ false
        → Stops flag (suc fuel) n sequence w
    unfolding produce_all
    off-Stops flag fuel n sequence w reads off = record {
      rounds = 0;
      rounds_le = omega arith;
      off_then = off;
      returned =
          rw (pair_ok (env.is_running w) (reads w), off)
            (flush-returned sequence (env.flush (env.is_running w).1)
              (sound.flush (env.is_running w).1));
    }

    -- If no call raises and the flag is read as it is, then the loop ends, with the number of messages so far, before the
    -- first round at which the flag is off, whenever there is one and the fuel allows for more rounds.
    pub produce_all-Stops :
        (flag : W → Bool) (n fuel sequence : ℕ) (w : W)
        → ((s : W) → (env.is_running s).0 ≡ ok (flag s))
        → flag (after_rounds n (sequence, w)).1 ≡ false
        → n < fuel
        → Stops flag fuel n sequence w
    unfolding produce_all
    produce_all-Stops flag n zero sequence w reads off enough = absurd (omega (arith, enough))
    produce_all-Stops flag zero (suc fuel) sequence w reads off enough =
        off-Stops flag fuel 0 sequence w reads off
    produce_all-Stops flag (suc n) (suc fuel) sequence w reads off enough =
        elim (Bool-cases (flag w)) [
          | inr e ↦ off-Stops flag fuel (suc n) sequence w reads e
          | inl e ↦
              let s1 = (env.is_running w).1 in
              let done = produce_round env codec json rate eps batch_size sequence s1 in
              let next = after_result sequence done in
              let rest =
                produce_all-Stops flag n fuel next.0 next.1 reads off (omega (arith, enough)) in
              record {
                rounds = suc rest.rounds;
                rounds_le = omega (arith, rest.rounds_le);
                off_then = rest.off_then;
                returned =
                    rw
                      (
                        pair_ok (env.is_running w) (reads w),
                        e,
                        round-returned sequence s1 done (produce_round-Works sequence s1),
                      )
                      rest.returned;
              }
        ]
