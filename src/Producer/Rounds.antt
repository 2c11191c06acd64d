-- ===== src/Producer/Rounds.antt =====
-- src/producer/event_producer.py: what `main` sends, round by round.
use data_lakehouse.Base.{
  ℕ, zero, suc, ◌+◌, ◌-◌, ◌*◌, ◌≡◌, refl, ◌∙◌, Option, none, some, List, Bool-cases, inl, inr,
  arith, ltb,
}
use data_lakehouse.Time.{Datetime}
use data_lakehouse.Exec.{Outcome, Outcome-bind, Outcome-map}
use data_lakehouse.Codec.{Codec, IsLawful}
use data_lakehouse.Json.{Json}
use data_lakehouse.Producer.{
  Message, Env, Rate, publish_batch, produce_round, end_round, produce_all, sleep_rest,
  rate_of_events,
}
use data_lakehouse.Producer.Messages.{IsFaithful, IsVisible}
use data_lakehouse.Producer.Draws.{IsHonest, Draws, Draws-pure, Draws-bind, keeps-Draws}
use data_lakehouse.Producer.Sent.{
  Sent, SomeSent, Sent-none, Sent-trans, Sent-kept, Counted, Counted-trans, publish_batch-Outcome,
}

module _ {W : Type 0} (env : Env W) (codec : Codec) (json : Json) (log : W → List Message)
    (lawful : IsLawful codec) (faithful : IsFaithful json)
    (visible : (d : Datetime) → IsVisible (codec.isoformat d)) (honest : IsHonest env log)
    (rate : Rate) (eps batch_size : ℕ) where
  sleep_rest-Draws :
      (start finish : ℕ)
      → Draws log (λ u. Unit {0}) (sleep_rest env codec json rate eps batch_size start finish)
  sleep_rest-Draws start finish =
      elim (Bool-cases (
        ltb ((finish - start) * rate_of_events env codec json rate eps batch_size)
          (batch_size * 1000000))) [
            | inl e ↦ rw e (keeps-Draws log _ (honest.log-sleep _ _))
            | inr e ↦ rw e (Draws-pure log (λ u. Unit {0}) tt tt)
          ]

  end_round-Draws :
      (start sent : ℕ)
      → Draws log (λ r. r ≡ sent) (end_round env codec json rate eps batch_size start sent)
  end_round-Draws start sent =
      Draws-bind log (λ u. Unit {0}) (λ r. r ≡ sent) env.poll _
        (keeps-Draws log env.poll honest.log-poll)
        (λ u h.
          Draws-bind log (λ u. Unit {0}) (λ r. r ≡ sent) env.monotonic _
            (keeps-Draws log env.monotonic honest.log-monotonic)
            (λ finish h'.
              Draws-bind log (λ u. Unit {0}) (λ r. r ≡ sent)
                (sleep_rest env codec json rate eps batch_size start finish) _
                (sleep_rest-Draws start finish)
                (λ v h''. Draws-pure log (λ r. r ≡ sent) sent refl)))

  produce_round-Outcome :
      (sequence : ℕ) (w : W)
      → Outcome
          (λ sent s.
            Counted env codec json log lawful faithful visible honest rate sequence w sent s)
          (SomeSent env codec json log w)
          (produce_round env codec json rate eps batch_size sequence w)
  produce_round-Outcome sequence w =
      Outcome-bind _ _ _ (env.monotonic w) (keeps-Draws log env.monotonic honest.log-monotonic w)
        (λ s e. (0, Sent-none env codec json log w s e))
        (λ start s1 h1.
          Outcome-bind _ _ _ (publish_batch env codec json rate batch_size sequence s1)
            (publish_batch-Outcome env codec json log lawful faithful visible honest rate batch_size
              sequence s1)
            (λ s (k, sent). (
              0 + k,
              Sent-trans env codec json log 0 k w s1 s (Sent-none env codec json log w s1 h1.1)
                  sent,
            ))
            (λ sent s2 (k, e, after).
              let whole =
                Sent-trans env codec json log 0 k w s1 s2 (Sent-none env codec json log w s1 h1.1)
                  after in
              Outcome-map (end_round env codec json rate eps batch_size start sent s2)
                (λ r s h. (
                  0 + k,
                  omega (arith, h.0, e),
                  Sent-kept env codec json log (0 + k) w s2 s whole h.1,
                ))
                (λ s same. (0 + k, Sent-kept env codec json log (0 + k) w s2 s whole same))
                (end_round-Draws start sent s2)))

  -- What the loop returns: the number of messages, if it has ended within its rounds.
  abbrev pub Finished : ℕ → W → Option ℕ → W → Type 0
  Finished sequence w none s = SomeSent env codec json log w s
  Finished sequence w (some sent) s =
      Counted env codec json log lawful faithful visible honest rate sequence w sent s

  Finished-trans :
      (sequence k : ℕ) (r : Option ℕ) (w w1 s : W)
      → Sent env codec json log k w w1
      → Finished (sequence + k) w1 r s
      → Finished sequence w r s
  Finished-trans sequence k none w w1 s before (m, after) =
      (k + m, Sent-trans env codec json log k m w w1 s before after)
  Finished-trans sequence k (some sent) w w1 s before counted =
      Counted-trans env codec json log lawful faithful visible honest rate sequence k sent w w1 s
        before counted

  -- The loop sends only messages that the validation judges as they are meant, the events accepted and the bad ones
  -- rejected, also if it fails; and if it ends, it has counted them.
  pub produce_all-Finished :
      (rounds sequence : ℕ) (w : W)
      → Outcome
          (λ r s. Finished sequence w r s)
          (SomeSent env codec json log w)
          (produce_all env codec json rate eps batch_size rounds sequence w)
  unfolding produce_all
  produce_all-Finished zero sequence w = (0, Sent-none env codec json log w w refl)
  produce_all-Finished (suc rounds) sequence w =
      Outcome-bind _ _ _ (env.is_running w) (keeps-Draws log env.is_running honest.log-is_running w)
        (λ s e. (0, Sent-none env codec json log w s e))
        (λ running s1 h1. elim (Bool-cases running) [
          | inr e ↦ rw e (
              Outcome-bind _ _ _ (env.flush s1) (keeps-Draws log env.flush honest.log-flush s1)
                (λ s same. (0, Sent-none env codec json log w s (same ∙ h1.1)))
                (λ u s h. (0, omega arith, Sent-none env codec json log w s (h.1 ∙ h1.1))))
          | inl e ↦
              let start = Sent-none env codec json log w s1 h1.1 in
              rw e (
                Outcome-bind _ _ _ (produce_round env codec json rate eps batch_size sequence s1)
                  (produce_round-Outcome sequence s1)
                  (λ s (k, sent). (0 + k, Sent-trans env codec json log 0 k w s1 s start sent))
                  (λ sent s2 (k, eq, after).
                    let whole = Sent-trans env codec json log 0 k w s1 s2 start after in
                    let total : sent ≡ sequence + (0 + k) = omega (arith, eq) in
                    Outcome-map (produce_all env codec json rate eps batch_size rounds sent s2)
                      (λ r s finished.
                        Finished-trans sequence (0 + k) r w s2 s whole (rw total at finished))
                      (λ s (m, more).
                        (0 + k + m, Sent-trans env codec json log (0 + k) m w s2 s whole more))
                      (produce_all-Finished rounds sent s2)))
        ])
