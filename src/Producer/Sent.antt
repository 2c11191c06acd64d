-- ===== src/Producer/Sent.antt =====
-- src/producer/event_producer.py: what the loop sends, and how many messages.
use mathlib.Core.List.{append_assoc, append-nil}
use data_lakehouse.Base.{
  ℕ, zero, suc, ◌+◌, ◌≡◌, refl, ap, sym, ◌∙◌, Bool, true, false, List, [], ◌∷◌, ◌++◌, All,
  Bool-cases, inl, inr, if◌then◌else◌, length, length-append, arith,
}
use data_lakehouse.Errors.{Exc, Result, ok, raise}
use data_lakehouse.Time.{Datetime}
use data_lakehouse.Exec.{Outcome, Outcome-bind, Outcome-map}
use data_lakehouse.Codec.{Codec, IsLawful}
use data_lakehouse.Json.{Json}
use data_lakehouse.Producer.{
  Message, Env, Rate, publish, publish_batch, is_bad, bad_message, good_message,
}
use data_lakehouse.Producer.Messages.{IsFaithful, IsVisible}
use data_lakehouse.Producer.Draws.{
  IsHonest, IsJudged, Draws, bad_message-Draws, good_message-Draws, is_bad-Draws, keeps-Draws,
}

-- What all items of two lists have, all items of both in a row have.
joined-All : {A : Type 0} (P : A → Type 0) (xs ys : List A) → All P xs → All P ys → All P (xs ++ ys)
joined-All P [] ys both_empty h = h
joined-All P (x ∷ xs) ys (first, others) h = (first, joined-All P xs ys others h)

module _ {W : Type 0} (env : Env W) (codec : Codec) (json : Json) (log : W → List Message) where
  -- So many messages have been sent since, and each is judged as it is meant to be.
  pub record Sent (n : ℕ) (w w' : W) : Type 0 where
    pub messages : List Message
    pub log_eq : log w' ≡ log w ++ messages
    pub count : length messages ≡ n
    pub judged : All (IsJudged env codec json) messages

  abbrev pub SomeSent : W → W → Type 0
  SomeSent w w' = (n : ℕ) × Sent n w w'

  pub Sent-none : (w w' : W) → log w' ≡ log w → Sent 0 w w'
  Sent-none w w' e = record {
    messages = [];
    log_eq = e ∙ sym (append-nil (log w));
    count = refl;
    judged = tt;
  }

  pub Sent-trans : (n m : ℕ) (w w1 w2 : W) → Sent n w w1 → Sent m w1 w2 → Sent (n + m) w w2
  Sent-trans n m w w1 w2 a b = record {
    messages = a.messages ++ b.messages;
    log_eq =
        b.log_eq
        ∙ ap (λ xs. xs ++ b.messages) a.log_eq
        ∙ append_assoc (log w) a.messages b.messages;
    count = omega (arith, length-append a.messages b.messages, a.count, b.count);
    judged = joined-All (IsJudged env codec json) a.messages b.messages a.judged b.judged;
  }

  pub Sent-kept : (n : ℕ) (w w1 w2 : W) → Sent n w w1 → log w2 ≡ log w1 → Sent n w w2
  Sent-kept n w w1 w2 a e = record {
    messages = a.messages;
    log_eq = e ∙ a.log_eq;
    count = a.count;
    judged = a.judged;
  }

  module _ (lawful : IsLawful codec) (faithful : IsFaithful json)
      (visible : (d : Datetime) → IsVisible (codec.isoformat d)) (honest : IsHonest env log)
      (rate : Rate) where
    produced :
        (m : Message) (w : W) (r : Result (Unit {0}) × W)
        → IsJudged env codec json m
        → (r.0 ≡ ok tt → log r.1 ≡ log w ++ (m ∷ []))
        → ((e : Exc) → r.0 ≡ raise e → log r.1 ≡ log w)
        → Outcome (λ u s. Sent 1 w s) (SomeSent w) r
    produced m w (ok u, s) j added same = record {
      messages = m ∷ [];
      log_eq = added refl;
      count = refl;
      judged = (j, tt);
    }
    produced m w (raise e, s) j added same = (0, Sent-none w s (same e refl))

    message-Draws :
        (bad : Bool) (sequence : ℕ)
        → Draws log
            (IsJudged env codec json)
            (if bad then bad_message env codec json else good_message env codec json sequence)
    message-Draws true sequence =
        bad_message-Draws env codec json lawful faithful visible log honest
    message-Draws false sequence =
        good_message-Draws env codec json lawful faithful visible log honest sequence

    publish-Outcome :
        (sequence : ℕ) (w : W)
        → Outcome (λ u s. Sent 1 w s) (SomeSent w) (publish env codec json rate sequence w)
    publish-Outcome sequence w =
        Outcome-bind _ _ _ (is_bad env codec json rate w)
          (is_bad-Draws env codec json lawful faithful visible log honest rate w)
          (λ s e. (0, Sent-none w s e))
          (λ bad s1 h1.
            Outcome-bind _ _ _
              ((if bad then bad_message env codec json else good_message env codec json sequence)
                s1)
              (message-Draws bad sequence s1) (λ s e. (0, Sent-none w s (e ∙ h1.1)))
              (λ m s2 h2.
                Outcome-map (env.produce m s2)
                  (λ u s sent. Sent-trans 0 1 w s2 s (Sent-none w s2 (h2.1 ∙ h1.1)) sent)
                  (λ s (n, sent).
                    (0 + n, Sent-trans 0 n w s2 s (Sent-none w s2 (h2.1 ∙ h1.1)) sent))
                  (produced m s2 (env.produce m s2) h2.0 (honest.produce_ok m s2)
                    (honest.produce_raise m s2))))

    publish_after :
        (w s1 : W) (sequence : ℕ)
        → log s1 ≡ log w
        → Outcome (λ u s. Sent 1 w s) (SomeSent w) (publish env codec json rate sequence s1)
    publish_after w s1 sequence e =
        Outcome-map (publish env codec json rate sequence s1)
          (λ u s sent. Sent-trans 0 1 w s1 s (Sent-none w s1 e) sent)
          (λ s (k, sent). (0 + k, Sent-trans 0 k w s1 s (Sent-none w s1 e) sent))
          (publish-Outcome sequence s1)

    add-one : (n : ℕ) → n + 1 ≡ suc n
    add-one n = omega arith

    -- The number that comes out is the number that went in and the messages since.
    abbrev pub Counted : ℕ → W → ℕ → W → Type 0
    Counted sequence w sent s = (k : ℕ) × (sent ≡ sequence + k) × Sent k w s

    pub Counted-trans :
        (sequence k sent : ℕ) (w w1 s : W)
        → Sent k w w1
        → Counted (sequence + k) w1 sent s
        → Counted sequence w sent s
    Counted-trans sequence k sent w w1 s before (m, e, after) =
        (k + m, omega (arith, e), Sent-trans k m w w1 s before after)

    pub publish_batch-Outcome :
        (n sequence : ℕ) (w : W)
        → Outcome
            (λ sent s. Counted sequence w sent s)
            (SomeSent w)
            (publish_batch env codec json rate n sequence w)
    unfolding publish_batch
    publish_batch-Outcome zero sequence w = (0, omega arith, Sent-none w w refl)
    publish_batch-Outcome (suc n) sequence w =
        Outcome-bind _ _ _ (env.is_running w)
          (keeps-Draws log env.is_running honest.log-is_running w) (λ s e. (0, Sent-none w s e))
          (λ running s1 h1. elim (Bool-cases running) [
            | inr e ↦ rw e (0, omega arith, Sent-none w s1 h1.1)
            | inl e ↦ rw e (
                Outcome-bind _ _ _ (publish env codec json rate (suc sequence) s1)
                  (publish_after w s1 (suc sequence) h1.1) (λ s h. h)
                  (λ u s2 h2.
                    Outcome-map (publish_batch env codec json rate n (suc sequence) s2)
                      (λ sent s counted.
                        Counted-trans sequence 1 sent w s2 s h2 (rw (add-one sequence) counted))
                      (λ s (k, sent). (1 + k, Sent-trans 1 k w s2 s h2 sent))
                      (publish_batch-Outcome n (suc sequence) s2)))
          ])
