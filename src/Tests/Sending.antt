-- ===== src/Tests/Sending.antt =====
-- The theorems on the producer, with a broker in memory and a signal after some looks at the flag.
use data_lakehouse.Base.{
  ℕ, ◌^◌, ◌-◌, ◌≡◌, refl, Bool, false, some, List, [], ◌∷◌, ◌++◌, codes, pos, negsuc, ltb, arith,
}
use data_lakehouse.Base.Strings.Space.{is_space}
use data_lakehouse.Errors.{ok}
use data_lakehouse.Time.{Datetime, naive, aware}
use data_lakehouse.Exec.{Outcome}
use data_lakehouse.Json.{finite}
use data_lakehouse.Producer.{Message, Env, Rate, publish_batch, produce_all}
use data_lakehouse.Quality.{float_at_least_zero}
use data_lakehouse.Producer.Messages.{IsVisible}
use data_lakehouse.Producer.Draws.{IsHonest}
use data_lakehouse.Producer.Sent.{SomeSent}
use data_lakehouse.Producer.Rounds.{Finished, produce_all-Finished}
use data_lakehouse.Producer.Ends.{NeverFails, after_rounds, Stops, produce_all-Stops}
use data_lakehouse.Tests.World.{codec, codec-IsLawful}
use data_lakehouse.Tests.Encoding.{json, json-IsFaithful}

-- How often the flag is still on, and the messages that the broker has.
record Broker : Type 0 where
  looks : ℕ
  messages : List Message

abbrev log : Broker → List Message
log w = w.messages

abbrev flag : Broker → Bool
flag w = ltb 0 w.looks

-- Every other number that is drawn is one half.
abbrev half_if_odd : List Message → ℕ
half_if_odd [] = 0
half_if_odd (m ∷ []) = 2 ^ 52
half_if_odd (m ∷ k ∷ ms) = half_if_odd ms

abbrev env : Env Broker
env = record {
  now = λ w. (ok (pos 5), w);
  monotonic = λ w. (ok 0, w);
  random = λ w. (ok (half_if_odd w.messages), w);
  below = λ n w. (ok 0, w);
  amount = λ w. (ok (finite false 1 (pos 0)), w);
  hex = λ w. (ok (codes "0123456789"), w);
  is_running = λ w. (ok (flag w), record { looks = w.looks - 1; messages = w.messages });
  produce = λ m w. (ok tt, record { looks = w.looks; messages = w.messages ++ (m ∷ []) });
  poll = λ w. (ok tt, w);
  flush = λ w. (ok tt, w);
  sleep = λ a b w. (ok tt, w);
}

env-IsHonest : IsHonest env log
unfolding float_at_least_zero
env-IsHonest = record {
  log-now = λ w. refl;
  log-monotonic = λ w. refl;
  log-random = λ w. refl;
  log-below = λ n w. refl;
  log-amount = λ w. refl;
  log-hex = λ w. refl;
  log-is_running = λ w. refl;
  log-poll = λ w. refl;
  log-flush = λ w. refl;
  log-sleep = λ a b w. refl;
  produce_ok = λ m w h. refl;
  produce_raise = λ m w e h. absurd (cc h);
  amount_good = λ w. refl;
}

env-NeverFails : NeverFails env
env-NeverFails = record {
  now = λ w. tt;
  monotonic = λ w. tt;
  random = λ w. tt;
  below = λ n w. tt;
  amount = λ w. tt;
  hex = λ w. tt;
  is_running = λ w. tt;
  produce = λ m w. tt;
  poll = λ w. tt;
  flush = λ w. tt;
  sleep = λ a b w. tt;
}

times-IsVisible : (d : Datetime) → IsVisible (codec.isoformat d)
unfolding is_space
times-IsVisible (naive (pos n)) = (_, _, refl, refl)
times-IsVisible (naive (negsuc n)) = (_, _, refl, refl)
times-IsVisible (aware (pos n)) = (_, _, refl, refl)
times-IsVisible (aware (negsuc n)) = (_, _, refl, refl)

-- A bad message, with a chance of one half.
abbrev rate : Rate
rate = record { negative = false; numerator = 1; places = 1 }

-- The flag is on for six looks: two rounds of two messages.
abbrev start : Broker
start = record { looks = 6; messages = [] }

produce_all-Finished_example :
    Outcome
      (λ r s.
        Finished env codec json log codec-IsLawful json-IsFaithful times-IsVisible env-IsHonest rate
          50 2 0 start r s)
      (SomeSent env codec json log start)
      (produce_all env codec json rate 50 2 9 0 start)
produce_all-Finished_example =
    produce_all-Finished env codec json log codec-IsLawful json-IsFaithful times-IsVisible
      env-IsHonest rate 50 2 9 0 start

off_after_two : flag (after_rounds env codec json rate env-NeverFails 50 2 2 (0, start)).1 ≡ false
unfolding publish_batch
off_after_two = refl

produce_all-Stops_example : Stops env codec json rate env-NeverFails 50 2 flag 9 2 0 start
produce_all-Stops_example =
    produce_all-Stops env codec json rate env-NeverFails 50 2 flag 2 9 0 start (λ s. refl)
      off_after_two (omega arith)

four_sent : (produce_all env codec json rate 50 2 9 0 start).0 ≡ ok (some 4)
unfolding produce_all
four_sent = refl
