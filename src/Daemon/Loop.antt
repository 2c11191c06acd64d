-- ===== src/Daemon/Loop.antt =====
-- src/compactor/compaction_daemon.py: `run_daemon`, and `main` after its arguments are parsed. A signal
-- may come in any call: the flag `_running` is read from the world. Setting the handlers is left out.
use data_lakehouse.Base.{
  ℕ, zero, suc, ◌≤◌, ◌<◌, ◌≡◌, Bool, true, false, ◌&&◌, ◌||◌, Option, none, some, Text, ℤ, pos,
  ◌-ℤ◌, ltb_ℤ, if◌then◌else◌, arith, Bool-cases, inl, inr,
}
use data_lakehouse.Errors.{ok}
use data_lakehouse.Exec.{Exec, pure, gets, try_else, ◌>>=◌, ◌>>◌, outcome-cases, pair_ok}
use data_lakehouse.Time.{seconds}
use data_lakehouse.Config.{Config}
use data_lakehouse.Locks.{has_text}
use data_lakehouse.Metrics.{exit_code, exit_success}
use data_lakehouse.Daemon.{World}
use data_lakehouse.Daemon.Cycle.{run_compaction_cycle, run_dry_run}

-- The flag, `time.monotonic()` and `time.sleep`, in microseconds.
pub record Process (W : Type 0) : Type 0 where
  pub is_running : W → Bool
  pub monotonic : W → ℤ × W
  pub sleep : ℤ → Exec W (Unit {0})

-- The arguments of the command; the parser lets only one of the three modes be given.
pub record Arguments : Type 0 where
  pub dry_run : Bool
  pub once : Bool
  pub partition : Option Text

module _ {W : Type 0} (process : Process W) (env : World W) (config : Config) where
  abbrev read_monotonic : Exec W ℤ
  read_monotonic w = let (t, w') = process.monotonic w in pure t w'

  -- `max(0, interval - elapsed)` is slept if it is positive and no signal has come.
  abbrev pub sleep_rest : ℤ → Exec W (Unit {0})
  sleep_rest rest w =
      if process.is_running w && ltb_ℤ (pos 0) rest then process.sleep rest w else pure tt w

  -- The body of the loop; what a run returns is only logged, and so is what it raises.
  unfoldable pub daemon_cycle : Exec W (Unit {0})
  daemon_cycle = do
    cycle_start ← read_monotonic
    try_else (run_compaction_cycle env config none) (λ metrics. pure tt) (λ exc. pure tt)
    now ← read_monotonic
    sleep_rest (seconds config.compaction_interval_seconds -ℤ (now -ℤ cycle_start))

  -- The loop, for at most `fuel` rounds; whether it has ended by the flag.
  unfoldable pub run_daemon : ℕ → Exec W Bool
  run_daemon zero = pure false
  run_daemon (suc fuel) = do
    running ← gets process.is_running
    if running then daemon_cycle >> run_daemon fuel else pure true

  -- The exit code; none if the daemon has not ended within `fuel` rounds.
  unfoldable pub main : ℕ → Arguments → Exec W (Option ℕ)
  main fuel args =
      if args.dry_run
      then (do metrics ← run_dry_run env config args.partition; pure (some (exit_code metrics)))
      else if args.once || has_text args.partition
      then (do
        metrics ← run_compaction_cycle env config args.partition
        pure (some (exit_code metrics)))
      else (do ended ← run_daemon fuel; pure (if ended then some exit_success else none))

  -- The world after some rounds of the loop.
  abbrev pub after_cycles : ℕ → W → W
  after_cycles zero w = w
  after_cycles (suc n) w = after_cycles n (daemon_cycle w).1

  module _ (sleep_ok : (rest : ℤ) (w : W) → (process.sleep rest w).0 ≡ ok tt) where
    earlier :
        (w : W) (k : ℕ)
        → process.is_running w ≡ true
        → ((j : ℕ) → j < k → process.is_running (after_cycles j (daemon_cycle w).1) ≡ true)
        → (j : ℕ) → j < suc k
        → process.is_running (after_cycles j w) ≡ true
    earlier w k e h zero lt = e
    earlier w k e h (suc j) lt = h j (omega (arith, lt))

    sleep_rest-ok : (rest : ℤ) (w : W) → (sleep_rest rest w).0 ≡ ok tt
    sleep_rest-ok rest w = elim (Bool-cases (process.is_running w && ltb_ℤ (pos 0) rest)) [
      | inl e ↦ rw e (sleep_ok rest w)
      | inr e ↦ rw e
    ]

    daemon_cycle-ok : (w : W) → (daemon_cycle w).0 ≡ ok tt
    unfolding daemon_cycle
    daemon_cycle-ok w =
        elim (outcome-cases (run_compaction_cycle env config none (process.monotonic w).1)) [
          | inl (m, w1, e) ↦ rw e (sleep_rest-ok _ _)
          | inr (exc, w1, e) ↦ rw e (sleep_rest-ok _ _)
        ]

    -- The loop has ended at the first round before which the flag was off.
    pub record EndsAt (fuel n : ℕ) (w : W) : Type 0 where
      pub rounds : ℕ
      pub rounds_le : rounds ≤ n
      pub ended : run_daemon fuel w ≡ (ok true, after_cycles rounds w)
      pub off_then : process.is_running (after_cycles rounds w) ≡ false
      pub on_before : (j : ℕ) → j < rounds → process.is_running (after_cycles j w) ≡ true

    -- No run ends the daemon, however it ends: if sleeping does not raise and the flag is off after `n`
    -- rounds, the loop ends within `n` rounds, before the first round at which the flag is off.
    pub run_daemon-EndsAt :
        (n fuel : ℕ) (w : W)
        → process.is_running (after_cycles n w) ≡ false
        → n < fuel
        → EndsAt fuel n w
    unfolding run_daemon
    run_daemon-EndsAt n zero w off enough = absurd (omega (arith, enough))
    run_daemon-EndsAt zero (suc fuel) w off enough = record {
      rounds = 0;
      rounds_le = omega arith;
      ended = rw off;
      off_then = off;
      on_before = λ j h. absurd (omega (arith, h));
    }
    run_daemon-EndsAt (suc n) (suc fuel) w off enough = elim (Bool-cases (process.is_running w)) [
      | inr e ↦ record {
        rounds = 0;
        rounds_le = omega arith;
        ended = rw e;
        off_then = e;
        on_before = λ j h. absurd (omega (arith, h));
      }
      | inl e ↦
          let r = run_daemon-EndsAt n fuel (daemon_cycle w).1 off (omega (arith, enough)) in
          record {
            rounds = suc r.rounds;
            rounds_le = omega (arith, r.rounds_le);
            ended = rw (e, pair_ok (daemon_cycle w) (daemon_cycle-ok w)) r.ended;
            off_then = r.off_then;
            on_before = λ j h. earlier w (r.rounds) e r.on_before j h;
          }
    ]
