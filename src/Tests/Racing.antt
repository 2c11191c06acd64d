-- ===== src/Tests/Racing.antt =====
-- The theorems on several workers, at a bucket in memory.
use data_lakehouse.Base.{
  ◌≡◌, refl, true, false, some, Text, codes, pos, ◌+ℤ◌, ◌*ℤ◌, arith, text_dec, ℕ_discrete,
}
use data_lakehouse.Errors.{ok}
use data_lakehouse.Exec.{pure, ◌>>=◌}
use data_lakehouse.Time.{seconds}
use data_lakehouse.Config.{default_config}
use data_lakehouse.Locks.Lease.{Lease, take}
use data_lakehouse.Locks.Manager.{LockManager}
use data_lakehouse.Locks.Refinement.{Answers}
use data_lakehouse.Locks.Exclusion.{manager}
use data_lakehouse.Locks.Race.{Attempt, idle, starting, granted, is_holding, attempt}
use data_lakehouse.Locks.Race.Alone.{attempt-take}
use data_lakehouse.Locks.Race.System.{System, here, begins, goes_on, begin, turn, calm_turn}
use data_lakehouse.Locks.Race.Safety.{IsSafe, Reach-IsSafe, holds}
use data_lakehouse.Locks.Race.Mutual.{IsExclusive, Reach-IsExclusive}
use data_lakehouse.Locks.Race.Clash.{turns, racing, turns-granted}
use data_lakehouse.Locks.Slot.{text_of}
use data_lakehouse.Tests.World.{
  codec, codec-IsLawful, Bucket, peek, s3, s3-IsReliable, clock, empty_bucket, workers_distinct,
}

abbrev id : Text
id = codes "event_date=2026-06-11/event_hour=10"

abbrev worker_a : LockManager
worker_a = manager default_config (codes "a") (codes "run1")

-- A lock whose time has passed stands under every key.
abbrev old : Lease
old = record { owner = codes "b"; run = codes "run0"; start = pos 0; duration = seconds (pos 3600) }

abbrev stale_bucket : Bucket
stale_bucket key = text_of codec id (some old)

abbrev late : Attempt
late = record { now = pos 7200000000; run = codes "run1" }

attempt-take_example :
    Answers codec peek worker_a id stale_bucket
      ((do phase ← attempt clock s3 codec worker_a id 4 (starting late); pure (is_holding phase))
        stale_bucket)
      (take (codes "a") (codes "run1") (seconds (pos 3600)) (pos 7200000000) (some old))
attempt-take_example =
    attempt-take clock s3 codec peek s3-IsReliable codec-IsLawful worker_a id late 0 (some old)
      stale_bucket refl refl

-- Nobody has begun.
abbrev quiet : System Bucket
quiet = record { world = empty_bucket; phase = λ owner. idle }

abbrev early : Attempt
early = record { now = pos 5; run = codes "run1" }

abbrev later : Attempt
later = record { now = pos 7; run = codes "run2" }

-- Both workers have begun, and "a" has had its first turn.
abbrev begun : System Bucket
begun = begin (codes "b") later (begin (codes "a") early quiet)

Reach-IsSafe_example :
    IsSafe clock s3 codec default_config id peek
      (turn clock s3 codec default_config id (codes "a") begun).1
unfolding text_dec ℕ_discrete
Reach-IsSafe_example =
    Reach-IsSafe clock s3 codec peek s3-IsReliable codec-IsLawful default_config id {start = quiet}
      (refl, λ owner. refl)
      (goes_on (begins (begins here (codes "a") early refl tt) (codes "b") later refl tt)
        (codes "a"))

abbrev after_two : System Bucket
after_two =
    (calm_turn clock s3 codec default_config id (codes "a")
      (calm_turn clock s3 codec default_config id (codes "a") begun).1).1

Reach-IsExclusive_example :
    IsExclusive clock s3 codec peek s3-IsReliable codec-IsLawful default_config id after_two
unfolding text_dec ℕ_discrete ◌+ℤ◌ ◌*ℤ◌
Reach-IsExclusive_example =
    Reach-IsExclusive clock s3 codec peek s3-IsReliable codec-IsLawful default_config id (pos 0)
      {start = quiet} (refl, λ owner. refl)
      (goes_on
        (goes_on
          (begins (begins here (codes "a") early refl (omega arith, omega arith)) (codes "b") later
            refl (omega arith, omega arith))
          (codes "a"))
        (codes "a"))

turns-granted_example :
    let last =
      turns clock s3 codec default_config id
        (racing clock s3 codec peek s3-IsReliable codec-IsLawful default_config id
          (codes "a")
          (codes "b")
          workers_distinct)
        begun in
    (last.phase (codes "a") ≡ granted)
    × (last.phase (codes "b") ≡ granted)
    × (holds clock s3 codec default_config id (codes "a") last ≡ ok false)
    × (holds clock s3 codec default_config id (codes "b") last ≡ ok true)
turns-granted_example =
    turns-granted clock s3 codec peek s3-IsReliable codec-IsLawful default_config id (codes "a")
      (codes "b") workers_distinct early later quiet (refl, λ owner. refl)
