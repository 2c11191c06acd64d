-- ===== src/Tests/Locking.antt =====
-- The lock manager's theorems at a bucket in memory.
use data_lakehouse.Base.{
  List, [], ◌∷◌, ◌≡◌, refl, true, none, some, Text, codes, pos, ◌+ℤ◌, ◌-ℤ◌, ◌*ℤ◌, leb_ℤ,
}
use data_lakehouse.Errors.{ok}
use data_lakehouse.Time.{aware, seconds}
use data_lakehouse.Config.{default_config}
use data_lakehouse.Locks.{CompactionLock}
use data_lakehouse.Locks.Lease.{Lease, take, give_back}
use data_lakehouse.Locks.Manager.{LockManager, acquire, release}
use data_lakehouse.Locks.Slot.{text_of}
use data_lakehouse.Locks.Refinement.{Answers, acquire-take}
use data_lakehouse.Locks.Release.{release-give_back}
use data_lakehouse.Locks.Exclusion.{manager, acquire_at, acquire-acquire}
use data_lakehouse.Locks.Histories.{
  Call, acquiring, releasing, AllRefused, Holds, after, after-Holds,
}
use data_lakehouse.Tests.World.{
  codec, codec-IsLawful, Bucket, peek, s3, s3-IsReliable, clock, empty_bucket, workers_distinct,
  others_distinct,
}

abbrev id : Text
id = codes "event_date=2026-06-11/event_hour=10"

abbrev lock : CompactionLock
lock = record {
  partition_id = id;
  owner_id = codes "a";
  acquired_at = codes "a0";
  expires_at = codes "a3600000000";
  run_id = codes "run1";
}

abbrev worker : LockManager
worker = manager default_config (codes "a") (codes "run1")

-- The lease of another worker, that still runs.
abbrev foreign : Lease
foreign = record {
  owner = codes "b";
  run = codes "run0";
  start = pos 0;
  duration = seconds (pos 3600);
}

acquire-take_example :
    Answers codec peek worker id empty_bucket
      (acquire clock s3 codec worker id (some (aware (pos 5))) (some (codes "run1")) empty_bucket)
      (take (codes "a") (codes "run1") (seconds (pos 3600)) (pos 5) none)
acquire-take_example =
    acquire-take clock s3 codec peek s3-IsReliable codec-IsLawful worker id (codes "run1") (pos 5)
      refl none empty_bucket refl

-- The bucket in which the other worker's lock stands under every key.
abbrev held_by_other : Bucket
held_by_other key = text_of codec id (some foreign)

release-give_back_example :
    Answers codec peek worker id held_by_other
      (release clock s3 codec worker id held_by_other)
      (tt, give_back (codes "a") (some foreign))
release-give_back_example =
    release-give_back clock s3 codec peek s3-IsReliable codec-IsLawful worker id (some foreign)
      held_by_other refl

acquire-acquire_example :
    let first =
      acquire_at clock s3 codec peek s3-IsReliable codec-IsLawful default_config id
        (codes "a")
        (codes "run1")
        (pos 0)
        empty_bucket in
    (first.0 ≡ ok true)
    × ((acquire_at clock s3 codec peek s3-IsReliable codec-IsLawful default_config id
          (codes "b")
          (codes "run2")
          (pos 7)
          first.1).0
        ≡ ok (leb_ℤ (pos 0 +ℤ seconds (pos 3600)) (pos 7)))
acquire-acquire_example =
    acquire-acquire clock s3 codec peek s3-IsReliable codec-IsLawful default_config id (codes "a")
      (codes "b") (codes "run1") (codes "run2") (pos 0) (pos 7) empty_bucket workers_distinct refl

abbrev other_id : Text
other_id = codes "event_date=2026-06-11/event_hour=9"

-- Worker "a" asks twice for the lock of worker "b", and releases it in between.
abbrev intrusions : List Call
intrusions =
    acquiring (codes "a") (codes "run1") (pos 5)
    ∷ releasing (codes "a")
    ∷ acquiring (codes "a") (codes "run1") (pos 6)
    ∷ []

after-Holds_example :
    AllRefused clock s3 codec default_config id intrusions held_by_other
    × Holds clock s3 codec default_config id peek s3-IsReliable codec-IsLawful foreign
        (after clock s3 codec default_config id intrusions held_by_other)
unfolding ◌+ℤ◌ ◌-ℤ◌ ◌*ℤ◌
after-Holds_example =
    after-Holds clock s3 codec default_config id peek s3-IsReliable codec-IsLawful foreign
      intrusions held_by_other refl
      ((others_distinct, refl), (others_distinct, ((others_distinct, refl), tt)))
