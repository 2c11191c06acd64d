-- ===== src/Locks/Race/Alone.antt =====
-- src/compactor/lock_manager.py: a worker whose turns nobody interrupts.
use mathlib.Core.Path.{subst}
use data_lakehouse.Base.{
  ℕ, zero, suc, ◌≡◌, refl, ◌∙◌, ap, Bool, true, false, Option, none, some, Text, if◌then◌else◌, ℤ,
  inl, inr, Bool-cases,
}
use data_lakehouse.Errors.{ok}
use data_lakehouse.Exec.{pure, ◌>>=◌, outcome-cases}
use data_lakehouse.Time.{aware, seconds}
use data_lakehouse.Codec
use data_lakehouse.Codec.{Codec}
use data_lakehouse.Storage.{ObjectStore, IsReliable}
use data_lakehouse.Locks.{CompactionLock, text_or}
use data_lakehouse.Locks.Manager.{
  LockManager, write_lock, read_lock, delete_lock, stale_now, remove_stale, cleanup_stale_lock,
  new_lock, take_lock, blocks, acquire, release, is_mine,
}
use data_lakehouse.Locks.Lease.{Lease, take}
use data_lakehouse.Locks.Slot
use data_lakehouse.Locks.Slot.{text_of}
use data_lakehouse.Locks.Refinement.{Answers, acquire-take}
use data_lakehouse.Locks.Race.{
  Attempt, Phase, starting, cleaned, granted, is_decided, advance, attempt, is_holding, removing,
  after_first_read,
}

module _ {W : Type 0} (clock : W → ℤ × W) (s3 : ObjectStore W) (codec : Codec) (m : LockManager)
    (partition_id : Text) where
  attempt-decided :
      (n : ℕ) (phase : Phase) (w : W)
      → is_decided phase ≡ true
      → attempt clock s3 codec m partition_id n phase w ≡ (ok phase, w)
  unfolding attempt
  attempt-decided zero phase w h = refl
  attempt-decided (suc n) phase w h = rw h

  -- From the second read on.
  take_lock-attempt :
      (n : ℕ) (a : Attempt) (w : W)
      → take_lock clock s3 codec m partition_id (aware a.now) a.run w
        ≡ (do
          phase ← attempt clock s3 codec m partition_id (suc (suc n)) (cleaned a)
          pure (is_holding phase))
            w
  unfolding take_lock attempt advance
  take_lock-attempt n a w = elim (outcome-cases (read_lock clock s3 codec m partition_id w)) [
    | inl (existing, s, e) ↦
        rw e (elim (outcome-cases (blocks clock s3 codec m existing (aware a.now) s)) [
          | inl (true, s, f) ↦ rw f
          | inl (false, s, f) ↦
              rw f
                (elim (outcome-cases (
                  write_lock clock s3 codec m
                    (new_lock clock s3 codec m partition_id (aware a.now) a.run) s)) [
                      | inl (done, s, g) ↦ rw (g, attempt-decided n granted s refl)
                      | inr (exc, s, g) ↦ rw g
                    ])
          | inr (exc, s, f) ↦ rw f
        ])
    | inr (exc, s, e) ↦ rw e
  ]

  removed-attempt :
      (n : ℕ) (a : Attempt) (existing : CompactionLock) (w : W)
      → (do
        done ← remove_stale clock s3 codec m partition_id (some existing) (some (aware a.now))
        take_lock clock s3 codec m partition_id (aware a.now) a.run)
          w
        ≡ (do
          phase ← attempt clock s3 codec m partition_id (suc (suc (suc n))) (removing a existing)
          pure (is_holding phase))
            w
  unfolding attempt advance
  removed-attempt n a existing w =
      elim (outcome-cases
        (remove_stale clock s3 codec m partition_id (some existing) (some (aware a.now)) w)) [
          | inl (done, s, e) ↦ rw e (take_lock-attempt n a s)
          | inr (exc, s, e) ↦ rw e
        ]

  cleanup-attempt :
      (n : ℕ) (a : Attempt) (existing : Option CompactionLock) (stale : Bool) (w : W)
      → (do
        done ←
            (if stale
              then remove_stale clock s3 codec m partition_id existing (some (aware a.now))
              else pure false)
        take_lock clock s3 codec m partition_id (aware a.now) a.run)
          w
        ≡ (do
          phase ←
              attempt clock s3 codec m partition_id
                (suc (suc (suc n)))
                (after_first_read clock s3 codec m partition_id a existing stale)
          pure (is_holding phase))
            w
  cleanup-attempt n a (some lock) true w = removed-attempt n a lock w
  cleanup-attempt n a (some lock) false w = take_lock-attempt (suc n) a w
  cleanup-attempt n a none true w = take_lock-attempt (suc n) a w
  cleanup-attempt n a none false w = take_lock-attempt (suc n) a w

  -- The code of `acquire`, cut into the worker's turns, is what it was; four turns are enough.
  acquire-attempt :
      (n : ℕ) (now : ℤ) (run : Option Text) (w : W)
      → acquire clock s3 codec m partition_id (some (aware now)) run w
        ≡ (do
          phase ←
              attempt clock s3 codec m partition_id
                (suc (suc (suc (suc n))))
                (starting (record { now = now; run = text_or run m.run_id }))
          pure (is_holding phase))
            w
  unfolding acquire cleanup_stale_lock attempt advance
  acquire-attempt n now run w = elim (outcome-cases (read_lock clock s3 codec m partition_id w)) [
    | inl (existing, s, e) ↦
        rw e (elim (outcome-cases (stale_now clock s3 codec m existing (some (aware now)) s)) [
          | inl (stale, s, f) ↦ rw f (
              cleanup-attempt n (record { now = now; run = text_or run m.run_id }) existing stale s)
          | inr (exc, s, f) ↦ rw f
        ])
    | inr (exc, s, e) ↦ rw e
  ]

  release-advance :
      (w : W)
      → release clock s3 codec m partition_id w
        ≡ (do
          next ← advance clock s3 codec m partition_id granted
          last ← advance clock s3 codec m partition_id next
          pure tt)
            w
  unfolding release advance
  release-advance w = elim (outcome-cases (read_lock clock s3 codec m partition_id w)) [
    | inl (existing, s, e) ↦ rw e (elim (Bool-cases (is_mine clock s3 codec m existing)) [
      | inl own ↦ rw own (elim (outcome-cases (delete_lock clock s3 codec m partition_id s)) [
        | inl (done, s, g) ↦ rw g
        | inr (exc, s, g) ↦ rw g
      ])
      | inr other ↦ rw other
    ])
    | inr (exc, s, e) ↦ rw e
  ]

module _ {W : Type 0} (clock : W → ℤ × W) (s3 : ObjectStore W) (codec : Codec)
    (peek : W → Text → Text → Option Text) (reliable : IsReliable s3 peek)
    (lawful : Codec.IsLawful codec) (m : LockManager) (partition_id : Text) (a : Attempt) where
  -- Over a reliable store, with texts that are read back as they were written: four turns of a
  -- worker, or more, that nobody interrupts do to the lock of a partition what taking the lease
  -- does, at the time and for the run of the attempt: the worker is given the lock exactly if the
  -- lease can be taken, then its lease is stored, and else the other one still is, and no other
  -- object is touched. The run has a name, and the partition has no lock or that of some lease.
  pub attempt-take :
      (n : ℕ) (o : Option Lease) (w : W)
      → text_or (some a.run) m.run_id ≡ a.run
      → Slot.slot clock s3 codec peek reliable lawful m w partition_id
        ≡ text_of codec partition_id o
      → Answers codec peek m partition_id w
          ((do
            phase ← attempt clock s3 codec m partition_id (suc (suc (suc (suc n)))) (starting a)
            pure (is_holding phase))
            w)
          (take m.owner_id a.run (seconds m.config.lock_timeout_seconds) a.now o)
  attempt-take n o w named stored =
      subst
        (λ r.
          Answers codec peek m partition_id w r
            (take m.owner_id a.run (seconds m.config.lock_timeout_seconds) a.now o))
        (acquire-attempt clock s3 codec m partition_id n a.now (some a.run) w
          ∙ ap
              (λ run.
                (do
                  phase ←
                      attempt clock s3 codec m partition_id (suc (suc (suc (suc n))))
                        (starting (record { now = a.now; run = run }))
                  pure (is_holding phase))
                  w)
              named)
        (acquire-take clock s3 codec peek reliable lawful m partition_id a.run a.now named o w
          stored)
