-- ===== src/Locks/Refinement.antt =====
-- The lock manager implements the lease of `Locks.Lease`, over a reliable store and for given times.
use data_lakehouse.Base.{
  ◌≡◌, refl, ◌∙◌, ap, ◌≢◌, Bool, true, false, Option, none, some, Text, text_eq, if◌then◌else◌, ℤ,
  Bool-cases, inl, inr,
}
use data_lakehouse.Errors.{Result, ok}
use data_lakehouse.Exec.{by_outcome-ok}
use data_lakehouse.Time.{aware, seconds, plus, difference}
use data_lakehouse.Codec
use data_lakehouse.Codec.{Codec}
use data_lakehouse.Storage.{ObjectStore, IsReliable}
use data_lakehouse.Locks.{text_or}
use data_lakehouse.Locks.Times.{parse_iso-to_iso}
use data_lakehouse.Locks.Lease.{Lease, is_over, lease_for, take}
use data_lakehouse.Locks.Manager.{
  LockManager, lock_key, write_lock, is_stale, cleanup_stale_lock, new_lock, take_lock, acquire,
}
use data_lakehouse.Locks.Slot
use data_lakehouse.Locks.Slot.{lock_of_lease, text_of, lock_of_option}

-- What became of a call: its answer, the lease that there is, and nothing else changed.
pub record Answers {W A : Type 0} (codec : Codec) (peek : W → Text → Text → Option Text)
    (m : LockManager) (partition_id : Text) (w : W) (r : Result A × W) (expected : A × Option Lease)
    : Type 0 where
  pub answer_ok : r.0 ≡ ok expected.0
  pub lease_ok :
      peek r.1 m.config.minio_bucket (lock_key m partition_id)
      ≡ text_of codec partition_id expected.1
  pub elsewhere :
      (k : Text)
      → lock_key m partition_id ≢ k
      → peek r.1 m.config.minio_bucket k ≡ peek w m.config.minio_bucket k

module _ {W : Type 0} (clock : W → ℤ × W) (s3 : ObjectStore W) (codec : Codec)
    (peek : W → Text → Text → Option Text) (reliable : IsReliable s3 peek)
    (lawful : Codec.IsLawful codec) (m : LockManager) (partition_id : Text) (run_id : Text)
    (now : ℤ) where
  abbrev timeout : ℤ
  timeout = seconds m.config.lock_timeout_seconds

  abbrev mine : Lease
  mine = lease_for m.owner_id run_id timeout now

  abbrev Stored : W → Option Lease → Type 0
  Stored w o =
      Slot.slot clock s3 codec peek reliable lawful m w partition_id ≡ text_of codec partition_id o

  abbrev taken : W → W
  taken w =
      Slot.after_write clock s3 codec peek reliable lawful m (lock_of_lease codec partition_id mine)
        w

  new_lock-mine :
      new_lock clock s3 codec m partition_id (aware now) run_id
      ≡ lock_of_lease codec partition_id mine
  unfolding new_lock plus
  new_lock-mine = refl

  write_new :
      (w : W)
      → write_lock clock s3 codec m (new_lock clock s3 codec m partition_id (aware now) run_id) w
        ≡ (ok tt, taken w)
  write_new w = rw new_lock-mine (
      Slot.write_lock-after_write clock s3 codec peek reliable lawful m
        (lock_of_lease codec partition_id mine) w)

  take_lock-free :
      (w : W)
      → Stored w none
      → take_lock clock s3 codec m partition_id (aware now) run_id w ≡ (ok true, taken w)
  unfolding take_lock
  take_lock-free w h =
      by_outcome-ok _
        (Slot.read_lock-answer clock s3 codec peek reliable lawful m partition_id none w h)
      ∙ by_outcome-ok _ (write_new w)

  take_lock-live :
      (l : Lease) (w : W)
      → Stored w (some l)
      → is_over l timeout now ≡ false
      → take_lock clock s3 codec m partition_id (aware now) run_id w
        ≡ (if text_eq l.owner m.owner_id then (ok true, taken w) else (ok false, w))
  unfolding take_lock
  take_lock-live l w h live =
      by_outcome-ok _
        (Slot.read_lock-answer clock s3 codec peek reliable lawful m partition_id (some l) w h)
      ∙ by_outcome-ok _ (
          by_outcome-ok _ (
            Slot.is_stale-is_over clock s3 codec peek reliable lawful m partition_id l now w
            ∙ ap (λ b. (ok b, w)) live))
      ∙ elim (Bool-cases (text_eq l.owner m.owner_id)) [
        | inl same ↦ rw same (by_outcome-ok _ (write_new w))
        | inr other ↦ rw other
      ]

  cleanup-none :
      (w : W)
      → Stored w none
      → cleanup_stale_lock clock s3 codec m partition_id (some (aware now)) w ≡ (ok false, w)
  unfolding cleanup_stale_lock
  cleanup-none w h =
      by_outcome-ok _
        (Slot.read_lock-answer clock s3 codec peek reliable lawful m partition_id none w h)

  stale_answer :
      (l : Lease) (w : W) (b : Bool)
      → is_over l timeout now ≡ b
      → is_stale clock s3 codec m (lock_of_lease codec partition_id l) (some (aware now)) w
        ≡ (ok b, w)
  stale_answer l w b e =
      Slot.is_stale-is_over clock s3 codec peek reliable lawful m partition_id l now w
      ∙ ap (λ b. (ok b, w)) e

  cleanup-live :
      (l : Lease) (w : W)
      → Stored w (some l)
      → is_over l timeout now ≡ false
      → cleanup_stale_lock clock s3 codec m partition_id (some (aware now)) w ≡ (ok false, w)
  unfolding cleanup_stale_lock
  cleanup-live l w h live =
      by_outcome-ok _
        (Slot.read_lock-answer clock s3 codec peek reliable lawful m partition_id (some l) w h)
      ∙ by_outcome-ok _ (stale_answer l w false live)

  cleanup-over :
      (l : Lease) (w : W)
      → Stored w (some l)
      → is_over l timeout now ≡ true
      → cleanup_stale_lock clock s3 codec m partition_id (some (aware now)) w
        ≡ (ok true, Slot.after_delete clock s3 codec peek reliable lawful m partition_id w)
  unfolding cleanup_stale_lock difference
  cleanup-over l w h over =
      by_outcome-ok _
        (Slot.read_lock-answer clock s3 codec peek reliable lawful m partition_id (some l) w h)
      ∙ by_outcome-ok _ (stale_answer l w true over)
      ∙ rw (
        parse_iso-to_iso codec lawful (aware l.start),
        Slot.delete_lock-after_delete clock s3 codec peek reliable lawful m partition_id,
      )

  abbrev deleted : W → W
  deleted w = Slot.after_delete clock s3 codec peek reliable lawful m partition_id w

  abbrev Acquired : W → Result Bool × W → Option Lease → Type 0
  Acquired w r o = Answers codec peek m partition_id w r (take m.owner_id run_id timeout now o)

  taken-Answers : (w : W) → Answers codec peek m partition_id w (ok true, taken w) (true, some mine)
  taken-Answers w = record {
    answer_ok = refl;
    lease_ok =
        Slot.slot-after_write clock s3 codec peek reliable lawful m
          (lock_of_lease codec partition_id mine) w;
    elsewhere =
        Slot.after_write-SameElsewhere clock s3 codec peek reliable lawful m
          (lock_of_lease codec partition_id mine) w;
  }

  retaken-Answers :
      (w : W) → Answers codec peek m partition_id w (ok true, taken (deleted w)) (true, some mine)
  retaken-Answers w =
      let a = taken-Answers (deleted w) in
      record {
        answer_ok = refl;
        lease_ok = a.lease_ok;
        elsewhere = λ k n.
            a.elsewhere k n
            ∙ Slot.after_delete-SameElsewhere clock s3 codec peek reliable lawful m partition_id w k
                n;
      }

  acquire_cleaned :
      (w w1 : W) (b : Bool)
      → cleanup_stale_lock clock s3 codec m partition_id (some (aware now)) w ≡ (ok b, w1)
      → text_or (some run_id) m.run_id ≡ run_id
      → acquire clock s3 codec m partition_id (some (aware now)) (some run_id) w
        ≡ take_lock clock s3 codec m partition_id (aware now) run_id w1
  unfolding acquire
  acquire_cleaned w w1 b e r =
      by_outcome-ok _ e ∙ ap (λ t. take_lock clock s3 codec m partition_id (aware now) t w1) r

  module _ (named : text_or (some run_id) m.run_id ≡ run_id) where
    -- Over a reliable store, with texts that are read back as they were written, `acquire` at a
    -- given time, for a run with a name, does to the lock of a partition what taking the lease
    -- does: it answers and stores the same, and touches no other object. The partition has no lock
    -- or that of some lease.
    pub acquire-take :
        (o : Option Lease) (w : W)
        → Stored w o
        → Answers codec peek m partition_id w
            (acquire clock s3 codec m partition_id (some (aware now)) (some run_id) w)
            (take m.owner_id run_id timeout now o)
    unfolding take
    acquire-take none w h =
        rw (acquire_cleaned w w false (cleanup-none w h) named, take_lock-free w h)
          (taken-Answers w)
    acquire-take (some l) w h = elim (Bool-cases (is_over l timeout now)) [
      | inl over ↦
          rw
            (
              acquire_cleaned w (deleted w) true (cleanup-over l w h over) named,
              take_lock-free (deleted w)
                  (Slot.slot-after_delete clock s3 codec peek reliable lawful m partition_id w),
              over,
            )
            (retaken-Answers w)
      | inr live ↦
          rw
            (
              acquire_cleaned w w false (cleanup-live l w h live) named,
              take_lock-live l w h live,
              live,
            )
            (elim (Bool-cases (text_eq l.owner m.owner_id)) [
              | inl same ↦ rw same (taken-Answers w)
              | inr other ↦
                  rw other (record { answer_ok = refl; lease_ok = h; elsewhere = λ k n. refl })
            ])
    ]
