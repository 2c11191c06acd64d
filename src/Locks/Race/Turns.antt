-- ===== src/Locks/Race/Turns.antt =====
-- src/compactor/lock_manager.py: what a turn of a worker does to the lease, over a reliable store.
use data_lakehouse.Base.{
  ◌≡◌, refl, ◌&&◌, not, Option, none, some, Text, text_eq, if◌then◌else◌, ℤ, Bool-cases, inl, inr,
}
use data_lakehouse.Errors.{ok}
use data_lakehouse.Time.{aware, seconds, plus, difference}
use data_lakehouse.Codec
use data_lakehouse.Codec.{Codec}
use data_lakehouse.Storage.{ObjectStore, IsReliable}
use data_lakehouse.Locks.Times.{parse_iso-to_iso}
use data_lakehouse.Locks.Lease.{Lease, is_over, lease_for}
use data_lakehouse.Locks.Manager.{LockManager, read_lock, new_lock, is_stale}
use data_lakehouse.Locks.Slot
use data_lakehouse.Locks.Slot.{lock_of_lease, text_of, lock_of_option}
use data_lakehouse.Locks.Refinement.{Answers}
use data_lakehouse.Locks.Race.{
  Attempt, Phase, idle, starting, removing, cleaned, writing, granted, giving_back, refused,
  advance,
}

module _ (codec : Codec) (partition_id : Text) where
  -- The lock that a worker is about to remove was read from a lease's file.
  abbrev pub IsReadable : Phase → Type 0
  IsReadable (removing a lock) = (l : Lease) × (lock ≡ lock_of_lease codec partition_id l)
  IsReadable _ = Unit

-- The worker's next phase, and the lease after its turn, for the lease before it.
module _ (codec : Codec) (m : LockManager) (partition_id : Text) where
  abbrev timeout : ℤ
  timeout = seconds m.config.lock_timeout_seconds

  unfoldable pub lease_turn : Phase → Option Lease → Phase × Option Lease
  lease_turn idle o = (idle, o)
  lease_turn (starting a) none = (cleaned a, none)
  lease_turn (starting a) (some l) = (
    if is_over l timeout a.now then removing a (lock_of_lease codec partition_id l) else cleaned a,
    some l,
  )
  lease_turn (removing a lock) o = (cleaned a, none)
  lease_turn (cleaned a) none = (writing a, none)
  lease_turn (cleaned a) (some l) = (
    if not (is_over l timeout a.now) && not (text_eq l.owner m.owner_id)
        then refused
        else writing a,
    some l,
  )
  lease_turn (writing a) o = (granted, some (lease_for m.owner_id a.run timeout a.now))
  lease_turn granted none = (idle, none)
  lease_turn granted (some l) = (if text_eq l.owner m.owner_id then giving_back else idle, some l)
  lease_turn giving_back o = (idle, none)
  lease_turn refused o = (refused, o)

module _ {W : Type 0} (clock : W → ℤ × W) (s3 : ObjectStore W) (codec : Codec)
    (peek : W → Text → Text → Option Text) (reliable : IsReliable s3 peek)
    (lawful : Codec.IsLawful codec) (m : LockManager) (partition_id : Text) where
  abbrev Stored : W → Option Lease → Type 0
  Stored w o =
      Slot.slot clock s3 codec peek reliable lawful m w partition_id ≡ text_of codec partition_id o

  read :
      (o : Option Lease) (w : W)
      → Stored w o
      → read_lock clock s3 codec m partition_id w ≡ (ok (lock_of_option codec partition_id o), w)
  read = Slot.read_lock-answer clock s3 codec peek reliable lawful m partition_id

  -- What a turn that only reads comes to.
  unchanged :
      (w : W) (o : Option Lease) (next : Phase)
      → Stored w o
      → Answers codec peek m partition_id w (ok next, w) (next, o)
  unchanged w o next h = record { answer_ok = refl; lease_ok = h; elsewhere = λ k n. refl }

  emptied :
      (w : W) (next : Phase)
      → Answers codec peek m partition_id w
          (ok next, Slot.after_delete clock s3 codec peek reliable lawful m partition_id w)
          (next, none)
  emptied w next = record {
    answer_ok = refl;
    lease_ok = Slot.slot-after_delete clock s3 codec peek reliable lawful m partition_id w;
    elsewhere =
        Slot.after_delete-SameElsewhere clock s3 codec peek reliable lawful m partition_id w;
  }

  written :
      (w : W) (l : Lease)
      → Answers codec peek m partition_id w
          (
            ok granted,
            Slot.after_write clock s3 codec peek reliable lawful m
                (lock_of_lease codec partition_id l)
                w,
          )
          (granted, some l)
  written w l = record {
    answer_ok = refl;
    lease_ok =
        Slot.slot-after_write clock s3 codec peek reliable lawful m
          (lock_of_lease codec partition_id l) w;
    elsewhere =
        Slot.after_write-SameElsewhere clock s3 codec peek reliable lawful m
          (lock_of_lease codec partition_id l) w;
  }

  Turned : Phase → Option Lease → W → Type 0
  Turned phase o w =
      Answers codec peek m partition_id w (advance clock s3 codec m partition_id phase w)
        (lease_turn codec m partition_id phase o)

  stale :
      (l : Lease) (now : ℤ) (w : W)
      → is_stale clock s3 codec m (lock_of_lease codec partition_id l) (some (aware now)) w
        ≡ (ok (is_over l (seconds m.config.lock_timeout_seconds) now), w)
  stale = Slot.is_stale-is_over clock s3 codec peek reliable lawful m partition_id

  starting_lem : (a : Attempt) (o : Option Lease) (w : W) → Stored w o → Turned (starting a) o w
  unfolding advance lease_turn Turned
  starting_lem a none w h = rw (read none w h) (unchanged w none (cleaned a) h)
  starting_lem a (some l) w h =
      rw (read (some l) w h, stale l a.now w)
        (elim (Bool-cases (is_over l (seconds m.config.lock_timeout_seconds) a.now)) [
          | inl e ↦ rw e (unchanged w (some l) (removing a (lock_of_lease codec partition_id l)) h)
          | inr e ↦ rw e (unchanged w (some l) (cleaned a) h)
        ])

  cleaned_lem : (a : Attempt) (o : Option Lease) (w : W) → Stored w o → Turned (cleaned a) o w
  unfolding advance lease_turn Turned
  cleaned_lem a none w h = rw (read none w h) (unchanged w none (writing a) h)
  cleaned_lem a (some l) w h = rw (read (some l) w h, stale l a.now w) (unchanged w (some l) _ h)

  granted_lem : (o : Option Lease) (w : W) → Stored w o → Turned granted o w
  unfolding advance lease_turn Turned
  granted_lem none w h = rw (read none w h) (unchanged w none idle h)
  granted_lem (some l) w h = rw (read (some l) w h) (unchanged w (some l) _ h)

  -- Over a reliable store, with texts that are read back as they were written, a turn of a worker, for a
  -- partition that has no lock or that of some lease, does not fail, leaves the lease and the
  -- worker as the turn on the lease says, and touches no other object. A lock that is
  -- about to be removed was read from a lease's file.
  pub advance-lease_turn :
      (phase : Phase) (o : Option Lease) (w : W)
      → IsReadable codec partition_id phase
      → Stored w o
      → Answers codec peek m partition_id w
          (advance clock s3 codec m partition_id phase w)
          (lease_turn codec m partition_id phase o)
  unfolding advance lease_turn Turned difference new_lock plus
  advance-lease_turn idle o w r h = unchanged w o idle h
  advance-lease_turn (starting a) o w r h = starting_lem a o w h
  advance-lease_turn (removing a lock) o w (l, e) h =
      rw
        (
          e,
          parse_iso-to_iso codec lawful (aware l.start),
          Slot.delete_lock-after_delete clock s3 codec peek reliable lawful m partition_id w,
        )
        (emptied w (cleaned a))
  advance-lease_turn (cleaned a) o w r h = cleaned_lem a o w h
  advance-lease_turn (writing a) o w r h =
      rw
        (Slot.write_lock-after_write clock s3 codec peek reliable lawful m
          (lock_of_lease codec partition_id
            (lease_for m.owner_id a.run (seconds m.config.lock_timeout_seconds) a.now))
          w)
        (written w (lease_for m.owner_id a.run (seconds m.config.lock_timeout_seconds) a.now))
  advance-lease_turn granted o w r h = granted_lem o w h
  advance-lease_turn giving_back o w r h =
      rw (Slot.delete_lock-after_delete clock s3 codec peek reliable lawful m partition_id w)
        (emptied w idle)
  advance-lease_turn refused o w r h = unchanged w o refused h
