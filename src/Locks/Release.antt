-- ===== src/Locks/Release.antt =====
-- `release` gives the lease back.
use data_lakehouse.Base.{◌≡◌, refl, Option, none, some, Text, text_eq, ℤ, Bool-cases, inl, inr}
use data_lakehouse.Errors.{ok}
use data_lakehouse.Exec.{by_outcome-ok}
use data_lakehouse.Codec
use data_lakehouse.Codec.{Codec}
use data_lakehouse.Storage.{ObjectStore, IsReliable}
use data_lakehouse.Locks.Lease.{Lease, give_back}
use data_lakehouse.Locks.Manager.{LockManager, lock_key, release}
use data_lakehouse.Locks.Slot
use data_lakehouse.Locks.Slot.{lock_of_lease, text_of, lock_of_option}
use data_lakehouse.Locks.Refinement.{Answers}

module _ {W : Type 0} (clock : W → ℤ × W) (s3 : ObjectStore W) (codec : Codec)
    (peek : W → Text → Text → Option Text) (reliable : IsReliable s3 peek)
    (lawful : Codec.IsLawful codec) (m : LockManager) (partition_id : Text) where
  kept :
      (w : W) (o : Option Lease)
      → peek w m.config.minio_bucket (lock_key m partition_id) ≡ text_of codec partition_id o
      → Answers codec peek m partition_id w (ok tt, w) (tt, o)
  kept w o h = record { answer_ok = refl; lease_ok = h; elsewhere = λ k n. refl }

  emptied :
      (w : W)
      → Answers codec peek m partition_id w
          (ok tt, Slot.after_delete clock s3 codec peek reliable lawful m partition_id w)
          (tt, none)
  emptied w = record {
    answer_ok = refl;
    lease_ok = Slot.slot-after_delete clock s3 codec peek reliable lawful m partition_id w;
    elsewhere =
        Slot.after_delete-SameElsewhere clock s3 codec peek reliable lawful m partition_id w;
  }

  -- Over a reliable store, with texts that are read back as they were written, `release` does not
  -- fail, for a partition that has no lock or that of some lease; it gives back a lease of its own
  -- owner, leaves any other as it is, and touches no other object.
  pub release-give_back :
      (o : Option Lease) (w : W)
      → peek w m.config.minio_bucket (lock_key m partition_id) ≡ text_of codec partition_id o
      → Answers codec peek m partition_id w
          (release clock s3 codec m partition_id w)
          (tt, give_back m.owner_id o)
  unfolding release give_back
  release-give_back none w h =
      rw
        (by_outcome-ok _
          (Slot.read_lock-answer clock s3 codec peek reliable lawful m partition_id none w h))
        (kept w none h)
  release-give_back (some l) w h =
      rw
        (by_outcome-ok _
          (Slot.read_lock-answer clock s3 codec peek reliable lawful m partition_id (some l) w h))
        (elim (Bool-cases (text_eq l.owner m.owner_id)) [
          | inl own ↦
              rw
                (
                  own,
                  Slot.delete_lock-after_delete clock s3 codec peek reliable lawful m partition_id
                      w,
                )
                (emptied w)
          | inr other ↦ rw other (kept w (some l) h)
        ])
