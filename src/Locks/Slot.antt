-- ===== src/Locks/Slot.antt =====
-- The object that holds a partition's lock, and what the manager's reads and writes do to it.
use data_lakehouse.Base.{
  ◌≡◌, refl, ◌∙◌, ◌≢◌, true, Option, none, some, Text, text_dec, ℕ_discrete, codes, if_pos, if_neg,
  ℤ, ◌+ℤ◌, arith,
}
use data_lakehouse.Errors.{ok, client_error}
use data_lakehouse.Time.{aware, seconds, is_at_or_after, difference}
use data_lakehouse.Codec
use data_lakehouse.Codec.{Codec}
use data_lakehouse.Storage.{ObjectStore, IsReliable}
use data_lakehouse.Locks.{CompactionLock, to_iso, to_json}
use data_lakehouse.Locks.Times.{parse_iso-to_iso, is_empty-to_iso, from_json-to_json}
use data_lakehouse.Locks.Lease.{Lease, is_over}
use data_lakehouse.Locks.Manager.{
  LockManager, lock_key, is_missing, read_lock, write_lock, delete_lock, is_stale_at, is_stale,
}

-- The file of a lease, and the text of the file.
abbrev pub lock_of_lease : Codec → Text → Lease → CompactionLock
lock_of_lease codec partition_id l = record {
  partition_id = partition_id;
  owner_id = l.owner;
  acquired_at = to_iso codec (aware l.start);
  expires_at = to_iso codec (aware (l.start +ℤ l.duration));
  run_id = l.run;
}

abbrev pub text_of : Codec → Text → Option Lease → Option Text
text_of codec partition_id none = none
text_of codec partition_id (some l) = some (to_json codec (lock_of_lease codec partition_id l))

abbrev pub lock_of_option : Codec → Text → Option Lease → Option CompactionLock
lock_of_option codec partition_id none = none
lock_of_option codec partition_id (some l) = some (lock_of_lease codec partition_id l)

no_such_key : (text : Text) → is_missing (client_error (codes "NoSuchKey") text) ≡ true
unfolding text_dec ℕ_discrete
no_such_key text = refl

module _ {W : Type 0} (clock : W → ℤ × W) (s3 : ObjectStore W) (codec : Codec)
    (peek : W → Text → Text → Option Text) (reliable : IsReliable s3 peek)
    (lawful : Codec.IsLawful codec) (m : LockManager) where
  -- The object of the partition's lock.
  abbrev pub slot : W → Text → Option Text
  slot w partition_id = peek w m.config.minio_bucket (lock_key m partition_id)

  pub read_lock-answer :
      (partition_id : Text) (o : Option Lease) (w : W)
      → slot w partition_id ≡ text_of codec partition_id o
      → read_lock clock s3 codec m partition_id w ≡ (ok (lock_of_option codec partition_id o), w)
  unfolding read_lock
  read_lock-answer partition_id none w h = rw (reliable.get_object_lem, h, no_such_key)
  read_lock-answer partition_id (some l) w h = rw (
    reliable.get_object_lem,
    h,
    from_json-to_json codec lawful (lock_of_lease codec partition_id l)
        (is_empty-to_iso codec lawful (aware (l.start +ℤ l.duration))),
  )

  pub is_stale-is_over :
      (partition_id : Text) (l : Lease) (now : ℤ) (w : W)
      → is_stale clock s3 codec m (lock_of_lease codec partition_id l) (some (aware now)) w
        ≡ (ok (is_over l (seconds m.config.lock_timeout_seconds) now), w)
  unfolding is_stale is_stale_at is_at_or_after difference
  is_stale-is_over partition_id l now w =
      rw
        (
          parse_iso-to_iso codec lawful (aware (l.start +ℤ l.duration)),
          parse_iso-to_iso codec lawful (aware l.start),
        )
        (ground arith)

  -- The objects of other keys are as they were.
  abbrev pub SameElsewhere : Text → W → W → Type 0
  SameElsewhere partition_id w w' =
      (k : Text)
      → lock_key m partition_id ≢ k
      → peek w' m.config.minio_bucket k ≡ peek w m.config.minio_bucket k

  abbrev pub after_write : CompactionLock → W → W
  after_write lock w =
      (s3.put_object m.config.minio_bucket (lock_key m lock.partition_id) (to_json codec lock) w).1

  pub write_lock-after_write :
      (lock : CompactionLock) (w : W)
      → write_lock clock s3 codec m lock w ≡ (ok tt, after_write lock w)
  unfolding write_lock
  write_lock-after_write lock w = λ i. (
    reliable.put_object_ok m.config.minio_bucket (lock_key m lock.partition_id) (to_json codec lock)
        w i,
    after_write lock w,
  )

  abbrev pub after_delete : Text → W → W
  after_delete partition_id w =
      (s3.delete_object m.config.minio_bucket (lock_key m partition_id) w).1

  pub delete_lock-after_delete :
      (partition_id : Text) (w : W)
      → delete_lock clock s3 codec m partition_id w ≡ (ok tt, after_delete partition_id w)
  unfolding delete_lock
  delete_lock-after_delete partition_id w = rw reliable.delete_object_ok

  pub slot-after_delete :
      (partition_id : Text) (w : W) → slot (after_delete partition_id w) partition_id ≡ none
  slot-after_delete partition_id w =
      reliable.peek-delete_object _ _ _ w ∙ if_pos (text_dec _ _) refl none _

  pub after_delete-SameElsewhere :
      (partition_id : Text) (w : W) → SameElsewhere partition_id w (after_delete partition_id w)
  after_delete-SameElsewhere partition_id w k n =
      reliable.peek-delete_object _ _ k w ∙ if_neg (text_dec _ k) n none _

  pub slot-after_write :
      (lock : CompactionLock) (w : W)
      → slot (after_write lock w) lock.partition_id ≡ some (to_json codec lock)
  slot-after_write lock w = reliable.peek-put_object _ _ _ _ w ∙ if_pos (text_dec _ _) refl _ _

  pub after_write-SameElsewhere :
      (lock : CompactionLock) (w : W) → SameElsewhere lock.partition_id w (after_write lock w)
  after_write-SameElsewhere lock w k n =
      reliable.peek-put_object _ _ _ k w ∙ if_neg (text_dec _ k) n _ _
