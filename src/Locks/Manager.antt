-- ===== src/Locks/Manager.antt =====
-- src/compactor/lock_manager.py: `LockManager` with its locks in the object store, as the daemon makes it.
-- What is logged is left out, but not the arguments of `log_event` whose computation can raise.
use data_lakehouse.Base.{
  Bool, true, false, ◌&&◌, ◌||◌, not, Option, none, some, Text, codes, text_eq, if◌then◌else◌, ℤ,
  ltb_ℤ,
}
use data_lakehouse.Errors.{Exc, client_error}
use data_lakehouse.Exec.{Exec, pure, throw, lift, try_else, ◌>>=◌, ◌>>◌}
use data_lakehouse.Time.{Datetime, seconds, plus, is_at_or_after, difference}
use data_lakehouse.Config.{Config}
use data_lakehouse.Codec.{Codec}
use data_lakehouse.Storage.{ObjectStore}
use data_lakehouse.Scanner.{reference}
use data_lakehouse.Locks.{
  CompactionLock, text_or, lock_file_path, parse_iso, to_iso, to_json, from_json,
}

pub record LockManager : Type 0 where
  pub config : Config
  pub owner_id : Text
  pub run_id : Text

-- The arguments of `LockManager(...)`; `default_owner` is what `_default_owner_id()` returns.
abbrev pub new_manager : Config → Option Text → Option Text → Text → LockManager
new_manager config owner_id run_id default_owner = record {
  config = config;
  owner_id = text_or owner_id default_owner;
  run_id = text_or run_id (codes "unknown");
}

abbrev pub lock_key : LockManager → Text → Text
lock_key m partition_id = lock_file_path m.config.lock_base_path partition_id

-- The code of a `ClientError` that says that there is no object.
abbrev pub is_missing : Exc → Bool
is_missing (client_error c m) = text_eq c (codes "404") || text_eq c (codes "NoSuchKey")
is_missing _ = false

abbrev is_client_error : Exc → Bool
is_client_error (client_error c m) = true
is_client_error _ = false

module _ {W : Type 0} (clock : W → ℤ × W) (s3 : ObjectStore W) (codec : Codec)
    (m : LockManager) where
  unfoldable pub read_lock : Text → Exec W (Option CompactionLock)
  read_lock partition_id =
      try_else (s3.get_object m.config.minio_bucket (lock_key m partition_id))
        (λ body. do lock ← lift (from_json codec body); pure (some lock))
        (λ exc. if is_missing exc then pure none else throw exc)

  unfoldable pub write_lock : CompactionLock → Exec W (Unit {0})
  write_lock lock =
      s3.put_object m.config.minio_bucket (lock_key m lock.partition_id) (to_json codec lock)

  unfoldable pub delete_lock : Text → Exec W (Unit {0})
  delete_lock partition_id =
      try_else (s3.delete_object m.config.minio_bucket (lock_key m partition_id))
        (λ done. pure done) (λ exc. if is_client_error exc then pure tt else throw exc)

  -- `is_stale`, at the time that it has read or was given. Ages are in microseconds.
  unfoldable pub is_stale_at : CompactionLock → Datetime → Exec W Bool
  is_stale_at lock now = do
    expires ← lift (parse_iso codec lock.expires_at)
    expired ← lift (is_at_or_after now expires)
    if expired then pure true else do
      acquired ← lift (parse_iso codec lock.acquired_at)
      age ← lift (difference now acquired)
      pure (ltb_ℤ (seconds m.config.lock_timeout_seconds) age)

  unfoldable pub is_stale : CompactionLock → Option Datetime → Exec W Bool
  is_stale lock now = do r ← reference clock now; is_stale_at lock r

  abbrev pub stale_now : Option CompactionLock → Option Datetime → Exec W Bool
  stale_now none now = pure false
  stale_now (some lock) now = is_stale lock now

  -- The age is computed for the log, before the lock is deleted.
  abbrev pub remove_stale : Text → Option CompactionLock → Option Datetime → Exec W Bool
  remove_stale partition_id none now = pure false
  remove_stale partition_id (some existing) now = do
    r ← reference clock now
    acquired ← lift (parse_iso codec existing.acquired_at)
    age ← lift (difference r acquired)
    delete_lock partition_id
    pure true

  unfoldable pub cleanup_stale_lock : Text → Option Datetime → Exec W Bool
  cleanup_stale_lock partition_id now = do
    existing ← read_lock partition_id
    stale ← stale_now existing now
    if stale then remove_stale partition_id existing now else pure false

  -- The lock that `acquire` writes.
  unfoldable pub new_lock : Text → Datetime → Text → CompactionLock
  new_lock partition_id now run_id = record {
    partition_id = partition_id;
    owner_id = m.owner_id;
    acquired_at = to_iso codec now;
    expires_at = to_iso codec (plus now (seconds m.config.lock_timeout_seconds));
    run_id = run_id;
  }

  -- A lock that is not stale and belongs to somebody else.
  abbrev pub blocks : Option CompactionLock → Datetime → Exec W Bool
  blocks none now = pure false
  blocks (some existing) now = do
    stale ← is_stale existing (some now)
    pure (not stale && not (text_eq existing.owner_id m.owner_id))

  -- The second half of `acquire`, from `existing = self._read_lock(partition_id)` on.
  unfoldable pub take_lock : Text → Datetime → Text → Exec W Bool
  take_lock partition_id now run_id = do
    existing ← read_lock partition_id
    blocked ← blocks existing now
    if blocked then pure false else do write_lock (new_lock partition_id now run_id); pure true

  unfoldable pub acquire : Text → Option Datetime → Option Text → Exec W Bool
  acquire partition_id now run_id = do
    let effective_run_id = text_or run_id m.run_id
    r ← reference clock now
    cleaned ← cleanup_stale_lock partition_id (some r)
    take_lock partition_id r effective_run_id

  abbrev pub is_mine : Option CompactionLock → Bool
  is_mine none = false
  is_mine (some existing) = text_eq existing.owner_id m.owner_id

  unfoldable pub release : Text → Exec W (Unit {0})
  release partition_id = do
    existing ← read_lock partition_id
    if is_mine existing then delete_lock partition_id else pure tt

  unfoldable pub is_held_by_self : Text → Exec W Bool
  is_held_by_self partition_id = do existing ← read_lock partition_id; pure (is_mine existing)
