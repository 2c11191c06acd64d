-- ===== src/Locks/Race.antt =====
-- src/compactor/lock_manager.py, as several workers run it at once: `acquire` and `release` call the
-- store more than once, and the others' calls come in between. A turn of a worker is one call of
-- the store with what it computes from the answer.
pub mod Alone
pub mod Turns
pub mod System
pub mod Invariant
pub mod Safety
pub mod Calm
pub mod Mutual
pub mod Clash
use data_lakehouse.Base.{ℕ, zero, suc, Bool, true, false, Option, some, Text, if◌then◌else◌, ℤ}
use data_lakehouse.Exec.{Exec, pure, ◌>>=◌}
use data_lakehouse.Time.{aware}
use data_lakehouse.Codec.{Codec}
use data_lakehouse.Storage.{ObjectStore}
use data_lakehouse.Locks.{CompactionLock}
use data_lakehouse.Locks.Manager.{
  LockManager, read_lock, write_lock, delete_lock, stale_now, remove_stale, new_lock, blocks,
  is_mine,
}

-- The arguments of `acquire`, with which the worker goes on.
pub record Attempt : Type 0 where
  pub now : ℤ
  pub run : Text

-- Where a worker is in `acquire`, or in the `release` that follows.
pub data Phase : Type 0 where
  idle : Phase
  starting : Attempt → Phase
  removing : Attempt → CompactionLock → Phase
  cleaned : Attempt → Phase
  writing : Attempt → Phase
  granted : Phase
  giving_back : Phase
  refused : Phase

-- `acquire` has returned.
abbrev pub is_decided : Phase → Bool
is_decided granted = true
is_decided refused = true
is_decided _ = false

-- `acquire` has returned True, and `release` has not returned.
abbrev pub is_holding : Phase → Bool
is_holding granted = true
is_holding giving_back = true
is_holding _ = false

module _ {W : Type 0} (clock : W → ℤ × W) (s3 : ObjectStore W) (codec : Codec) (m : LockManager)
    (partition_id : Text) where
  -- `if existing and self.is_stale(existing, now=now)` of `cleanup_stale_lock`
  abbrev pub after_first_read : Attempt → Option CompactionLock → Bool → Phase
  after_first_read a (some lock) true = removing a lock
  after_first_read a _ _ = cleaned a

  -- One turn of a worker. A worker that waits to begin, or was refused, does nothing.
  unfoldable pub advance : Phase → Exec W Phase
  advance idle = pure idle
  advance (starting a) = do
    existing ← read_lock clock s3 codec m partition_id
    stale ← stale_now clock s3 codec m existing (some (aware a.now))
    pure (after_first_read a existing stale)
  advance (removing a lock) = do
    done ← remove_stale clock s3 codec m partition_id (some lock) (some (aware a.now))
    pure (cleaned a)
  advance (cleaned a) = do
    existing ← read_lock clock s3 codec m partition_id
    blocked ← blocks clock s3 codec m existing (aware a.now)
    pure (if blocked then refused else writing a)
  advance (writing a) = do
    done ← write_lock clock s3 codec m (new_lock clock s3 codec m partition_id (aware a.now) a.run)
    pure granted
  advance granted = do
    existing ← read_lock clock s3 codec m partition_id
    pure (if is_mine clock s3 codec m existing then giving_back else idle)
  advance giving_back = do done ← delete_lock clock s3 codec m partition_id; pure idle
  advance refused = pure refused

  -- The turns of a worker until `acquire` has returned, at most so many.
  unfoldable pub attempt : ℕ → Phase → Exec W Phase
  unfolding advance
  attempt zero phase = pure phase
  attempt (suc n) phase =
      if is_decided phase then pure phase else do next ← advance phase; attempt n next
