-- ===== src/Locks/Local.antt =====
-- src/compactor/lock_manager.py: `LockManager` with its locks in local files (`use_local`).
pub mod Place
pub mod Files
use data_lakehouse.Base.{
  Bool, true, false, not, Option, none, some, List, [], ◌∷◌, ◌++◌, Text, codes, if◌then◌else◌,
}
use data_lakehouse.Exec.{Exec, pure, lift, ◌>>=◌, ◌>>◌}
use data_lakehouse.Codec.{Codec}
use data_lakehouse.Locks.{CompactionLock, to_json, from_json}
use data_lakehouse.Locks.Manager.{LockManager}
use data_lakehouse.Locks.Paths.{FilePath, split, path, descend, to_text}

-- The files of the machine: `exists`, `read_text`, `write_text`, `os.remove`, and `mkdir` with its
-- parents, which may exist.
pub record Disk (W : Type 0) : Type 0 where
  pub exists : FilePath → Exec W Bool
  pub read_text : FilePath → Exec W Text
  pub write_text : FilePath → Text → Exec W (Unit {0})
  pub remove : FilePath → Exec W (Unit {0})
  pub make_directory : FilePath → Exec W (Unit {0})

abbrev pub without_last : List Text → List Text
without_last [] = []
without_last (p ∷ []) = []
without_last (p ∷ q ∷ ps) = p ∷ without_last (q ∷ ps)

-- `p.parent`
abbrev pub parent : FilePath → FilePath
parent p = record { is_absolute = p.is_absolute; parts = without_last p.parts }

-- The path that `_local_path` returns.
unfoldable pub local_path : Text → Text → FilePath
local_path base partition_id =
    path (to_text (descend (path base) (split partition_id)) ++ codes ".lock")

module _ {W : Type 0} (disk : Disk W) (codec : Codec) (m : LockManager) where
  -- `_local_path`
  unfoldable pub locate : Text → Exec W FilePath
  locate partition_id = do
    let p = local_path m.config.lock_base_path partition_id
    disk.make_directory (parent p)
    pure p

  unfoldable pub read_local : Text → Exec W (Option CompactionLock)
  unfolding locate
  read_local partition_id = do
    p ← locate partition_id
    found ← disk.exists p
    if not found
        then pure none
        else do text ← disk.read_text p; lock ← lift (from_json codec text); pure (some lock)

  unfoldable pub write_local : CompactionLock → Exec W (Unit {0})
  unfolding locate
  write_local lock = do p ← locate lock.partition_id; disk.write_text p (to_json codec lock)

  unfoldable pub delete_local : Text → Exec W (Unit {0})
  unfolding locate
  delete_local partition_id = do
    p ← locate partition_id
    found ← disk.exists p
    if found then disk.remove p else pure tt
