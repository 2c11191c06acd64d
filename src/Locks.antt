-- ===== src/Locks.antt =====
-- src/compactor/lock_manager.py: a lock, its file and its times.
pub mod Manager
pub mod Paths
pub mod Local
pub mod Times
pub mod Lease
pub mod Slot
pub mod Refinement
pub mod Release
pub mod Exclusion
pub mod Histories
pub mod Race
use data_lakehouse.Base.{
  ℕ, ◌*◌, ◌≡◌, refl, Bool, true, false, ◌&&◌, ◌||◌, not, Option, none, some, List, [], ◌∷◌, ◌++◌,
  Text, codes, text_dec, text_eq, ite, if◌then◌else◌, ℤ, pos, ltb_ℤ,
}
use data_lakehouse.Base.Dict
use data_lakehouse.Base.Dict.{Dict}
use data_lakehouse.Base.Strings.Affix.{rstrip}
use data_lakehouse.Base.Strings.Replace.{replace, offset, zulu}
use data_lakehouse.Errors.{Exc, Result, ok, raise, client_error, other, ◌>>=◌}
use data_lakehouse.Time.{Datetime, as_utc, seconds, plus, is_at_or_after, difference}
use data_lakehouse.Config.{Config, slash}
use data_lakehouse.Codec.{Codec}
use data_lakehouse.Storage.{ObjectStore}
use data_lakehouse.Scanner.{reference}

pub record CompactionLock : Type 0 where
  pub partition_id : Text
  pub owner_id : Text
  pub acquired_at : Text
  pub expires_at : Text
  pub run_id : Text

-- `asdict(self)`
abbrev pub asdict : CompactionLock → Dict Text Text
asdict lock =
    (codes "partition_id", lock.partition_id)
    ∷ (codes "owner_id", lock.owner_id)
    ∷ (codes "acquired_at", lock.acquired_at)
    ∷ (codes "expires_at", lock.expires_at)
    ∷ (codes "run_id", lock.run_id)
    ∷ []

-- `data[key]`, of the value that the key has, if any; a `KeyError` shows the key in quotes.
abbrev pub index : Text → Option Text → Result Text
index k none = raise (other (codes "'" ++ (k ++ codes "'")))
index k (some v) = ok v

-- `a or b`, of a text that may be missing or empty
abbrev pub text_or : Option Text → Text → Text
text_or none b = b
text_or (some []) b = b
text_or (some (c ∷ s)) b = c ∷ s

unfoldable pub lock_file_path : Text → Text → Text
unfolding rstrip
lock_file_path base_path partition_id =
    rstrip slash base_path ++ (codes "/" ++ (partition_id ++ codes ".lock"))

-- `data.get(key, default)`
abbrev pub get_or : Option Text → Text → Text
get_or none d = d
get_or (some v) d = v

-- An end that is missing or empty.
abbrev pub has_text : Option Text → Bool
has_text none = false
has_text (some []) = false
has_text (some (c ∷ s)) = true

module _ (codec : Codec) where
  -- `_parse_iso`
  unfoldable pub parse_iso : Text → Result Datetime
  unfolding replace
  parse_iso value = do dt ← codec.fromisoformat (replace zulu offset value); ok (as_utc dt)

  -- `_utc_now_iso` of a time
  unfoldable pub to_iso : Datetime → Text
  unfolding replace
  to_iso dt = replace offset zulu (codec.isoformat dt)

  unfoldable pub to_json : CompactionLock → Text
  to_json lock = codec.dumps (asdict lock)

  -- The end of a lock that was written without one is an hour after its beginning.
  abbrev pub expiry_of : Text → Option Text → Result Text
  expiry_of acquired_at expires_at = if has_text expires_at then ok (get_or expires_at []) else do
    acquired ← codec.fromisoformat (replace zulu offset acquired_at)
    ok (to_iso (plus acquired (seconds (pos 3600))))

  -- The lock of a JSON object, by the values of "acquired_at", "expires_at", "partition_id",
  -- "owner_id" and "run_id", in the order in which they are read.
  abbrev pub lock_of_values :
      Option Text → Option Text → Option Text → Option Text → Option Text → Result CompactionLock
  lock_of_values acquired expires partition owner run = do
    acquired_at ← index (codes "acquired_at") acquired
    expires_at ← expiry_of acquired_at expires
    partition_id ← index (codes "partition_id") partition
    owner_id ← index (codes "owner_id") owner
    ok (record {
      partition_id = partition_id;
      owner_id = owner_id;
      acquired_at = acquired_at;
      expires_at = expires_at;
      run_id = get_or run (codes "unknown");
    })

  abbrev pub lock_of : Dict Text Text → Result CompactionLock
  lock_of d =
      lock_of_values (Dict.get text_dec (codes "acquired_at") d)
        (Dict.get text_dec (codes "expires_at") d) (Dict.get text_dec (codes "partition_id") d)
        (Dict.get text_dec (codes "owner_id") d) (Dict.get text_dec (codes "run_id") d)

  unfoldable pub from_json : Text → Result CompactionLock
  from_json raw = do d ← codec.loads raw; lock_of d
