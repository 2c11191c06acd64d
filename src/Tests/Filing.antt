-- ===== src/Tests/Filing.antt =====
-- The theorems on local lock files, on a disk in memory.
use data_lakehouse.Base.{
  ◌≡◌, refl, ap, ap₂, ◌≢◌, Bool, true, false, Option, none, some, List, [], ◌∷◌, Text, text_dec,
  ℕ_discrete, codes, ite, if_pos, if_neg,
}
use data_lakehouse.Base.Strings.Affix.{is_some, rstrip}
use data_lakehouse.Errors.{Result, ok, raise, other}
use data_lakehouse.Config.{default_config}
use data_lakehouse.Locks.{CompactionLock, lock_file_path, to_json}
use data_lakehouse.Locks.Manager.{LockManager}
use data_lakehouse.Locks.Exclusion.{manager}
use data_lakehouse.Locks.Paths.{FilePath, path, split, parts_of}
use data_lakehouse.Locks.Local.{Disk, local_path, read_local, write_local}
use data_lakehouse.Locks.Local.Place.{HasPlainSegments}
use data_lakehouse.Locks.Local.Files.{IsFiling, write_local-read_local}
use data_lakehouse.Tests.World.{codec, codec-IsLawful}

parts_dec : Discrete (List Text)
unfolding text_dec
parts_dec [] [] = yes refl
parts_dec [] (b ∷ t) = no (λ e. cc)
parts_dec (a ∷ s) [] = no (λ e. cc)
parts_dec (a ∷ s) (b ∷ t) = elim (text_dec a b) [
  | yes p ↦ elim (parts_dec s t) [ yes q ↦ yes (ap₂ ◌∷◌ p q) | no n ↦ no (λ e. n (cc)) ]
  | no n ↦ no (λ e. n (cc))
]

bool_dec : Discrete Bool
bool_dec true true = yes refl
bool_dec false false = yes refl
bool_dec true false = no (λ e. cc)
bool_dec false true = no (λ e. cc)

file_dec : Discrete FilePath
unfolding bool_dec parts_dec
file_dec p q = elim (bool_dec p.is_absolute q.is_absolute) [
  | yes a ↦ elim (parts_dec p.parts q.parts) [
    | yes b ↦ yes (λ i. record { is_absolute = a i; parts = b i })
    | no n ↦ no (λ e. n (ap (λ r. r.parts) e))
  ]
  | no n ↦ no (λ e. n (ap (λ r. r.is_absolute) e))
]

abbrev Files : Type 0
Files = FilePath → Option Text

abbrev content : Option Text → Result Text
content none = raise (other (codes "No such file"))
content (some t) = ok t

abbrev disk : Disk Files
disk = record {
  exists = λ p w. (ok (is_some (w p)), w);
  read_text = λ p w. (content (w p), w);
  write_text = λ p t w. (ok tt, λ q. ite (file_dec p q) (some t) (w q));
  remove = λ p w. (ok tt, λ q. ite (file_dec p q) none (w q));
  make_directory = λ p w. (ok tt, w);
}

abbrev look : Files → FilePath → Option Text
look w p = w p

disk-IsFiling : IsFiling disk look
disk-IsFiling = record {
  exists_lem = λ p w. refl;
  read_text_lem = λ p t w h. rw h refl;
  write_text_ok = λ p t w. refl;
  look-write_text = λ p t w. if_pos (file_dec p p) refl (some t) (w p);
  write_text_elsewhere = λ p q t w n. if_neg (file_dec p q) n (some t) (w q);
  remove_ok = λ p w. refl;
  look-remove = λ p w. if_pos (file_dec p p) refl none (w p);
  remove_elsewhere = λ p q w n. if_neg (file_dec p q) n none (w q);
  make_directory_ok = λ p w. refl;
  look-make_directory = λ p q w. refl;
}

abbrev id : Text
id = codes "event_date=2026-06-11/event_hour=10"

abbrev lock : CompactionLock
lock = record {
  partition_id = id;
  owner_id = codes "a";
  acquired_at = codes "a0";
  expires_at = codes "a3600000000";
  run_id = codes "run1";
}

abbrev worker : LockManager
worker = manager default_config (codes "a") (codes "run1")

abbrev no_files : Files
no_files p = none

-- The file that the code makes for the partition's lock.
id_file : local_path (codes "locks/compaction") id ≡ record {
  is_absolute = false;
  parts =
      codes "locks"
      ∷ codes "compaction"
      ∷ codes "event_date=2026-06-11"
      ∷ codes "event_hour=10.lock"
      ∷ [];
}
unfolding local_path split parts_of text_dec ℕ_discrete
id_file = refl

write_local-read_local_example :
    let r = write_local disk codec worker lock no_files in
    (r.0 ≡ ok tt)
    × (look r.1 (path (lock_file_path (codes "locks/compaction") id)) ≡ some (to_json codec lock))
    × ((read_local disk codec worker id r.1).0 ≡ ok (some lock))
    × ((partition_id : Text)
        → HasPlainSegments partition_id
        → id ≢ partition_id
        → (read_local disk codec worker partition_id r.1).0
          ≡ (read_local disk codec worker partition_id no_files).0)
unfolding rstrip split text_dec ℕ_discrete
write_local-read_local_example =
    write_local-read_local disk codec look disk-IsFiling worker codec-IsLawful id refl
      (refl, (refl, tt)) lock no_files refl refl
