-- ===== src/Scanner.antt =====
-- src/compactor/file_scanner.py: the files of a partition, and the tests on them.
pub mod Keys
pub mod Order
pub mod Scan
use data_lakehouse.Base.{ℕ, ◌≡◌, Bool, true, false, ◌||◌, Option, none, some, List, [], ◌∷◌, ◌++◌}
use data_lakehouse.Base.{map, Text, codes, length, sum, keep_if, if◌then◌else◌, ℤ, pos, ltb_ℤ}
use data_lakehouse.Base.Strings.Decimal.{decimal}
use data_lakehouse.Errors.{Result, ok, ◌>>=◌ as bind}
use data_lakehouse.Exec.{Exec, lift, pure, ◌>>=◌}
use data_lakehouse.Time.{Datetime, naive, aware, as_utc, minutes, minus, is_later, latest_from}

pub record ParquetFileInfo : Type 0 where
  pub key : Text
  pub size_bytes : ℕ
  pub last_modified : Datetime

pub record PartitionStats : Type 0 where
  pub event_date : Text
  pub event_hour : ℕ
  pub files : List ParquetFileInfo

-- The text of `partition_id` for a date and an hour.
unfoldable pub id_of : Text → ℕ → Text
id_of date hour = codes "event_date=" ++ (date ++ (codes "/event_hour=" ++ decimal hour))

unfoldable pub partition_id : PartitionStats → Text
unfolding id_of
partition_id stats = id_of stats.event_date stats.event_hour

abbrev pub file_count : PartitionStats → ℕ
file_count stats = length stats.files

abbrev pub sizes : List ParquetFileInfo → List ℕ
sizes = map (λ f. f.size_bytes)

abbrev pub total_bytes : PartitionStats → ℕ
total_bytes stats = sum (sizes stats.files)

abbrev pub is_small_file : ℕ → ℤ → Bool
is_small_file size_bytes threshold_bytes = ltb_ℤ (pos size_bytes) threshold_bytes

abbrev pub small_files : PartitionStats → ℤ → List ParquetFileInfo
small_files stats threshold_bytes =
    keep_if (λ f. is_small_file f.size_bytes threshold_bytes) stats.files

unfoldable pub is_partition_eligible : PartitionStats → ℤ → ℤ → ℤ → Bool
is_partition_eligible stats threshold_bytes small_file_count_threshold file_count_threshold =
    let small_count = length (small_files stats threshold_bytes) in
    if ltb_ℤ small_file_count_threshold (pos small_count)
    then true
    else if ltb_ℤ file_count_threshold (pos (file_count stats))
    then true
    else false

-- `datetime.now(UTC)`, where `clock` gives the instant and what the world is after it was read.
abbrev pub now_utc : {W : Type 0} → (W → ℤ × W) → Exec W Datetime
now_utc clock s = let (t, s') = clock s in (ok (aware t), s')

-- `now or datetime.now(UTC)`
abbrev pub reference : {W : Type 0} → (W → ℤ × W) → Option Datetime → Exec W Datetime
reference clock none = now_utc clock
reference clock (some now) = pure now

-- The test against the time that was read.
unfoldable pub is_newer_than_cutoff :
    ParquetFileInfo → List ParquetFileInfo → ℤ → Datetime → Result Bool
unfolding is_later latest_from minus
is_newer_than_cutoff f fs skip_minutes now =
    bind (latest_from f.last_modified (map (λ g. g.last_modified) fs))
      (λ latest. is_later (as_utc latest) (minus now (minutes skip_minutes)))

-- Nothing is read of the clock if there is no file.
abbrev pub files_too_recent :
    {W : Type 0} → (W → ℤ × W) → List ParquetFileInfo → ℤ → Option Datetime → Exec W Bool
files_too_recent clock [] skip_minutes now = pure true
files_too_recent clock (f ∷ fs) skip_minutes now = do
  r ← reference clock now
  lift (is_newer_than_cutoff f fs skip_minutes r)

unfoldable pub partition_is_too_recent :
    {W : Type 0} → (W → ℤ × W) → PartitionStats → ℤ → Option Datetime → Exec W Bool
unfolding is_newer_than_cutoff
partition_is_too_recent clock stats skip_minutes now =
    files_too_recent clock stats.files skip_minutes now
