-- ===== src/Tests/Scanning.antt =====
-- The scanner's theorems at a listing.
use Prim.Native.Nat.{◌≤◌}
use data_lakehouse.Base.{ℕ, ◌≡◌, refl, some, Text, codes, length, sum, ◌*◌, pos, arith}
use data_lakehouse.Base.Strings.Affix.{rstrip, strip_prefix, span}
use data_lakehouse.Base.Strings.Decimal.{decimal, digits_onto, value, value_onto}
use data_lakehouse.Errors.{ok}
use data_lakehouse.Config.{default_config, table_key_prefix, without_scheme, slash}
use data_lakehouse.Scanner.{sizes, id_of}
use data_lakehouse.Scanner.Keys.{parse_partition_from_key, is_parquet_tail}
use data_lakehouse.Scanner.Keys.Names.{IsDate, Names}
use data_lakehouse.Scanner.Keys.Found.{parse-id_of, parse_of_Names}
use data_lakehouse.Scanner.Scan.{partitions_of}
use data_lakehouse.Scanner.Scan.Buckets.{files_at, added, all_objects}
use data_lakehouse.Scanner.Scan.Totals.{count_files, count_bytes, table_files, partitions_of-totals}
use data_lakehouse.Scanner.Scan.Laws.{files_at-partitions_of}
use data_lakehouse.Sizing.{estimate_output_file_count, estimate_least}
use data_lakehouse.Tests.Fixtures.{pages}

abbrev date : Text
date = codes "2026-06-11"

date-IsDate : IsDate date
date-IsDate =
    (refl, (refl, (refl, (refl, (refl, (refl, (refl, (refl, (refl, (refl, (refl, tt)))))))))))

files_at-partitions_of_example :
    files_at (date, 10) (partitions_of default_config pages)
    ≡ added default_config (date, 10) (all_objects pages)
files_at-partitions_of_example = files_at-partitions_of default_config (date, 10) pages

partitions_of-totals_example :
    (count_files (partitions_of default_config pages)
      ≡ length (table_files default_config (all_objects pages)))
    × (count_bytes (partitions_of default_config pages)
        ≡ sum (sizes (table_files default_config (all_objects pages))))
partitions_of-totals_example = partitions_of-totals default_config pages

parse-id_of_example :
    parse_partition_from_key
      (codes "raw/events/event_date=2026-06-11/event_hour=10/a.parquet")
      default_config
    ≡ some (date, 10)
unfolding rstrip table_key_prefix without_scheme strip_prefix span id_of decimal digits_onto
    is_parquet_tail
parse-id_of_example = parse-id_of default_config date 10 (codes "a.parquet") date-IsDate refl

-- A key that the table's prefix does not begin.
abbrev backup_key : Text
backup_key = codes "backup/raw/events/event_date=2026-06-11/event_hour=07/a.parquet"

backup-Names : Names (rstrip slash (table_key_prefix default_config)) backup_key date 7
unfolding rstrip table_key_prefix without_scheme strip_prefix span value value_onto is_parquet_tail
backup-Names = record {
  before = codes "backup/";
  digits = codes "07";
  tail = codes "a.parquet";
  spells = refl;
  date_ok = date-IsDate;
  digits_ok = (refl, (refl, tt));
  digits_some = refl;
  hour_ok = refl;
  parquet = refl;
}

parse_of_Names_example :
    (m : Text × ℕ) × (parse_partition_from_key backup_key default_config ≡ some m)
parse_of_Names_example = parse_of_Names default_config backup_key date 7 backup-Names

estimate_least_example :
    (n : ℕ) × (estimate_output_file_count (pos 300) (pos 128) ≡ ok n)
    × (300 ≤ n * 128)
    × ((m : ℕ) → 300 ≤ m * 128 → n ≤ m)
estimate_least_example = estimate_least 300 128 (omega arith) (omega arith)
