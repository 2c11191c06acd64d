-- ===== src/Scanner/Scan.antt =====
-- src/compactor/file_scanner.py: the listing of the table's objects, and the partitions found in it.

pub mod Buckets
pub mod Sorting
pub mod Totals
pub mod Laws
use data_lakehouse.Base.{ℕ, Bool, true, false, ◌||◌, not, Option, none, some, List, [], ◌∷◌, ◌++◌}
use data_lakehouse.Base.{◌==◌, Text, codes, if◌then◌else◌}
use data_lakehouse.Base.Dict
use data_lakehouse.Base.Dict.{Dict, values}
use data_lakehouse.Base.Strings.Affix.{contains, ends_with}
use data_lakehouse.Errors.{table_not_found}
use data_lakehouse.Exec.{Exec, pure, throw, ◌>>=◌}
use data_lakehouse.Time.{Datetime}
use data_lakehouse.Config.{Config, table_key_prefix}
use data_lakehouse.Scanner.{ParquetFileInfo, PartitionStats}
use data_lakehouse.Scanner.Keys.{parse_partition_from_key}
use data_lakehouse.Scanner.Order.{Key, key_dec, key_lt}

-- An entry of "Contents" in an answer of `list_objects_v2`: its "Key", "Size" and "LastModified".
pub record S3Object : Type 0 where
  pub key : Text
  pub size : ℕ
  pub last_modified : Datetime

-- An answer, which may have no "Contents".
abbrev pub Page : Type 0
Page = Option (List S3Object)

abbrev pub contents : Page → List S3Object
contents none = []
contents (some objects) = objects

abbrev pub Partitions : Type 0
Partitions = Dict Key PartitionStats

abbrev pub new_stats : Key → PartitionStats
new_stats k = record { event_date = k.0; event_hour = k.1; files = [] }

abbrev pub file_info : S3Object → ParquetFileInfo
file_info obj = record { key = obj.key; size_bytes = obj.size; last_modified = obj.last_modified }

-- `partitions[bucket_key]`, with an entry made for a new key.
abbrev pub get_or_new : Key → Option PartitionStats → PartitionStats
get_or_new k none = new_stats k
get_or_new k (some stats) = stats

-- The two statements from the test `bucket_key not in partitions` on.
unfoldable pub add_file : Key → ParquetFileInfo → Partitions → Partitions
unfolding Dict.get Dict.put key_dec
add_file bucket_key f partitions =
    let stats = get_or_new bucket_key (Dict.get key_dec bucket_key partitions) in
    Dict.put key_dec bucket_key (record stats { files = stats.files ++ (f ∷ []) }) partitions

abbrev pub add_parsed : Option Key → ParquetFileInfo → Partitions → Partitions
add_parsed none f partitions = partitions
add_parsed (some bucket_key) f partitions = add_file bucket_key f partitions

-- The body of the inner loop.
unfoldable pub scan_object : Config → Partitions → S3Object → Partitions
unfolding add_file contains ends_with parse_partition_from_key
scan_object config partitions obj =
    if contains (codes "_delta_log") obj.key || not (ends_with (codes ".parquet") obj.key)
    then partitions
    else add_parsed (parse_partition_from_key obj.key config) (file_info obj) partitions

unfoldable pub scan_objects : Config → Partitions → List S3Object → Partitions
unfolding scan_object
scan_objects config partitions [] = partitions
scan_objects config partitions (obj ∷ objects) =
    scan_objects config (scan_object config partitions obj) objects

unfoldable pub scan_pages : Config → Partitions → List Page → Partitions
unfolding scan_objects
scan_pages config partitions [] = partitions
scan_pages config partitions (page ∷ pages) =
    scan_pages config (scan_objects config partitions (contents page)) pages

abbrev pub key_of : PartitionStats → Key
key_of p = (p.event_date, p.event_hour)

-- `sorted` is stable: an element goes behind those that are not greater.
unfoldable pub insert_sorted : PartitionStats → List PartitionStats → List PartitionStats
unfolding key_lt
insert_sorted p [] = p ∷ []
insert_sorted p (q ∷ l) =
    let rest = insert_sorted p l in if key_lt (key_of p) (key_of q) then p ∷ q ∷ l else q ∷ rest

unfoldable pub sorted_onto : List PartitionStats → List PartitionStats → List PartitionStats
unfolding insert_sorted
sorted_onto l [] = l
sorted_onto l (p ∷ ps) = sorted_onto (insert_sorted p l) ps

-- The partitions of a complete listing.
unfoldable pub partitions_of : Config → List Page → List PartitionStats
unfolding scan_pages sorted_onto
partitions_of config pages = sorted_onto [] (values (scan_pages config [] pages))

-- The object store, as the scanner reads it: `list_objects_v2` with `MaxKeys=1` gives "KeyCount",
-- and the paginator gives the pages. Both take the bucket and the prefix, and may raise.
pub record Listing (W : Type 0) : Type 0 where
  pub key_count : Text → Text → Exec W ℕ
  pub paginate : Text → Text → Exec W (List Page)

module _ {W : Type 0} (s3 : Listing W) where
  unfoldable pub scan_partitions : Config → Exec W (List PartitionStats)
  unfolding partitions_of table_key_prefix
  scan_partitions config = do
    pages ← s3.paginate config.minio_bucket (table_key_prefix config ++ codes "/")
    pure (partitions_of config pages)

  unfoldable pub verify_delta_table_exists : Config → Exec W (Unit {0})
  unfolding table_key_prefix
  verify_delta_table_exists config = do
    let prefix = table_key_prefix config ++ codes "/_delta_log/"
    count ← s3.key_count config.minio_bucket prefix
    if count == 0
        then throw (
            table_not_found (
              codes "Delta table not found at "
              ++ (config.delta_table_path
                  ++ (codes " (no objects under " ++ (prefix ++ codes ")")))))
        else pure tt
