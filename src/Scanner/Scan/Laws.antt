-- ===== src/Scanner/Scan/Laws.antt =====
-- What the scan returns, against a description by the objects of the listing.
use data_lakehouse.Base.{
  ◌≡◌, ◌∙◌, Option, none, some, List, [], ◌∷◌, arith, All, ◌<◌, length-append,
}
use data_lakehouse.Base.Dict
use data_lakehouse.Base.Dict.{values}
use data_lakehouse.Config.{Config}
use data_lakehouse.Scanner.{ParquetFileInfo, PartitionStats, file_count}
use data_lakehouse.Scanner.Order.{Key, key_dec}
use data_lakehouse.Scanner.Scan.{
  S3Object, Page, Partitions, file_info, get_or_new, add_file, add_parsed, scan_object,
  scan_objects, scan_pages, sorted_onto, insert_sorted, partitions_of,
}
use data_lakehouse.Scanner.Scan.Buckets.{
  partition_of, scan_object-partition_of, all_objects, scan_pages-all_objects, files_at, added,
  files_at-scan_pages, scan_objects-IsFiled, nil-IsFiled,
}
use data_lakehouse.Scanner.Scan.Sorting.{
  IsIncreasing, All-insert_sorted, files_at-sorted_onto, sorted-IsIncreasing,
}

-- The files that the scan reports under a date and an hour are those of the listed objects that
-- belong there, in the order of the listing, over all pages.
pub files_at-partitions_of :
    (config : Config) (k : Key) (pages : List Page)
    → files_at k (partitions_of config pages) ≡ added config k (all_objects pages)
unfolding partitions_of files_at
files_at-partitions_of config k pages =
    files_at-sorted_onto k [] (values (scan_pages config [] pages)) tt
    ∙ files_at-scan_pages config k pages

-- Dates and hours increase strictly along the reported partitions; so no partition comes twice.
pub partitions_of-IsIncreasing :
    (config : Config) (pages : List Page) → IsIncreasing (partitions_of config pages)
unfolding partitions_of
partitions_of-IsIncreasing config pages = rw scan_pages-all_objects (
    sorted-IsIncreasing (scan_objects config [] (all_objects pages))
      (scan_objects-IsFiled config [] (all_objects pages) nil-IsFiled))

abbrev HasFile : PartitionStats → Type 0
HasFile p = 0 < file_count p

abbrev pub AllHaveFiles : List PartitionStats → Type 0
AllHaveFiles = All HasFile

put-AllHaveFiles :
    (k : Key) (p : PartitionStats) (d : Partitions)
    → HasFile p
    → AllHaveFiles (values d)
    → AllHaveFiles (values (Dict.put key_dec k p d))
unfolding Dict.put
put-AllHaveFiles k p [] h hd = (h, tt)
put-AllHaveFiles k p ((j, q) ∷ d) h hd = ground (arith, put-AllHaveFiles k p d h hd.1)

add_parsed-AllHaveFiles :
    (o : Option Key) (f : ParquetFileInfo) (d : Partitions)
    → AllHaveFiles (values d)
    → AllHaveFiles (values (add_parsed o f d))
unfolding add_file
add_parsed-AllHaveFiles none f d h = h
add_parsed-AllHaveFiles (some k) f d h =
    put-AllHaveFiles k _ d
      (omega (arith, length-append (get_or_new k (Dict.get key_dec k d)).files (f ∷ []))) h

scan_objects-AllHaveFiles :
    (config : Config) (d : Partitions) (objects : List S3Object)
    → AllHaveFiles (values d)
    → AllHaveFiles (values (scan_objects config d objects))
unfolding scan_objects
scan_objects-AllHaveFiles config d [] h = h
scan_objects-AllHaveFiles config d (obj ∷ objects) h =
    scan_objects-AllHaveFiles config (scan_object config d obj) objects (
      rw scan_object-partition_of
        (add_parsed-AllHaveFiles (partition_of config obj) (file_info obj) d h))

sorted_onto-AllHaveFiles :
    (l ps : List PartitionStats)
    → AllHaveFiles l
    → AllHaveFiles ps
    → AllHaveFiles (sorted_onto l ps)
unfolding sorted_onto
sorted_onto-AllHaveFiles l [] hl h = hl
sorted_onto-AllHaveFiles l (p ∷ ps) hl h =
    sorted_onto-AllHaveFiles (insert_sorted p l) ps (All-insert_sorted HasFile p l h.0 hl) h.1

-- A partition that the scan reports has at least one file.
partitions_of-AllHaveFiles :
    (config : Config) (pages : List Page) → AllHaveFiles (partitions_of config pages)
unfolding partitions_of
partitions_of-AllHaveFiles config pages =
    sorted_onto-AllHaveFiles [] (values (scan_pages config [] pages)) tt
      (rw scan_pages-all_objects (scan_objects-AllHaveFiles config [] (all_objects pages) tt))
