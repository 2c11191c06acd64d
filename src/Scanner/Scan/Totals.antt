-- ===== src/Scanner/Scan/Totals.antt =====
-- How many files and bytes the partitions of a listing hold.
use data_lakehouse.Base.{
  ℕ, ◌≡◌, refl, ◌∙◌, ap, sym, Bool, true, false, Option, none, some, List, [], ◌∷◌, ◌++◌, map,
  if_pos, if_neg, arith, if◌then◌else◌, length, sum, ◌+◌,
}
use data_lakehouse.Base.Dict
use data_lakehouse.Base.Dict.{values}
use data_lakehouse.Base.Strings.Affix.{is_some}
use data_lakehouse.Config.{Config}
use data_lakehouse.Scanner.{ParquetFileInfo, PartitionStats, file_count, total_bytes, sizes}
use data_lakehouse.Scanner.Order.{Key, key_dec}
use data_lakehouse.Scanner.Scan.{
  S3Object, Page, Partitions, file_info, get_or_new, add_file, add_parsed, scan_object,
  scan_objects, scan_pages, insert_sorted, sorted_onto, partitions_of,
}
use data_lakehouse.Scanner.Scan.Buckets.{
  partition_of, scan_object-partition_of, all_objects, scan_pages-all_objects,
}

-- A quantity of files that adds up over lists of files.
module _ (weight : ParquetFileInfo → ℕ) where
  abbrev pub weigh : List ParquetFileInfo → ℕ
  weigh [] = 0
  weigh (f ∷ fs) = weight f + weigh fs

  abbrev pub weigh_all : List PartitionStats → ℕ
  weigh_all [] = 0
  weigh_all (p ∷ ps) = weigh p.files + weigh_all ps

  weigh-append : (fs gs : List ParquetFileInfo) → weigh (fs ++ gs) ≡ weigh fs + weigh gs
  weigh-append [] gs = omega arith
  weigh-append (f ∷ fs) gs = omega (arith, weigh-append fs gs)

  weigh_all-insert_sorted :
      (p : PartitionStats) (l : List PartitionStats)
      → weigh_all (insert_sorted p l) ≡ weigh p.files + weigh_all l
  unfolding insert_sorted
  weigh_all-insert_sorted p [] = refl
  weigh_all-insert_sorted p (q ∷ l) = ground (arith, weigh_all-insert_sorted p l)

  weigh_all-sorted_onto :
      (l ps : List PartitionStats) → weigh_all (sorted_onto l ps) ≡ weigh_all l + weigh_all ps
  unfolding sorted_onto
  weigh_all-sorted_onto l [] = omega arith
  weigh_all-sorted_onto l (p ∷ ps) =
      omega (arith, weigh_all-sorted_onto (insert_sorted p l) ps, weigh_all-insert_sorted p l)

  weigh_all-put :
      (k : Key) (p : PartitionStats) (d : Partitions)
      → weigh_all (values (Dict.put key_dec k p d))
          + weigh (get_or_new k (Dict.get key_dec k d)).files
        ≡ weigh_all (values d) + weigh p.files
  unfolding Dict.put Dict.get
  weigh_all-put k p [] = omega arith
  weigh_all-put k p ((j, q) ∷ d) = elim (key_dec j k) [
    | yes e ↦ rw (if_pos _ e, if_pos _ e) (omega arith)
    | no n ↦ rw (if_neg _ n, if_neg _ n) (omega (arith, weigh_all-put k p d))
  ]

  weigh_all-add_file :
      (k : Key) (f : ParquetFileInfo) (d : Partitions)
      → weigh_all (values (add_file k f d)) ≡ weigh_all (values d) + weight f
  unfolding add_file
  weigh_all-add_file k f d =
      let stats = get_or_new k (Dict.get key_dec k d) in
      omega (
        arith,
        weigh_all-put k (record stats { files = stats.files ++ (f ∷ []) }) d,
        weigh-append stats.files (f ∷ []),
      )

  weigh_all-add_parsed :
      (o : Option Key) (f : ParquetFileInfo) (d : Partitions)
      → weigh_all (values (add_parsed o f d))
        ≡ weigh_all (values d) + (if is_some o then weight f else 0)
  weigh_all-add_parsed none f d = omega arith
  weigh_all-add_parsed (some k) f d = weigh_all-add_file k f d

-- The files of the objects that belong to some partition.
abbrev pub table_files : Config → List S3Object → List ParquetFileInfo
table_files config [] = []
table_files config (obj ∷ objects) =
    let rest = table_files config objects in
    if is_some (partition_of config obj) then file_info obj ∷ rest else rest

module _ (weight : ParquetFileInfo → ℕ) (config : Config) where
  weigh_if :
      (b : Bool) (f : ParquetFileInfo) (fs : List ParquetFileInfo)
      → weigh weight (if b then f ∷ fs else fs) ≡ (if b then weight f else 0) + weigh weight fs
  weigh_if true f fs = refl
  weigh_if false f fs = omega arith

  weigh_all-scan_objects :
      (d : Partitions) (objects : List S3Object)
      → weigh_all weight (values (scan_objects config d objects))
        ≡ weigh_all weight (values d) + weigh weight (table_files config objects)
  unfolding scan_objects
  weigh_all-scan_objects d [] = omega arith
  weigh_all-scan_objects d (obj ∷ objects) = omega (
    arith,
    weigh_all-scan_objects (scan_object config d obj) objects,
    ap (λ e. weigh_all weight (values e)) (scan_object-partition_of config d obj),
    weigh_all-add_parsed weight (partition_of config obj) (file_info obj) d,
    weigh_if (is_some (partition_of config obj)) (file_info obj) (table_files config objects),
  )

  weigh_all-partitions_of :
      (pages : List Page)
      → weigh_all weight (partitions_of config pages)
        ≡ weigh weight (table_files config (all_objects pages))
  unfolding partitions_of
  weigh_all-partitions_of pages = omega (
    arith,
    weigh_all-sorted_onto weight [] (values (scan_pages config [] pages)),
    ap (λ e. weigh_all weight (values e)) (scan_pages-all_objects config [] pages),
    weigh_all-scan_objects [] (all_objects pages),
  )

-- `sum(p.file_count for p in partitions)` and `sum(p.total_bytes for p in partitions)`
abbrev pub count_files : List PartitionStats → ℕ
count_files partitions = sum (map file_count partitions)

abbrev pub count_bytes : List PartitionStats → ℕ
count_bytes partitions = sum (map total_bytes partitions)

weigh-length : (fs : List ParquetFileInfo) → weigh (λ f. 1) fs ≡ length fs
weigh-length [] = refl
weigh-length (f ∷ fs) = omega (arith, weigh-length fs)

weigh_all-count_files : (ps : List PartitionStats) → weigh_all (λ f. 1) ps ≡ count_files ps
weigh_all-count_files [] = refl
weigh_all-count_files (p ∷ ps) = omega (arith, weigh-length p.files, weigh_all-count_files ps)

weigh-sizes : (fs : List ParquetFileInfo) → weigh (λ f. f.size_bytes) fs ≡ sum (sizes fs)
weigh-sizes [] = refl
weigh-sizes (f ∷ fs) = omega (arith, weigh-sizes fs)

weigh_all-count_bytes :
    (ps : List PartitionStats) → weigh_all (λ f. f.size_bytes) ps ≡ count_bytes ps
weigh_all-count_bytes [] = refl
weigh_all-count_bytes (p ∷ ps) = omega (arith, weigh-sizes p.files, weigh_all-count_bytes ps)

-- The partitions of a listing hold as many files as there are objects of the table in it, and as
-- many bytes: none is lost and none counted twice.
pub partitions_of-totals :
    (config : Config) (pages : List Page)
    → (count_files (partitions_of config pages) ≡ length (table_files config (all_objects pages)))
      × (count_bytes (partitions_of config pages)
          ≡ sum (sizes (table_files config (all_objects pages))))
partitions_of-totals config pages =
    let ps = partitions_of config pages in
    let fs = table_files config (all_objects pages) in
    (
      sym (weigh_all-count_files ps)
          ∙ weigh_all-partitions_of (λ f. 1) config pages
          ∙ weigh-length fs,
      sym (weigh_all-count_bytes ps)
          ∙ weigh_all-partitions_of (λ f. f.size_bytes) config pages
          ∙ weigh-sizes fs,
    )
