-- ===== src/Compactor/Counts.antt =====
-- src/compactor/delta_compactor.py: `_count_partition_files` finds the partition that it asks for.
use data_lakehouse.Base.{
  ℕ, ◌≡◌, refl, ◌∙◌, ap, sym, ◌≢◌, true, Option, none, some, List, [], ◌∷◌, ◌++◌, Text, codes,
  length, sum, All, if_pos, if_neg, text_dec,
}
use mathlib.Core.List.{append-nil, append_cancel_left}
use data_lakehouse.Base.Tests.{if-none-eq-some}
use data_lakehouse.Base.Dict
use data_lakehouse.Base.Dict.{values}
use data_lakehouse.Base.Strings.Affix.{span, span-append}
use data_lakehouse.Base.Strings.Decimal.{decimal, value, value-decimal}
use data_lakehouse.Config.{Config, is_not_slash}
use data_lakehouse.Scanner.{PartitionStats, ParquetFileInfo, id_of, partition_id, sizes}
use data_lakehouse.Scanner.Order.{Key, key_dec, key_lt, key_lt_irrefl}
use data_lakehouse.Scanner.Keys.Names.{IsDate}
use data_lakehouse.Scanner.Keys.Sound.{parse-Names}
use data_lakehouse.Scanner.Scan.{
  S3Object, Page, Partitions, key_of, file_info, get_or_new, add_file, add_parsed, scan_object,
  scan_objects, scan_pages, insert_sorted, sorted_onto, partitions_of,
}
use data_lakehouse.Scanner.Scan.Buckets.{
  files_at, added, all_objects, partition_of, scan_object-partition_of, scan_pages-all_objects,
}
use data_lakehouse.Scanner.Scan.Sorting.{IsIncreasing, All-insert_sorted}
use data_lakehouse.Scanner.Scan.Laws.{files_at-partitions_of, partitions_of-IsIncreasing}
use data_lakehouse.Compactor.{counts_in}

id_of-injective :
    (d e : Text) (h k : ℕ) → IsDate d → IsDate e → id_of d h ≡ id_of e k → (d ≡ e) × (h ≡ k)
unfolding id_of
id_of-injective d e h k hd he same =
    let rest =
      append_cancel_left (codes "event_date=") (d ++ (codes "/event_hour=" ++ decimal h))
        (e ++ (codes "/event_hour=" ++ decimal k)) same in
    let split =
      sym (span-append is_not_slash d b'/' (codes "event_hour=" ++ decimal h) hd.1 refl)
      ∙ ap (span is_not_slash) rest
      ∙ span-append is_not_slash e b'/' (codes "event_hour=" ++ decimal k) he.1 refl in
    let digits =
      append_cancel_left (codes "/event_hour=") (decimal h) (decimal k) (ap (λ x. x.1) split) in
    (ap (λ x. x.0) split, sym (value-decimal h) ∙ ap value digits ∙ value-decimal k)

-- The date of a partition is one that a key can spell.
abbrev HasDate : PartitionStats → Type 0
HasDate p = IsDate p.event_date

abbrev AllHaveDates : List PartitionStats → Type 0
AllHaveDates = All HasDate

put-AllHaveDates :
    (k : Key) (p : PartitionStats) (d : Partitions)
    → HasDate p
    → AllHaveDates (values d)
    → AllHaveDates (values (Dict.put key_dec k p d))
unfolding Dict.put
put-AllHaveDates k p [] h hd = (h, tt)
put-AllHaveDates k p ((j, q) ∷ d) h hd = elim (key_dec j k) [
  | yes e ↦ rw (if_pos (key_dec j k) e) (h, hd.1)
  | no n ↦ rw (if_neg (key_dec j k) n) (hd.0, put-AllHaveDates k p d h hd.1)
]

get_or_new-HasDate :
    (k : Key) (d : Partitions)
    → IsDate k.0
    → AllHaveDates (values d)
    → HasDate (get_or_new k (Dict.get key_dec k d))
unfolding Dict.get
get_or_new-HasDate k [] h hd = h
get_or_new-HasDate k ((j, q) ∷ d) h hd = elim (key_dec j k) [
  | yes e ↦ rw (if_pos (key_dec j k) e) hd.0
  | no n ↦ rw (if_neg (key_dec j k) n) (get_or_new-HasDate k d h hd.1)
]

add_parsed-AllHaveDates :
    (o : Option Key) (f : ParquetFileInfo) (d : Partitions)
    → ((k : Key) → o ≡ some k → IsDate k.0)
    → AllHaveDates (values d)
    → AllHaveDates (values (add_parsed o f d))
unfolding add_file
add_parsed-AllHaveDates none f d h hd = hd
add_parsed-AllHaveDates (some k) f d h hd =
    put-AllHaveDates k _ d (get_or_new-HasDate k d (h k refl) hd) hd

partition_of-IsDate :
    (config : Config) (obj : S3Object) (k : Key) → partition_of config obj ≡ some k → IsDate k.0
partition_of-IsDate config obj k h =
    (parse-Names config obj.key k.0 k.1 (if-none-eq-some _ _ h).1).date_ok

scan_objects-AllHaveDates :
    (config : Config) (d : Partitions) (objects : List S3Object)
    → AllHaveDates (values d)
    → AllHaveDates (values (scan_objects config d objects))
unfolding scan_objects
scan_objects-AllHaveDates config d [] h = h
scan_objects-AllHaveDates config d (obj ∷ objects) h =
    scan_objects-AllHaveDates config (scan_object config d obj) objects (
      rw scan_object-partition_of (
        add_parsed-AllHaveDates (partition_of config obj) (file_info obj) d
          (partition_of-IsDate config obj) h))

sorted_onto-AllHaveDates :
    (l ps : List PartitionStats)
    → AllHaveDates l
    → AllHaveDates ps
    → AllHaveDates (sorted_onto l ps)
unfolding sorted_onto
sorted_onto-AllHaveDates l [] hl h = hl
sorted_onto-AllHaveDates l (p ∷ ps) hl h =
    sorted_onto-AllHaveDates (insert_sorted p l) ps (All-insert_sorted HasDate p l h.0 hl) h.1

partitions_of-AllHaveDates :
    (config : Config) (pages : List Page) → AllHaveDates (partitions_of config pages)
unfolding partitions_of
partitions_of-AllHaveDates config pages =
    sorted_onto-AllHaveDates [] (values (scan_pages config [] pages)) tt
      (rw scan_pages-all_objects (scan_objects-AllHaveDates config [] (all_objects pages) tt))

-- The files of a partition that stands nowhere later are all there is.
files_at-later :
    (k : Key) (ps : List PartitionStats)
    → All (λ q. key_lt k (key_of q) ≡ true) ps
    → files_at k ps ≡ []
unfolding files_at
files_at-later k [] h = refl
files_at-later k (q ∷ ps) h =
    let apart : key_of q ≢ k = λ e. cc (rw e at h.0, key_lt_irrefl k) in
    if_neg (key_dec (key_of q) k) apart (q.files ++ files_at k ps) (files_at k ps)
    ∙ files_at-later k ps h.1

counts_in-files_at :
    (date : Text) (hour : ℕ) (ps : List PartitionStats)
    → IsDate date
    → IsIncreasing ps
    → AllHaveDates ps
    → counts_in (id_of date hour) ps
      ≡ (length (files_at (date, hour) ps), sum (sizes (files_at (date, hour) ps)))
unfolding counts_in files_at partition_id
counts_in-files_at date hour [] d inc h = refl
counts_in-files_at date hour (p ∷ ps) d inc h = elim (text_dec (partition_id p) (id_of date hour)) [
  | yes e ↦
      let (same_date, same_hour) = id_of-injective p.event_date date p.event_hour hour h.0 d e in
      let same : key_of p ≡ (date, hour) = λ i. (same_date i, same_hour i) in
      let rest : files_at (date, hour) ps ≡ [] =
        rw (sym same) (files_at-later (key_of p) ps inc.0) in
      rw (
        if_pos (text_dec (partition_id p) (id_of date hour)) e,
        if_pos (key_dec (key_of p) (date, hour)) same,
        rest,
        append-nil,
      )
  | no n ↦
      let apart : key_of p ≢ (date, hour) = λ e. n (ap (λ k. id_of k.0 k.1) e) in
      rw
        (
          if_neg (text_dec (partition_id p) (id_of date hour)) n,
          if_neg (key_dec (key_of p) (date, hour)) apart,
        )
        (counts_in-files_at date hour ps d inc.1 h.1)
]

-- What is counted of a partition after it was rewritten is the number and the total size of the listed
-- objects that belong to it, for a partition whose date has no slash; so none is counted of another.
counts_in-added :
    (config : Config) (date : Text) (hour : ℕ) (pages : List Page)
    → IsDate date
    → let fs = added config (date, hour) (all_objects pages) in
      counts_in (id_of date hour) (partitions_of config pages) ≡ (length fs, sum (sizes fs))
counts_in-added config date hour pages d =
    counts_in-files_at date hour (partitions_of config pages) d
      (partitions_of-IsIncreasing config pages) (partitions_of-AllHaveDates config pages)
    ∙ ap (λ fs. (length fs, sum (sizes fs))) (files_at-partitions_of config (date, hour) pages)
