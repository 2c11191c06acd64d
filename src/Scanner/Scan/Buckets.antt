-- ===== src/Scanner/Scan/Buckets.antt =====
-- What the loops of `scan_partitions` collect under each key.
use mathlib.Core.List.{append_assoc, append-nil}
use data_lakehouse.Base.{
  ◌≡◌, refl, ◌∙◌, ap, sym, ◌≢◌, Bool, true, false, ◌||◌, not, Option, none, some, List, [], ◌∷◌,
  ◌++◌, map, ite, if_pos, if_neg, arith, if◌then◌else◌, keep_if, codes,
}
use data_lakehouse.Base.Dict
use data_lakehouse.Base.Dict.{Dict, values, NodupKeys}
use data_lakehouse.Base.Strings.Affix.{contains, ends_with}
use data_lakehouse.Config.{Config}
use data_lakehouse.Scanner.{ParquetFileInfo, PartitionStats}
use data_lakehouse.Scanner.Keys.{parse_partition_from_key}
use data_lakehouse.Scanner.Order.{Key, key_dec}
use data_lakehouse.Scanner.Scan.{
  S3Object, Page, contents, Partitions, file_info, get_or_new, add_file, add_parsed, scan_object,
  scan_objects, scan_pages, key_of,
}

-- The partition to which an object belongs, if any.
abbrev pub partition_of : Config → S3Object → Option Key
partition_of config obj =
    if contains (codes "_delta_log") obj.key || not (ends_with (codes ".parquet") obj.key)
    then none
    else parse_partition_from_key obj.key config

abbrev is_key : Key → Option Key → Bool
is_key k none = false
is_key k (some j) = ite (key_dec j k) true false

-- The objects of one partition, in the order of the listing.
abbrev pub belongs_to : Config → Key → S3Object → Bool
belongs_to config k obj = is_key k (partition_of config obj)

-- Every partition is filed under its own date and hour.
abbrev pub Keyed : Partitions → Type 0
Keyed [] = Unit
Keyed ((k, p) ∷ d) = (key_of p ≡ k) × Keyed d

abbrev files_of : Option PartitionStats → List ParquetFileInfo
files_of none = []
files_of (some p) = p.files

abbrev files_in : Key → Partitions → List ParquetFileInfo
files_in k d = files_of (Dict.get key_dec k d)

-- The files of all partitions in a list that have this date and hour.
unfoldable pub files_at : Key → List PartitionStats → List ParquetFileInfo
files_at k [] = []
files_at k (p ∷ l) = ite (key_dec (key_of p) k) (p.files ++ files_at k l) (files_at k l)

get_or_new-files : (k : Key) (o : Option PartitionStats) → (get_or_new k o).files ≡ files_of o
get_or_new-files k none = refl
get_or_new-files k (some p) = refl

files_in-add_file_self :
    (k : Key) (f : ParquetFileInfo) (d : Partitions)
    → files_in k (add_file k f d) ≡ files_in k d ++ (f ∷ [])
unfolding add_file
files_in-add_file_self k f d =
    rw Dict.get-put_self (ap (λ fs. fs ++ (f ∷ [])) (get_or_new-files k (Dict.get key_dec k d)))

files_in-add_file_ne :
    (k j : Key) (f : ParquetFileInfo) (d : Partitions)
    → j ≢ k
    → files_in k (add_file j f d) ≡ files_in k d
unfolding add_file
files_in-add_file_ne k j f d n = ap files_of (Dict.get-put_ne key_dec j k _ d (λ e. n (sym e)))

pub scan_object-partition_of :
    (config : Config) (d : Partitions) (obj : S3Object)
    → scan_object config d obj ≡ add_parsed (partition_of config obj) (file_info obj) d
unfolding scan_object
scan_object-partition_of config d obj = ground arith

files_in-add_parsed :
    (k : Key) (o : Option Key) (f : ParquetFileInfo) (d : Partitions)
    → files_in k (add_parsed o f d) ≡ files_in k d ++ (if is_key k o then f ∷ [] else [])
files_in-add_parsed k none f d = sym (append-nil (files_in k d))
files_in-add_parsed k (some j) f d = elim (key_dec j k) [
  | yes e ↦ rw (if_pos _ e) (rw e (files_in-add_file_self k f d))
  | no n ↦ rw (if_neg _ n) (files_in-add_file_ne k j f d n ∙ sym (append-nil (files_in k d)))
]

-- What a run of objects adds under a key.
abbrev pub added : Config → Key → List S3Object → List ParquetFileInfo
added config k objects = map file_info (keep_if (belongs_to config k) objects)

added_if :
    (b : Bool) (obj : S3Object) (rest : List S3Object)
    → (if b then file_info obj ∷ [] else []) ++ map file_info rest
      ≡ map file_info (if b then obj ∷ rest else rest)
added_if true obj rest = refl
added_if false obj rest = refl

files_in-scan_object :
    (config : Config) (k : Key) (d : Partitions) (obj : S3Object)
    → files_in k (scan_object config d obj)
      ≡ files_in k d ++ (if belongs_to config k obj then file_info obj ∷ [] else [])
files_in-scan_object config k d obj =
    ap (files_in k) (scan_object-partition_of config d obj)
    ∙ files_in-add_parsed k (partition_of config obj) (file_info obj) d

files_in-scan_objects :
    (config : Config) (k : Key) (d : Partitions) (objects : List S3Object)
    → files_in k (scan_objects config d objects) ≡ files_in k d ++ added config k objects
unfolding scan_objects
files_in-scan_objects config k d [] = sym (append-nil (files_in k d))
files_in-scan_objects config k d (obj ∷ objects) =
    files_in-scan_objects config k (scan_object config d obj) objects
    ∙ ap (λ fs. fs ++ added config k objects) (files_in-scan_object config k d obj)
    ∙ append_assoc (files_in k d) _ (added config k objects)
    ∙ ap (λ fs. files_in k d ++ fs)
        (added_if (belongs_to config k obj) obj (keep_if (belongs_to config k) objects))

-- The entries of a listing, page by page.
abbrev pub all_objects : List Page → List S3Object
all_objects [] = []
all_objects (page ∷ pages) = contents page ++ all_objects pages

scan_objects-append :
    (config : Config) (d : Partitions) (xs ys : List S3Object)
    → scan_objects config d (xs ++ ys) ≡ scan_objects config (scan_objects config d xs) ys
unfolding scan_objects
scan_objects-append config d [] ys = refl
scan_objects-append config d (x ∷ xs) ys = scan_objects-append config (scan_object config d x) xs ys

pub scan_pages-all_objects :
    (config : Config) (d : Partitions) (pages : List Page)
    → scan_pages config d pages ≡ scan_objects config d (all_objects pages)
unfolding scan_pages
scan_pages-all_objects config d [] = refl
scan_pages-all_objects config d (page ∷ pages) =
    scan_pages-all_objects config (scan_objects config d (contents page)) pages
    ∙ sym (scan_objects-append config d (contents page) (all_objects pages))

put-Keyed :
    (k : Key) (p : PartitionStats) (d : Partitions)
    → key_of p ≡ k
    → Keyed d
    → Keyed (Dict.put key_dec k p d)
unfolding Dict.put
put-Keyed k p [] e h = (e, tt)
put-Keyed k p ((j, q) ∷ d) e h = elim (key_dec j k) [
  | yes y ↦ rw (if_pos _ y) (e ∙ sym y, h.1)
  | no n ↦ rw (if_neg _ n) (h.0, put-Keyed k p d e h.1)
]

get-key_of : (k : Key) (d : Partitions) → Keyed d → key_of (get_or_new k (Dict.get key_dec k d)) ≡ k
unfolding Dict.get
get-key_of k [] h = refl
get-key_of k ((j, q) ∷ d) h = elim (key_dec j k) [
  | yes y ↦ rw (if_pos _ y) (h.0 ∙ y)
  | no n ↦ rw (if_neg _ n) (get-key_of k d h.1)
]

-- A dictionary of partitions as the loops keep it.
pub record IsFiled (d : Partitions) : Type 0 where
  pub keyed : Keyed d
  pub nodup : NodupKeys key_dec d

pub nil-IsFiled : IsFiled []
nil-IsFiled = record { keyed = tt; nodup = tt }

add_file-IsFiled :
    (k : Key) (f : ParquetFileInfo) (d : Partitions) → IsFiled d → IsFiled (add_file k f d)
unfolding add_file
add_file-IsFiled k f d h = record {
  keyed = put-Keyed k _ d (get-key_of k d h.keyed) h.keyed;
  nodup = Dict.put-NodupKeys key_dec k _ d h.nodup;
}

add_parsed-IsFiled :
    (o : Option Key) (f : ParquetFileInfo) (d : Partitions) → IsFiled d → IsFiled (add_parsed o f d)
add_parsed-IsFiled none f d h = h
add_parsed-IsFiled (some k) f d h = add_file-IsFiled k f d h

scan_object-IsFiled :
    (config : Config) (d : Partitions) (obj : S3Object)
    → IsFiled d
    → IsFiled (scan_object config d obj)
scan_object-IsFiled config d obj h =
    rw scan_object-partition_of (add_parsed-IsFiled (partition_of config obj) (file_info obj) d h)

pub scan_objects-IsFiled :
    (config : Config) (d : Partitions) (objects : List S3Object)
    → IsFiled d
    → IsFiled (scan_objects config d objects)
unfolding scan_objects
scan_objects-IsFiled config d [] h = h
scan_objects-IsFiled config d (obj ∷ objects) h =
    scan_objects-IsFiled config (scan_object config d obj) objects
      (scan_object-IsFiled config d obj h)

files_at-values :
    (k : Key) (d : Partitions)
    → Keyed d
    → NodupKeys key_dec d
    → files_at k (values d) ≡ files_in k d
unfolding files_at Dict.get
files_at-values k [] h u = refl
files_at-values k ((j, p) ∷ d) h u = elim (key_dec j k) [
  | yes e ↦
      rw (if_pos (key_dec (key_of p) k) (h.0 ∙ e), if_pos (key_dec j k) e)
        (ap (λ fs. p.files ++ fs) (files_at-values k d h.1 u.1 ∙ ap files_of (rw e at u.0))
          ∙ append-nil p.files)
  | no n ↦
      rw (if_neg (key_dec (key_of p) k) (λ e. n (sym h.0 ∙ e)), if_neg (key_dec j k) n)
        (files_at-values k d h.1 u.1)
]

-- What the scan files under a key: the files of the objects that belong to it.
pub files_at-scan_pages :
    (config : Config) (k : Key) (pages : List Page)
    → files_at k (values (scan_pages config [] pages)) ≡ added config k (all_objects pages)
unfolding Dict.get
files_at-scan_pages config k pages =
    let filed = scan_objects-IsFiled config [] (all_objects pages) nil-IsFiled in
    rw scan_pages-all_objects (
      files_at-values k (scan_objects config [] (all_objects pages)) filed.keyed filed.nodup
      ∙ files_in-scan_objects config k [] (all_objects pages))
