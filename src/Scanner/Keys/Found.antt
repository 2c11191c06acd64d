-- ===== src/Scanner/Keys/Found.antt =====
-- Keys that spell a file of a partition are found.
use mathlib.Core.List.{append_assoc}
use data_lakehouse.Base.{ℕ, ◌≡◌, refl, ◌∙◌, ap, true, false, some}
use data_lakehouse.Base.{[], ◌∷◌, ◌++◌, Text, codes, inl, inr, Option-cases}
use data_lakehouse.Base.Strings.Affix.{
  strip_prefix, rstrip, strip_prefix-append, span-append, is_empty,
}
use data_lakehouse.Base.Strings.Decimal.{
  AllDigits, is_digit, decimal, decimal-is_empty, value, decimal-AllDigits, value-decimal,
}
use data_lakehouse.Config.{Config, table_key_prefix, slash, is_not_slash}
use data_lakehouse.Scanner.{id_of}
use data_lakehouse.Scanner.Keys.{
  is_parquet_tail, after_prefix, match_hour, match_date, match_at, search, parse_partition_from_key,
}
use data_lakehouse.Scanner.Keys.Names.{IsDate, in_partition, Names}

module _ (date digits tail : Text) where
  match_hour-digits :
      is_empty digits ≡ false
      → is_parquet_tail tail ≡ true
      → match_hour date (digits, codes "/" ++ tail) ≡ some (date, value digits)
  unfolding strip_prefix
  match_hour-digits some_digit parquet = rw (some_digit, parquet)

  match_date-digits :
      IsDate date
      → AllDigits digits
      → is_empty digits ≡ false
      → is_parquet_tail tail ≡ true
      → match_date (date, codes "/event_hour=" ++ (digits ++ (codes "/" ++ tail)))
        ≡ some (date, value digits)
  unfolding strip_prefix
  match_date-digits d all some_digit parquet = rw d.0 (
      ap (match_hour date) (span-append is_digit digits b'/' tail all refl)
      ∙ match_hour-digits some_digit parquet)

  match_at-in_partition :
      (p : Text)
      → IsDate date
      → AllDigits digits
      → is_empty digits ≡ false
      → is_parquet_tail tail ≡ true
      → match_at p (p ++ in_partition date digits tail) ≡ some (date, value digits)
  unfolding match_at strip_prefix
  match_at-in_partition p d all some_digit parquet =
      ap after_prefix (strip_prefix-append p (in_partition date digits tail))
      ∙ ap match_date (
          span-append is_not_slash date b'/'
            (codes "event_hour=" ++ (digits ++ (codes "/" ++ tail))) d.1 refl)
      ∙ match_date-digits d all some_digit parquet

id_of-append :
    (date : Text) (hour : ℕ) (tail : Text)
    → codes "/" ++ (id_of date hour ++ (codes "/" ++ tail)) ≡ in_partition date (decimal hour) tail
unfolding id_of
id_of-append date hour tail =
    ap (λ t. codes "/event_date=" ++ t)
      (append_assoc date (codes "/event_hour=" ++ decimal hour) (codes "/" ++ tail))

search_of_match_at : (p s : Text) (m : Text × ℕ) → match_at p s ≡ some m → search p s ≡ some m
unfolding search
search_of_match_at p [] m h = h
search_of_match_at p (c ∷ s) m h = rw (h, search)

search_of_later :
    (p before s : Text) (m : Text × ℕ)
    → match_at p s ≡ some m
    → (n : Text × ℕ) × (search p (before ++ s) ≡ some n)
unfolding search
search_of_later p [] s m h = (m, search_of_match_at p s m h)
search_of_later p (c ∷ before) s m h = elim (Option-cases (match_at p (c ∷ (before ++ s)))) [
  | inl e ↦ let (n, found) = search_of_later p before s m h in (n, rw (e, search) found)
  | inr (n, e) ↦ (n, rw (e, search))
]

-- The key of a file below a partition's directory names that partition: the directory of a date
-- without slashes and of an hour, under the table's prefix, and any file name that ends in
-- `.parquet` and has no newline.
pub parse-id_of :
    (config : Config) (date : Text) (hour : ℕ) (tail : Text)
    → IsDate date
    → is_parquet_tail tail ≡ true
    → let prefix = rstrip slash (table_key_prefix config) in
      parse_partition_from_key
        (prefix ++ (codes "/" ++ (id_of date hour ++ (codes "/" ++ tail))))
        config
      ≡ some (date, hour)
unfolding parse_partition_from_key
parse-id_of config date hour tail d parquet =
    let prefix = rstrip slash (table_key_prefix config) in
    rw id_of-append (
      search_of_match_at prefix _ (date, hour)
        (match_at-in_partition date (decimal hour) tail prefix d (decimal-AllDigits hour)
            (decimal-is_empty hour) parquet
          ∙ ap (λ n. some (date, n)) (value-decimal hour)))

-- Every key that spells, anywhere in it, the table's prefix, a directory of a date and of some
-- digits for an hour, and a parquet file in it, is taken for a file of some partition: the
-- expression is not tied to the beginning of the key.
pub parse_of_Names :
    (config : Config) (key date : Text) (hour : ℕ)
    → Names (rstrip slash (table_key_prefix config)) key date hour
    → (m : Text × ℕ) × (parse_partition_from_key key config ≡ some m)
unfolding parse_partition_from_key
parse_of_Names config key date hour n =
    let prefix = rstrip slash (table_key_prefix config) in
    rw n.spells (
      search_of_later prefix n.before (prefix ++ in_partition date n.digits n.tail)
        (date, value n.digits)
        (match_at-in_partition date n.digits n.tail prefix n.date_ok n.digits_ok n.digits_some
          n.parquet))
