-- ===== src/Scanner/Keys/Sound.antt =====
-- Keys that are found spell a file of a partition.
use data_lakehouse.Base.{ℕ, ◌≡◌, refl, ◌∙◌, ap, true, false, Option, none, some}
use data_lakehouse.Base.Tests.{if-none-eq-some}
use data_lakehouse.Base.{[], ◌∷◌, ◌++◌, Text, codes, arith, inl, inr, Option-cases}
use data_lakehouse.Base.Strings.Affix.{
  strip_prefix, span, rstrip, append_of_strip_prefix, span_lem, is_empty,
}
use data_lakehouse.Base.Strings.Decimal.{is_digit, value}
use data_lakehouse.Config.{Config, table_key_prefix, slash, is_not_slash}
use data_lakehouse.Scanner.Keys.{
  is_parquet_tail, after_hour, after_date, after_table, after_prefix, match_hour, match_date,
  match_at, search, parse_partition_from_key,
}
use data_lakehouse.Scanner.Keys.Names.{Names}

module _ (date : Text) (m : Text × ℕ) where
  after_hour_inv :
      (hour : Text) (o : Option Text)
      → after_hour date hour o ≡ some m
      → (tail : Text) × (o ≡ some tail) × (m ≡ (date, value hour)) × (is_parquet_tail tail ≡ true)
  after_hour_inv hour none h = cc
  after_hour_inv hour (some tail) h = (tail, refl, ground arith, ground arith)

  match_hour_inv :
      (hour rest : Text)
      → match_hour date (hour, rest) ≡ some m
      → (is_empty hour ≡ false)
        × (tail : Text) × (rest ≡ codes "/" ++ tail)
        × (m ≡ (date, value hour))
        × (is_parquet_tail tail ≡ true)
  match_hour_inv hour rest h =
      let (some_digit, h') = if-none-eq-some (is_empty hour) _ h in
      let (tail, slash_next, names, parquet) =
        after_hour_inv hour (strip_prefix (codes "/") rest) h' in
      (some_digit, tail, append_of_strip_prefix _ rest tail slash_next, names, parquet)

  after_date_inv :
      (o : Option Text)
      → after_date date o ≡ some m
      → (rest : Text) × (o ≡ some rest) × (match_hour date (span is_digit rest) ≡ some m)
  after_date_inv none h = cc
  after_date_inv (some rest) h = (rest, refl, h)

after_table_inv :
    (m : Text × ℕ) (o : Option Text)
    → after_table o ≡ some m
    → (rest : Text) × (o ≡ some rest) × (match_date (span is_not_slash rest) ≡ some m)
after_table_inv m none h = cc
after_table_inv m (some rest) h = (rest, refl, h)

after_prefix_inv :
    (m : Text × ℕ) (o : Option Text)
    → after_prefix o ≡ some m
    → (rest : Text) × (o ≡ some rest)
      × (after_table (strip_prefix (codes "/event_date=") rest) ≡ some m)
after_prefix_inv m none h = cc
after_prefix_inv m (some rest) h = (rest, refl, h)

-- What was matched at the beginning of a text spells the partition's directory and a file in it.
match_at-Names : (p s : Text) (m : Text × ℕ) → match_at p s ≡ some m → Names p s m.0 m.1
unfolding match_at
match_at-Names p s m h =
    let (r1, e1, h1) = after_prefix_inv m (strip_prefix p s) h in
    let (r2, e2, h2) = after_table_inv m (strip_prefix (codes "/event_date=") r1) h1 in
    let date = (span is_not_slash r2).0 in
    let (date_some, h3) = if-none-eq-some (is_empty date) _ h2 in
    let (r3, e3, h4) = after_date_inv date m _ h3 in
    let hour = (span is_digit r3).0 in
    let (hour_some, tail, e4, names, parquet) =
      match_hour_inv date m hour (span is_digit r3).1 h4 in
    let to_hour : r3 ≡ hour ++ (codes "/" ++ tail) =
      (span_lem is_digit r3).0 ∙ ap (λ t. hour ++ t) e4 in
    let to_date : r2 ≡ date ++ (codes "/event_hour=" ++ (hour ++ (codes "/" ++ tail))) =
      (span_lem is_not_slash r2).0
      ∙ ap (λ t. date ++ t)
          (append_of_strip_prefix (codes "/event_hour=") _ r3 e3
            ∙ ap (λ t. codes "/event_hour=" ++ t) to_hour) in
    rw names (record {
      before = [];
      digits = hour;
      tail = tail;
      spells =
          append_of_strip_prefix p s r1 e1
          ∙ ap (λ t. p ++ t)
              (append_of_strip_prefix (codes "/event_date=") r1 r2 e2
                ∙ ap (λ t. codes "/event_date=" ++ t) to_date);
      date_ok = (date_some, (span_lem is_not_slash r2).1);
      digits_ok = (span_lem is_digit r3).1;
      digits_some = hour_some;
      hour_ok = refl;
      parquet = parquet;
    })

Names-cons : (p s d : Text) (h c : ℕ) → Names p s d h → Names p (c ∷ s) d h
Names-cons p s d h c n = record {
  before = c ∷ n.before;
  digits = n.digits;
  tail = n.tail;
  spells = ap (◌∷◌ c) n.spells;
  date_ok = n.date_ok;
  digits_ok = n.digits_ok;
  digits_some = n.digits_some;
  hour_ok = n.hour_ok;
  parquet = n.parquet;
}

search-Names : (p s : Text) (m : Text × ℕ) → search p s ≡ some m → Names p s m.0 m.1
unfolding search
search-Names p [] m h = match_at-Names p [] m h
search-Names p (c ∷ s) m h = elim (Option-cases (match_at p (c ∷ s))) [
  | inl e ↦ Names-cons p s m.0 m.1 c (search-Names p s m (rw (e, search) at h))
  | inr (n, e) ↦ match_at-Names p (c ∷ s) m (ground arith)
]

-- A key that is taken for a file of a partition spells, somewhere in it, the table's prefix, the
-- partition's directory with a date without slashes and with digits of the hour, and a file name
-- that ends in `.parquet`.
pub parse-Names :
    (config : Config) (key date : Text) (hour : ℕ)
    → parse_partition_from_key key config ≡ some (date, hour)
    → Names (rstrip slash (table_key_prefix config)) key date hour
unfolding parse_partition_from_key
parse-Names config key date hour h = search-Names _ key (date, hour) h
