-- ===== src/Scanner/Keys.antt =====
-- src/compactor/file_scanner.py: the partition that an object's key names. `search` is the regular
-- expression of `_partition_re`, read by hand: the first position of the key, from the left, at which
-- the rest of the key matches. At one position there is at most one way to match, since neither group
-- can hold the slash that must follow it. `\d` is taken to be an ASCII digit.
pub mod Names
pub mod Found
pub mod Sound
use data_lakehouse.Base.{ℕ, Bool, true, false, ◌&&◌, Option, none, some, List, [], ◌∷◌, ◌==◌, not}
use data_lakehouse.Base.{Text, codes, if◌then◌else◌}
use data_lakehouse.Base.Strings.Affix.{strip_prefix, ends_with, span, rstrip, is_empty}
use data_lakehouse.Base.Strings.Decimal.{is_digit, value}
use data_lakehouse.Config.{Config, table_key_prefix, slash, is_not_slash}

abbrev pub newline : ℕ
newline = 10

-- `$` matches at the end, and before a newline that ends the text.
unfoldable pub chomp : Text → Text
chomp [] = []
chomp (c ∷ []) = if c == newline then [] else c ∷ []
chomp (c ∷ d ∷ s) = c ∷ chomp (d ∷ s)

unfoldable pub has_newline : Text → Bool
has_newline [] = false
has_newline (c ∷ s) = if c == newline then true else has_newline s

-- `.*\.parquet$`
unfoldable pub is_parquet_tail : Text → Bool
unfolding chomp has_newline ends_with
is_parquet_tail s =
    let body = chomp s in not (has_newline body) && ends_with (codes ".parquet") body

-- The rest of the key after each part that was found, from the last part to the first.
abbrev pub after_hour : Text → Text → Option Text → Option (Text × ℕ)
after_hour date hour none = none
after_hour date hour (some tail) = if is_parquet_tail tail then some (date, value hour) else none

abbrev pub match_hour : Text → Text × Text → Option (Text × ℕ)
match_hour date (hour, rest) =
    if is_empty hour then none else after_hour date hour (strip_prefix (codes "/") rest)

abbrev pub after_date : Text → Option Text → Option (Text × ℕ)
after_date date none = none
after_date date (some rest) = match_hour date (span is_digit rest)

abbrev pub match_date : Text × Text → Option (Text × ℕ)
match_date (date, rest) =
    if is_empty date then none else after_date date (strip_prefix (codes "/event_hour=") rest)

abbrev pub after_table : Option Text → Option (Text × ℕ)
after_table none = none
after_table (some rest) = match_date (span is_not_slash rest)

abbrev pub after_prefix : Option Text → Option (Text × ℕ)
after_prefix none = none
after_prefix (some rest) = after_table (strip_prefix (codes "/event_date=") rest)

-- A match at the beginning of the text.
unfoldable pub match_at : Text → Text → Option (Text × ℕ)
unfolding is_parquet_tail strip_prefix span value
match_at prefix s = after_prefix (strip_prefix prefix s)

-- The first match from the left.
unfoldable pub search : Text → Text → Option (Text × ℕ)
unfolding match_at
search prefix [] = match_at prefix []
search prefix (c ∷ s) = elim (match_at prefix (c ∷ s)) [ some m ↦ some m | none ↦ search prefix s ]

unfoldable pub parse_partition_from_key : Text → Config → Option (Text × ℕ)
unfolding search table_key_prefix rstrip
parse_partition_from_key key config = search (rstrip slash (table_key_prefix config)) key
