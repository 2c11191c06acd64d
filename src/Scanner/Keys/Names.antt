-- ===== src/Scanner/Keys/Names.antt =====
-- What a key spells that names a partition of the table.
use data_lakehouse.Base.{ℕ, ◌≡◌, true, false}
use data_lakehouse.Base.{◌++◌, Text, codes, All}
use data_lakehouse.Base.Strings.Affix.{is_empty}
use data_lakehouse.Base.Strings.Decimal.{AllDigits, value}
use data_lakehouse.Config.{is_not_slash}
use data_lakehouse.Scanner.Keys.{is_parquet_tail}

abbrev pub IsDate : Text → Type 0
IsDate d = (is_empty d ≡ false) × All (λ c. is_not_slash c ≡ true) d

-- The rest of a key after the table's prefix.
abbrev pub in_partition : Text → Text → Text → Text
in_partition date digits tail =
    codes "/event_date=" ++ (date ++ (codes "/event_hour=" ++ (digits ++ (codes "/" ++ tail))))

-- What a key spells when it names the partition of `date` and `hour`.
pub record Names (prefix key date : Text) (hour : ℕ) : Type 0 where
  pub before : Text
  pub digits : Text
  pub tail : Text
  pub spells : key ≡ before ++ (prefix ++ in_partition date digits tail)
  pub date_ok : IsDate date
  pub digits_ok : AllDigits digits
  pub digits_some : is_empty digits ≡ false
  pub hour_ok : value digits ≡ hour
  pub parquet : is_parquet_tail tail ≡ true
