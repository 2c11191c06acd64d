-- ===== src/Codec.antt =====
-- The texts of `datetime` and `json`, as the lock files use them: `isoformat` and `fromisoformat`, and
-- `dumps` and `loads` of an object whose values are texts. They are parameters; `IsLawful` says what
-- the code relies on.
use data_lakehouse.Base.{◌≡◌, Text, All, false}
use data_lakehouse.Base.Strings.Affix.{is_empty}
use data_lakehouse.Base.Dict.{Dict}
use data_lakehouse.Base.Strings.Replace.{IsNotZ}
use data_lakehouse.Errors.{Result, ok}
use data_lakehouse.Time.{Datetime}

pub record Codec : Type 0 where
  pub isoformat : Datetime → Text
  pub fromisoformat : Text → Result Datetime
  pub dumps : Dict Text Text → Text
  pub loads : Text → Result (Dict Text Text)

-- `fromisoformat` inverts `isoformat`, whose texts are not empty and have no letter Z, and `loads` inverts `dumps`.
pub record IsLawful (codec : Codec) : Type 0 where
  pub fromisoformat-isoformat : (d : Datetime) → codec.fromisoformat (codec.isoformat d) ≡ ok d
  pub isoformat-IsNotZ : (d : Datetime) → All IsNotZ (codec.isoformat d)
  pub isoformat-is_empty : (d : Datetime) → is_empty (codec.isoformat d) ≡ false
  pub loads-dumps : (fields : Dict Text Text) → codec.loads (codec.dumps fields) ≡ ok fields
