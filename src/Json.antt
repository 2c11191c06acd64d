-- ===== src/Json.antt =====
-- The values of `json`, and `json` itself as the program uses it.
use data_lakehouse.Base.{ℕ, Bool, Text, text_eq, if◌then◌else◌, ℤ}
use data_lakehouse.Errors.{Result}

-- A double: its sign, its mantissa and its exponent of two, or one of the special values.
pub data Float : Type 0 where
  finite : Bool → ℕ → ℤ → Float
  infinite : Bool → Float
  nan : Float

-- A dictionary has its keys in the order of insertion, and each key once.
mutual
  pub data Value : Type 0 where
    null : Value
    boolean : Bool → Value
    integer : ℤ → Value
    floating : Float → Value
    text : Text → Value
    array : Items → Value
    object : Fields → Value

  pub data Items : Type 0 where
    no_items : Items
    item : Value → Items → Items

  pub data Fields : Type 0 where
    no_fields : Fields
    field : Text → Value → Fields → Fields

-- `d.get(key)`
unfoldable pub get : Text → Fields → Value
get key no_fields = null
get key (field k v fs) = let rest = get key fs in if text_eq k key then v else rest

-- `json.dumps` and `json.loads`, and `str` of a value that is not a text.
pub record Json : Type 0 where
  pub dumps : Value → Text
  pub loads : Text → Result Value
  pub shown : Value → Text
