-- ===== src/Errors.antt =====
-- src/compactor/exceptions.py, the exceptions of Python and of the libraries that the code handles, and
-- Python's way to fail: a value or an exception, beside the state that the effects so far have left.
use data_lakehouse.Base.{Bool, true, false, Option, none, some, [], ◌∷◌, ◌++◌, Text, codes}

-- The first four are subclasses of `CompactionError`. A `JSONDecodeError` is a `ValueError` too. `other`
-- is any other exception, by its text.
pub data Exc : Type 0 where
  table_not_found : Text → Exc
  empty_partition : Text → Exc
  lock_acquisition : Text → Option Text → Exc
  spark_compaction : Text → Exc → Exc
  value_error : Text → Exc
  json_decode_error : Text → Exc
  type_error : Text → Exc
  client_error : Text → Text → Exc
  other : Text → Exc

unfoldable pub is_compaction_error : Exc → Bool
is_compaction_error (table_not_found m) = true
is_compaction_error (empty_partition m) = true
is_compaction_error (lock_acquisition p h) = true
is_compaction_error (spark_compaction p e) = true
is_compaction_error _ = false

-- The message of `LockAcquisitionError.__init__`.
unfoldable pub lock_message : Text → Option Text → Text
lock_message pid none = codes "Lock held on partition " ++ pid
lock_message pid (some []) = codes "Lock held on partition " ++ pid
lock_message pid (some (c ∷ holder)) =
    (codes "Lock held on partition " ++ pid) ++ (codes " by " ++ (c ∷ holder))

-- `str(exc)`
unfoldable pub str : Exc → Text
unfolding lock_message
str (table_not_found m) = m
str (empty_partition m) = m
str (lock_acquisition pid holder) = lock_message pid holder
str (spark_compaction pid cause) =
    codes "Spark compaction failed for " ++ (pid ++ (codes ": " ++ str cause))
str (value_error m) = m
str (json_decode_error m) = m
str (type_error m) = m
str (client_error c m) = m
str (other m) = m

-- How a statement without effects ends.
pub data Result {ℓ} (A : Type ℓ) : Type ℓ where
  raise : Exc → Result A
  ok : A → Result A

module _ {ℓ} {A B : Type ℓ} where
  infixl 5 ◌>>=◌
  abbrev pub ◌>>=◌ : Result A → (A → Result B) → Result B
  raise exc >>= next = raise exc
  ok value >>= next = next value
