-- ===== src/Storage.antt =====
-- The S3 client, as the program calls it: an object in a bucket is read, written and deleted by its
-- key. A call returns or raises, mostly a `ClientError`, and leaves the world changed.
use data_lakehouse.Base.{◌≡◌, Option, none, some, Text, text_dec, codes, ite}
use data_lakehouse.Errors.{Result, ok, raise, client_error}
use data_lakehouse.Exec.{Exec}

pub record ObjectStore (W : Type 0) : Type 0 where
  pub get_object : Text → Text → Exec W Text
  pub put_object : Text → Text → Text → Exec W (Unit {0})
  pub delete_object : Text → Text → Exec W (Unit {0})

-- What `get_object` says of an object, or of no object, that it has found.
abbrev pub answer : Option Text → Result Text
answer none = raise (client_error (codes "NoSuchKey") (codes "The specified key does not exist."))
answer (some body) = ok body

-- A store whose calls reach it, and that reads what was written last: the documented consistency of
-- S3. `peek` is the object that a key has.
pub record IsReliable {W : Type 0} (s3 : ObjectStore W) (peek : W → Text → Text → Option Text)
    : Type 0 where
  pub get_object_lem : (b k : Text) (w : W) → s3.get_object b k w ≡ (answer (peek w b k), w)
  pub put_object_ok : (b k t : Text) (w : W) → (s3.put_object b k t w).0 ≡ ok tt
  pub peek-put_object :
      (b k t j : Text) (w : W)
      → peek (s3.put_object b k t w).1 b j ≡ ite (text_dec k j) (some t) (peek w b j)
  pub delete_object_ok : (b k : Text) (w : W) → (s3.delete_object b k w).0 ≡ ok tt
  pub peek-delete_object :
      (b k j : Text) (w : W)
      → peek (s3.delete_object b k w).1 b j ≡ ite (text_dec k j) none (peek w b j)
