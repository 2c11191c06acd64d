-- ===== src/Tests/Encoding.antt =====
-- A way to write the values of `json`, each as the steps of a stack machine that builds it: two numbers a step.
use data_lakehouse.Base.{
  ℕ, ◌≡◌, refl, ap, ◌∙◌, Bool, true, false, List, [], ◌∷◌, Text, if◌then◌else◌, ◌==◌, ℤ, pos,
  negsuc,
}
use data_lakehouse.Base.Strings.Space.{strip, lstrip, rstrip_space, is_space}
use data_lakehouse.Errors.{Result, ok, raise, json_decode_error}
use data_lakehouse.Json.{
  Json, Value, Items, Fields, Float, null, boolean, integer, floating, text, array, object,
  no_items, item, no_fields, field, finite, infinite, nan,
}
use data_lakehouse.Producer.Messages.{IsFaithful}

abbrev sign : Bool → ℕ
sign true = 1
sign false = 0

abbrev write_int : ℤ → Text → Text
write_int (pos n) s = 3 ∷ n ∷ s
write_int (negsuc n) s = 4 ∷ n ∷ s

abbrev write_float : Float → Text → Text
write_float (finite b m e) s = write_int e (3 ∷ m ∷ 5 ∷ sign b ∷ s)
write_float (infinite b) s = 6 ∷ sign b ∷ s
write_float nan s = 7 ∷ 0 ∷ s

abbrev write_chars : Text → Text → Text
write_chars [] s = 8 ∷ 0 ∷ s
write_chars (c ∷ t) s = write_chars t (9 ∷ c ∷ s)

mutual
  pub write : Value → Text → Text
  write null s = 1 ∷ 0 ∷ s
  write (boolean b) s = 2 ∷ sign b ∷ s
  write (integer n) s = write_int n s
  write (floating x) s = write_float x s
  write (text t) s = write_chars t s
  write (array xs) s = write_items xs s
  write (object fs) s = write_fields fs s

  write_items : Items → Text → Text
  write_items no_items s = 10 ∷ 0 ∷ s
  write_items (item v xs) s = write_items xs (write v (11 ∷ 0 ∷ s))

  write_fields : Fields → Text → Text
  write_fields no_fields s = 12 ∷ 0 ∷ s
  write_fields (field k v fs) s = write_fields fs (write_chars k (write v (13 ∷ 0 ∷ s)))

abbrev make_float : Bool → List Value → List Value
make_float b (integer (pos m) ∷ integer e ∷ st) = floating (finite b m e) ∷ st
make_float b st = []

abbrev add_char : ℕ → List Value → List Value
add_char c (text t ∷ st) = text (c ∷ t) ∷ st
add_char c st = []

abbrev add_item : List Value → List Value
add_item (v ∷ array xs ∷ st) = array (item v xs) ∷ st
add_item st = []

abbrev add_field : List Value → List Value
add_field (v ∷ text k ∷ object fs ∷ st) = object (field k v fs) ∷ st
add_field st = []

abbrev step : ℕ → ℕ → List Value → List Value
step op n st =
    if op == 1
    then null ∷ st
    else if op == 2
    then boolean (n == 1) ∷ st
    else if op == 3
    then integer (pos n) ∷ st
    else if op == 4
    then integer (negsuc n) ∷ st
    else if op == 5
    then make_float (n == 1) st
    else if op == 6
    then floating (infinite (n == 1)) ∷ st
    else if op == 7
    then floating nan ∷ st
    else if op == 8
    then text [] ∷ st
    else if op == 9
    then add_char n st
    else if op == 10
    then array no_items ∷ st
    else if op == 11
    then add_item st
    else if op == 12
    then object no_fields ∷ st
    else add_field st

abbrev run : List Value → Text → List Value
run st [] = st
run st (op ∷ []) = st
run st (op ∷ n ∷ s) = run (step op n st) s

run-write_int :
    (n : ℤ) (st : List Value) (s : Text) → run st (write_int n s) ≡ run (integer n ∷ st) s
run-write_int (pos n) st s = refl
run-write_int (negsuc n) st s = refl

run-write_float :
    (x : Float) (st : List Value) (s : Text) → run st (write_float x s) ≡ run (floating x ∷ st) s
run-write_float (finite true m e) st s = run-write_int e st _
run-write_float (finite false m e) st s = run-write_int e st _
run-write_float (infinite true) st s = refl
run-write_float (infinite false) st s = refl
run-write_float nan st s = refl

run-write_chars :
    (t : Text) (st : List Value) (s : Text) → run st (write_chars t s) ≡ run (text t ∷ st) s
run-write_chars [] st s = refl
run-write_chars (c ∷ t) st s = run-write_chars t st (9 ∷ c ∷ s)

mutual
  unfolding write write_items write_fields

  run-write : (v : Value) (st : List Value) (s : Text) → run st (write v s) ≡ run (v ∷ st) s
  run-write null st s = refl
  run-write (boolean true) st s = refl
  run-write (boolean false) st s = refl
  run-write (integer n) st s = run-write_int n st s
  run-write (floating x) st s = run-write_float x st s
  run-write (text t) st s = run-write_chars t st s
  run-write (array xs) st s = run-write_items xs st s
  run-write (object fs) st s = run-write_fields fs st s

  run-write_items :
      (xs : Items) (st : List Value) (s : Text) → run st (write_items xs s) ≡ run (array xs ∷ st) s
  run-write_items no_items st s = refl
  run-write_items (item v xs) st s =
      run-write_items xs st _ ∙ run-write v (array xs ∷ st) (11 ∷ 0 ∷ s)

  run-write_fields :
      (fs : Fields) (st : List Value) (s : Text)
      → run st (write_fields fs s) ≡ run (object fs ∷ st) s
  run-write_fields no_fields st s = refl
  run-write_fields (field k v fs) st s =
      run-write_fields fs st _
      ∙ run-write_chars k (object fs ∷ st) _
      ∙ run-write v (text k ∷ object fs ∷ st) (13 ∷ 0 ∷ s)

abbrev first : List Value → Result Value
first [] = raise (json_decode_error [])
first (v ∷ st) = ok v

abbrev read : Text → Result Value
read [] = raise (json_decode_error [])
read (c ∷ s) = if c == b'J' then first (run [] s) else raise (json_decode_error [])

abbrev pub json : Json
json = record { dumps = λ v. b'J' ∷ write v []; loads = read; shown = λ v. [] }

pub json-IsFaithful : IsFaithful json
unfolding strip lstrip rstrip_space is_space
json-IsFaithful = record {
  loads-dumps = λ fs. ap first (run-write (object fs) [] []);
  dumps-is_blank = λ fs. refl;
  malformed = ([], refl);
}
