-- ===== src/Tests/World.antt =====
-- Concrete instances of what the program is given: the texts of times and of lock files, a bucket in
-- memory and a clock that stands still.
use data_lakehouse.Base.{
  ℕ, zero, suc, ◌==◌, if◌then◌else◌, ◌≡◌, refl, ◌∙◌, ap, false, true, Option, none, some, List, [],
  ◌∷◌, ◌++◌, Text, text_dec, ite, if_pos, codes, ◌≢◌, All, ℤ, pos, negsuc, arith, ℕ_discrete,
  text_eq,
}
use data_lakehouse.Base.Dict.{Dict}
use data_lakehouse.Base.Strings.Affix.{is_empty}
use data_lakehouse.Base.Strings.Decimal.{
  decimal, value, AllDigits, decimal-AllDigits, value-decimal,
}
use data_lakehouse.Base.Strings.Replace.{IsNotZ}
use data_lakehouse.Errors.{Result, ok, raise, value_error}
use data_lakehouse.Time.{Datetime, naive, aware}
use data_lakehouse.Codec.{Codec, IsLawful}
use data_lakehouse.Storage.{ObjectStore, IsReliable, answer}

-- A letter for the kind and the sign, and the digits of the amount.
abbrev pub write_int : ℕ → ℕ → ℤ → Text
write_int plus minus (pos n) = plus ∷ decimal n
write_int plus minus (negsuc n) = minus ∷ decimal n

abbrev pub write_time : Datetime → Text
write_time (naive t) = write_int b'n' b'm' t
write_time (aware t) = write_int b'a' b'b' t

abbrev pub read_time : Text → Result Datetime
read_time [] = raise (value_error [])
read_time (c ∷ s) =
    if c == b'n'
    then ok (naive (pos (value s)))
    else if c == b'm'
    then ok (naive (negsuc (value s)))
    else if c == b'a'
    then ok (aware (pos (value s)))
    else ok (aware (negsuc (value s)))

-- Characters are shifted by one, and a zero ends a text.
abbrev pub write_text : Text → Text
write_text [] = 0 ∷ []
write_text (c ∷ t) = suc c ∷ write_text t

abbrev pub write_fields : Dict Text Text → Text
write_fields [] = []
write_fields ((k, v) ∷ d) = write_text k ++ (write_text v ++ write_fields d)

abbrev pub push : ℕ → List Text → List Text
push c [] = (c ∷ []) ∷ []
push c (t ∷ ts) = (c ∷ t) ∷ ts

abbrev pub texts : Text → List Text
texts [] = []
texts (zero ∷ s) = [] ∷ texts s
texts (suc c ∷ s) = push c (texts s)

abbrev pub pairs : List Text → Dict Text Text
pairs (k ∷ v ∷ ts) = (k, v) ∷ pairs ts
pairs ts = []

texts-write_text : (t s : Text) → texts (write_text t ++ s) ≡ t ∷ texts s
texts-write_text [] s = refl
texts-write_text (c ∷ t) s = ap (push c) (texts-write_text t s)

pairs-write_fields : (d : Dict Text Text) → pairs (texts (write_fields d)) ≡ d
pairs-write_fields [] = refl
pairs-write_fields ((k, v) ∷ d) =
    ap pairs (
      texts-write_text k (write_text v ++ write_fields d)
      ∙ ap (◌∷◌ k) (texts-write_text v (write_fields d)))
    ∙ ap (◌∷◌ (k, v)) (pairs-write_fields d)

abbrev pub codec : Codec
codec = record {
  isoformat = write_time;
  fromisoformat = read_time;
  dumps = write_fields;
  loads = λ s. ok (pairs (texts s));
}

digits-IsNotZ : (s : Text) → AllDigits s → All IsNotZ s
digits-IsNotZ [] h = tt
digits-IsNotZ (c ∷ s) h = (ground (arith, h.0), digits-IsNotZ s h.1)

time-IsNotZ : (d : Datetime) → All IsNotZ (write_time d)
time-IsNotZ (naive (pos n)) = (refl, digits-IsNotZ _ (decimal-AllDigits n))
time-IsNotZ (naive (negsuc n)) = (refl, digits-IsNotZ _ (decimal-AllDigits n))
time-IsNotZ (aware (pos n)) = (refl, digits-IsNotZ _ (decimal-AllDigits n))
time-IsNotZ (aware (negsuc n)) = (refl, digits-IsNotZ _ (decimal-AllDigits n))

time-is_empty : (d : Datetime) → is_empty (write_time d) ≡ false
time-is_empty (naive (pos n)) = refl
time-is_empty (naive (negsuc n)) = refl
time-is_empty (aware (pos n)) = refl
time-is_empty (aware (negsuc n)) = refl

read_time-write_time : (d : Datetime) → read_time (write_time d) ≡ ok d
read_time-write_time (naive (pos n)) = ap (λ k. ok (naive (pos k))) (value-decimal n)
read_time-write_time (naive (negsuc n)) = ap (λ k. ok (naive (negsuc k))) (value-decimal n)
read_time-write_time (aware (pos n)) = ap (λ k. ok (aware (pos k))) (value-decimal n)
read_time-write_time (aware (negsuc n)) = ap (λ k. ok (aware (negsuc k))) (value-decimal n)

pub codec-IsLawful : IsLawful codec
codec-IsLawful = record {
  fromisoformat-isoformat = read_time-write_time;
  isoformat-IsNotZ = time-IsNotZ;
  isoformat-is_empty = time-is_empty;
  loads-dumps = λ d. ap ok (pairs-write_fields d);
}

-- The objects of the one bucket that there is, by their keys.
abbrev pub Bucket : Type 0
Bucket = Text → Option Text

abbrev pub peek : Bucket → Text → Text → Option Text
peek w bucket key = w key

abbrev pub s3 : ObjectStore Bucket
s3 = record {
  get_object = λ b k w. (answer (w k), w);
  put_object = λ b k t w. (ok tt, λ j. ite (text_dec k j) (some t) (w j));
  delete_object = λ b k w. (ok tt, λ j. ite (text_dec k j) none (w j));
}

pub s3-IsReliable : IsReliable s3 peek
s3-IsReliable = record {
  get_object_lem = λ b k w. refl;
  put_object_ok = λ b k t w. refl;
  peek-put_object = λ b k t j w. refl;
  delete_object_ok = λ b k w. refl;
  peek-delete_object = λ b k j w. refl;
}

abbrev pub clock : Bucket → ℤ × Bucket
clock w = (pos 0, w)

abbrev pub empty_bucket : Bucket
empty_bucket key = none

pub distinct : (s t : Text) → text_eq s t ≡ false → s ≢ t
distinct s t h e = cc (if_pos (text_dec s t) e true false, h)

-- The names of two workers, and of two partitions.
pub workers_distinct : codes "a" ≢ codes "b"
unfolding text_dec ℕ_discrete
workers_distinct = distinct (codes "a") (codes "b") refl

pub others_distinct : codes "b" ≢ codes "a"
unfolding text_dec ℕ_discrete
others_distinct = distinct (codes "b") (codes "a") refl
