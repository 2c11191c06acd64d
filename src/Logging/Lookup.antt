-- ===== src/Logging/Lookup.antt =====
-- src/utils/logging_config.py: what is read back from a line of the log.
use data_lakehouse.Base.{
  ◌≡◌, refl, ap, sym, ◌∙◌, Bool, true, false, Option, none, some, Text, codes, text_eq, text_eq-eq,
  text_eq_refl, if◌then◌else◌, ℤ, Bool-cases, inl, inr,
}
use data_lakehouse.Errors.{ok}
use data_lakehouse.Codec.{Codec}
use data_lakehouse.Json.{Json, Value, Fields, no_fields, field, text, object}
use data_lakehouse.Producer.Messages.{IsFaithful}
use data_lakehouse.Logging.{set, update, standard, format, event_record}

-- The value of a key, if it has one, and the last one that a dictionary's items give to it.
abbrev pub lookup : Text → Fields → Option Value
lookup key no_fields = none
lookup key (field k v fs) = let rest = lookup key fs in if text_eq k key then some v else rest

abbrev pub or_else : Option Value → Option Value → Option Value
or_else none o = o
or_else (some v) o = some v

abbrev pub last : Text → Fields → Option Value
last key no_fields = none
last key (field k v fs) = or_else (last key fs) (if text_eq k key then some v else none)

test_twice :
    (b : Bool) (x y z : Option Value)
    → (if b then x else z) ≡ (if b then x else (if b then y else z))
test_twice true x y z = refl
test_twice false x y z = refl

-- Of two keys that differ, another key is at most one.
tests_differ :
    (j k key : Text) (x y z : Option Value)
    → text_eq j k ≡ false
    → (if text_eq j key then x else (if text_eq k key then y else z))
      ≡ (if text_eq k key then y else (if text_eq j key then x else z))
tests_differ j k key x y z e = elim (Bool-cases (text_eq j key)) [
  | inr n ↦ rw n refl
  | inl p ↦ elim (Bool-cases (text_eq k key)) [
    | inr n ↦ rw (p, n) refl
    | inl q ↦
        let same : j ≡ k = text_eq-eq j key p ∙ sym (text_eq-eq k key q) in
        absurd (cc (e, ap (λ s. text_eq s k) same, text_eq_refl k))
  ]
]

-- A key that was set has its new value, and the others have theirs.
lookup-set :
    (key k : Text) (v : Value) (fs : Fields)
    → lookup key (set k v fs) ≡ (if text_eq k key then some v else lookup key fs)
unfolding set
lookup-set key k v no_fields = refl
lookup-set key k v (field j w fs) = elim (Bool-cases (text_eq j k)) [
  | inl e ↦ rw (e, text_eq-eq j k e) (test_twice (text_eq k key) (some v) (some w) (lookup key fs))
  | inr e ↦ rw (e, lookup-set key k v fs) (tests_differ j k key (some w) (some v) (lookup key fs) e)
]

or_else-if :
    (b : Bool) (o rest : Option Value) (v : Value)
    → or_else o (if b then some v else rest) ≡ or_else (or_else o (if b then some v else none)) rest
or_else-if true none rest v = refl
or_else-if false none rest v = refl
or_else-if b (some w) rest v = refl

lookup-update :
    (key : Text) (fs base : Fields)
    → lookup key (update base fs) ≡ or_else (last key fs) (lookup key base)
unfolding update
lookup-update key no_fields base = refl
lookup-update key (field k v fs) base =
    lookup-update key fs (set k v base)
    ∙ ap (or_else (last key fs)) (lookup-set key k v base)
    ∙ or_else-if (text_eq k key) (last key fs) (lookup key base) v

-- What a key of a line has: the field that the caller has given last, or else the event, or else what every line has.
abbrev pub logged : Text → Text → Fields → Fields → Option Value
logged key event fs base =
    or_else (last key (field (codes "event") (text event) fs)) (lookup key base)

-- If `loads` inverts `dumps` of objects, a line that `log_event` writes is read back as an object with the event, the
-- fields of the caller and what every line has; a field of the caller hides the others of its name.
pub format-event_record :
    (codec : Codec) (json : Json) (now : ℤ) (logger level event : Text) (message : Option Text)
    (fs : Fields)
    → IsFaithful json
    → (line : Fields) × (json.loads
          (format codec json now (event_record codec json logger level event message fs))
        ≡ ok (object line))
      × ((key : Text)
          → lookup key line
            ≡ logged key event fs
                (standard codec json now (event_record codec json logger level event message fs)))
unfolding format
format-event_record codec json now logger level event message fs faithful =
    let r = event_record codec json logger level event message fs in
    let line = update (standard codec json now r) (field (codes "event") (text event) fs) in
    (
      line,
      faithful.loads-dumps line,
      λ key. lookup-update key (field (codes "event") (text event) fs) (standard codec json now r),
    )
