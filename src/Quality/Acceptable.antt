-- ===== src/Quality/Acceptable.antt =====
-- src/streaming/data_quality.py: what an event has to hold, described without the code.
use data_lakehouse.Base.{
  ℕ, suc, ◌≡◌, ◌↔◌, ◌⊎◌, ◌≤◌, ◌<◌, ◌*◌, ◌^◌, ◌+◌, ◌-◌, inl, inr, refl, arith, Bool, true, false,
  Option, none, some, [], ◌∷◌, Text, codes, leb, ◌==◌, not, if◌then◌else◌, ℤ, pos, negsuc,
  Bool-cases,
}
use data_lakehouse.Base.Strings.Affix.{is_empty}
use data_lakehouse.Base.Strings.Space.{is_space, lstrip, rstrip_space, strip}
use data_lakehouse.Base.Strings.Number.{
  Literal, number, infinity, not_a_number, read_float, at_least_zero,
}
use data_lakehouse.Errors.{Result, ok, raise}
use data_lakehouse.Time.{Datetime}
use data_lakehouse.Codec.{Codec}
use data_lakehouse.Base.Strings.Replace.{replace, zulu, offset}
use data_lakehouse.Json
use data_lakehouse.Json.{
  Json, Fields, Value, null, boolean, integer, floating, text, array, object, Float, finite,
  infinite, nan,
}
use data_lakehouse.Quality.{
  is_blank, is_blank_text, is_valid_amount, int_overflow, overflow_error, as_text,
  int_at_least_zero, float_at_least_zero, literal_at_least_zero, text_at_least_zero,
}

-- A character that is not white space.
abbrev pub HasInk : Text → Type 0
HasInk [] = ⊥
HasInk (c ∷ t) = (is_space c ≡ false) ⊎ HasInk t

lstrip-HasInk : (t : Text) → (is_empty (lstrip t) ≡ false) ↔ HasInk t
unfolding lstrip
lstrip-HasInk [] = (λ h. absurd (cc h), λ h. absurd h)
lstrip-HasInk (c ∷ t) = elim (Bool-cases (is_space c)) [
  | inl e ↦
      let more = lstrip-HasInk t in
      rw e (λ h. inr (more.0 h), λ h. elim h [ inl f ↦ absurd (cc f) | inr g ↦ more.1 g ])
  | inr e ↦ rw e (λ h. inl refl, λ h. refl)
]

-- Nothing is left of a text without ink.
rest-HasInk : (t : Text) → HasInk t → is_empty t ≡ true → ⊥
rest-HasInk [] h e = h
rest-HasInk (c ∷ t) h e = cc e

rstrip_space-HasInk : (t : Text) → HasInk (rstrip_space t) ↔ HasInk t
unfolding rstrip_space
rstrip_space-HasInk [] = (λ h. h, λ h. h)
rstrip_space-HasInk (c ∷ t) =
    let more = rstrip_space-HasInk t in
    elim (Bool-cases (is_space c)) [
      | inl e ↦ elim (Bool-cases (is_empty (rstrip_space t))) [
        | inl f ↦
            rw (e, f)
              (
                λ h. absurd h,
                λ h. elim h [
                  | inl g ↦ absurd (cc g)
                  | inr g ↦ absurd (rest-HasInk (rstrip_space t) (more.1 g) f)
                ],
              )
        | inr f ↦
            rw (e, f)
              (
                λ h. elim h [ inl g ↦ absurd (cc (g, e)) | inr g ↦ inr (more.0 g) ],
                λ h. elim h [ inl g ↦ absurd (cc g) | inr g ↦ inr (more.1 g) ],
              )
      ]
      | inr e ↦ rw e (λ h. inl refl, λ h. inl e)
    ]

pub is_blank_text-HasInk : (t : Text) → (is_blank_text t ≡ false) ↔ HasInk t
unfolding strip
is_blank_text-HasInk t =
    let left = lstrip-HasInk (rstrip_space t) in
    let right = rstrip_space-HasInk t in (λ h. right.0 (left.0 h), λ h. left.1 (right.1 h))

-- There is a value, and if it is a text, it does not consist of white space.
abbrev pub IsPresent : Value → Type 0
IsPresent null = ⊥
IsPresent (text t) = HasInk t
IsPresent _ = Unit

pub is_blank-IsPresent : (v : Value) → (is_blank v ≡ false) ↔ IsPresent v
unfolding is_blank
is_blank-IsPresent null = (λ h. cc h, λ h. absurd h)
is_blank-IsPresent (text t) = is_blank_text-HasInk t
is_blank-IsPresent (boolean b) = (λ h. tt, λ h. refl)
is_blank-IsPresent (integer n) = (λ h. tt, λ h. refl)
is_blank-IsPresent (floating x) = (λ h. tt, λ h. refl)
is_blank-IsPresent (array vs) = (λ h. tt, λ h. refl)
is_blank-IsPresent (object fs) = (λ h. tt, λ h. refl)

-- Nearer to zero than to any other double: at most half of 2 ^ (-1074).
abbrev pub RoundsToZero : ℕ → ℤ → Type 0
RoundsToZero m (pos e) = m ≡ 0
RoundsToZero m (negsuc e) = m * 2 ^ 1075 ≤ 10 ^ suc e

-- A text that spells a number that is not negative.
abbrev pub SpellsNonNegative : Option Literal → Type 0
SpellsNonNegative none = ⊥
SpellsNonNegative (some (number false m e)) = Unit
SpellsNonNegative (some (number true m e)) = RoundsToZero m e
SpellsNonNegative (some (infinity negative)) = negative ≡ false
SpellsNonNegative (some not_a_number) = ⊥

abbrev pub IsNonNegative : Float → Type 0
IsNonNegative (finite false m e) = Unit
IsNonNegative (finite true m e) = m ≡ 0
IsNonNegative (infinite negative) = negative ≡ false
IsNonNegative nan = ⊥

-- No amount, an empty one, or a number that is at least zero, also as a text, and that a double holds.
abbrev pub IsAmount : Value → Type 0
IsAmount null = Unit
IsAmount (text t) = (HasInk t → ⊥) ⊎ SpellsNonNegative (read_float t)
IsAmount (boolean b) = Unit
IsAmount (integer (pos n)) = n < 2 ^ 1024 - 2 ^ 970
IsAmount (integer (negsuc n)) = ⊥
IsAmount (floating x) = IsNonNegative x
IsAmount (array vs) = ⊥
IsAmount (object fs) = ⊥

below_bound : (k n : ℕ) → leb k n ≡ false → n < k
below_bound k n h = ground arith

not_below : (k n : ℕ) → leb k n ≡ true → n < k → ⊥
not_below k n h l = ground arith

-- An integer of this magnitude is held by a double.
held : (k n : ℕ) → ((if leb k n then raise overflow_error else ok true) ≡ ok true) ↔ (n < k)
held k n = elim (Bool-cases (leb k n)) [
  | inl e ↦ rw e (λ h. absurd (cc h), λ l. absurd (not_below k n e l))
  | inr e ↦ rw e (λ h. below_bound k n e, λ l. refl)
]

never : (b : Bool) → (if b then raise overflow_error else ok false) ≡ ok true → ⊥
never true h = cc h
never false h = cc h

ok_true : (b : Bool) → (◌≡◌ {A = Result Bool} (ok b) (ok true)) ↔ (b ≡ true)
ok_true true = (λ h. refl, λ h. refl)
ok_true false = (λ h. absurd (cc h), λ h. absurd (cc h))

negation : (b : Bool) → (not b ≡ true) ↔ (b ≡ false)
negation true = (λ h. absurd (cc h), λ h. absurd (cc h))
negation false = (λ h. refl, λ h. refl)

is_zero : (m : ℕ) → ((m == 0) ≡ true) ↔ (m ≡ 0)
is_zero m = (λ h. ground arith, λ h. ground arith)

le_of : (a b : ℕ) → (leb a b ≡ true) ↔ (a ≤ b)
le_of a b = (λ h. ground arith, λ h. ground arith)

float-IsNonNegative : (x : Float) → (float_at_least_zero x ≡ true) ↔ IsNonNegative x
unfolding float_at_least_zero
float-IsNonNegative (finite false m e) = (λ h. tt, λ h. refl)
float-IsNonNegative (finite true m e) = is_zero m
float-IsNonNegative (infinite negative) = negation negative
float-IsNonNegative nan = (λ h. absurd (cc h), λ h. absurd h)

spelled : (o : Option Literal) → (literal_at_least_zero o ≡ true) ↔ SpellsNonNegative o
unfolding at_least_zero
spelled none = (λ h. absurd (cc h), λ h. absurd h)
spelled (some (number false m e)) = (λ h. tt, λ h. refl)
spelled (some (number true m (pos e))) = is_zero m
spelled (some (number true m (negsuc e))) = le_of (m * 2 ^ 1075) (10 ^ suc e)
spelled (some (infinity negative)) = negation negative
spelled (some not_a_number) = (λ h. absurd (cc h), λ h. absurd h)

text-IsAmount :
    (t : Text)
    → ((if is_blank_text t then ok true else ok (text_at_least_zero t)) ≡ ok true)
      ↔ IsAmount (text t)
unfolding text_at_least_zero
text-IsAmount t =
    let ink = is_blank_text-HasInk t in
    let number = spelled (read_float t) in
    let truth = ok_true (literal_at_least_zero (read_float t)) in
    elim (Bool-cases (is_blank_text t)) [
      | inl e ↦ rw e (λ h. inl (λ i. cc (e, ink.1 i)), λ h. refl)
      | inr e ↦ rw e (
        λ h. inr (number.0 (truth.0 h)),
        λ h. truth.1 (elim h [ inl n ↦ absurd (n (ink.0 e)) | inr s ↦ number.1 s ]),
      )
    ]

pub is_valid_amount-IsAmount : (v : Value) → (is_valid_amount v ≡ ok true) ↔ IsAmount v
unfolding is_valid_amount int_at_least_zero
is_valid_amount-IsAmount null = (λ h. tt, λ h. refl)
is_valid_amount-IsAmount (text t) = text-IsAmount t
is_valid_amount-IsAmount (boolean b) = (λ h. tt, λ h. refl)
is_valid_amount-IsAmount (integer (pos n)) = held int_overflow n
is_valid_amount-IsAmount (integer (negsuc n)) =
    (λ h. never (leb int_overflow (n + 1)) h, λ h. absurd h)
is_valid_amount-IsAmount (floating x) =
    let truth = ok_true (float_at_least_zero x) in
    let sign = float-IsNonNegative x in (λ h. sign.0 (truth.0 h), λ h. truth.1 (sign.1 h))
is_valid_amount-IsAmount (array vs) = (λ h. cc h, λ h. absurd h)
is_valid_amount-IsAmount (object fs) = (λ h. cc h, λ h. absurd h)

-- What the text of a value says as a time.
abbrev pub time_of : Codec → Json → Value → Result Datetime
time_of codec json v = codec.fromisoformat (replace zulu offset (as_text codec json v))

-- The required fields are there, the time of the event can be read, and the amount is good.
pub record Acceptable (codec : Codec) (json : Json) (r : Fields) : Type 0 where
  pub event_id : IsPresent (Json.get (codes "event_id") r)
  pub user_id : IsPresent (Json.get (codes "user_id") r)
  pub account_id : IsPresent (Json.get (codes "account_id") r)
  pub event_type : IsPresent (Json.get (codes "event_type") r)
  pub event_timestamp : IsPresent (Json.get (codes "event_timestamp") r)
  pub time : Datetime
  pub time_eq : time_of codec json (Json.get (codes "event_timestamp") r) ≡ ok time
  pub amount : IsAmount (Json.get (codes "amount") r)
