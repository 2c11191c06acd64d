-- ===== src/Time.antt =====
-- `datetime` as the program uses it, in microseconds since the epoch. A naive value holds its own
-- clock reading; an aware one holds its instant, whatever the offset in which it is written. The
-- error of Python for a date outside the years 1 to 9999 is not modelled.
use data_lakehouse.Base.{Bool, List, [], ◌∷◌, codes, if◌then◌else◌}
use data_lakehouse.Base.{ℤ, pos, ◌+ℤ◌, ◌-ℤ◌, ◌*ℤ◌, ltb_ℤ, leb_ℤ}
use data_lakehouse.Errors.{Result, ok, raise, type_error, ◌>>=◌}

pub data Datetime : Type 0 where
  naive : ℤ → Datetime
  aware : ℤ → Datetime

abbrev pub micros : Datetime → ℤ
micros (naive t) = t
micros (aware t) = t

-- `d.replace(tzinfo=UTC)` if `d.tzinfo is None`
abbrev pub as_utc : Datetime → Datetime
as_utc (naive t) = aware t
as_utc (aware t) = aware t

abbrev pub minutes : ℤ → ℤ
minutes n = n *ℤ pos 60000000

abbrev pub seconds : ℤ → ℤ
seconds n = n *ℤ pos 1000000

-- `d + timedelta(...)`
unfoldable pub plus : Datetime → ℤ → Datetime
unfolding ◌+ℤ◌
plus (naive t) d = naive (t +ℤ d)
plus (aware t) d = aware (t +ℤ d)

-- `d - timedelta(...)`
unfoldable pub minus : Datetime → ℤ → Datetime
unfolding ◌-ℤ◌
minus (naive t) d = naive (t -ℤ d)
minus (aware t) d = aware (t -ℤ d)

-- `a > b`
unfoldable pub is_later : Datetime → Datetime → Result Bool
is_later (naive a) (naive b) = ok (ltb_ℤ b a)
is_later (aware a) (aware b) = ok (ltb_ℤ b a)
is_later _ _ = raise (type_error (codes "can't compare offset-naive and offset-aware datetimes"))

-- `a >= b`
unfoldable pub is_at_or_after : Datetime → Datetime → Result Bool
is_at_or_after (naive a) (naive b) = ok (leb_ℤ b a)
is_at_or_after (aware a) (aware b) = ok (leb_ℤ b a)
is_at_or_after _ _ =
    raise (type_error (codes "can't compare offset-naive and offset-aware datetimes"))

-- `a - b`, in microseconds
unfoldable pub difference : Datetime → Datetime → Result ℤ
unfolding ◌-ℤ◌
difference (naive a) (naive b) = ok (a -ℤ b)
difference (aware a) (aware b) = ok (a -ℤ b)
difference _ _ = raise (type_error (codes "can't subtract offset-naive and offset-aware datetimes"))

-- The loop of `max`: a later value replaces the one kept so far.
unfoldable pub latest_from : Datetime → List Datetime → Result Datetime
unfolding is_later
latest_from kept [] = ok kept
latest_from kept (d ∷ ds) = do newer ← is_later d kept; latest_from (if newer then d else kept) ds
