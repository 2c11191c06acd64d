-- ===== src/Locks/Lease.antt =====
-- What a lock is for: a lease on a partition, and what taking it and giving it back do to it. The lock
-- manager is proved against this in `Locks.Refinement`.
use data_lakehouse.Base.{
  Bool, true, false, ◌||◌, Option, none, some, Text, text_eq, if◌then◌else◌, ℤ, ◌+ℤ◌, ◌-ℤ◌, ltb_ℤ,
  leb_ℤ,
}

-- Times are in microseconds.
pub record Lease : Type 0 where
  pub owner : Text
  pub run : Text
  pub start : ℤ
  pub duration : ℤ

-- The lease has run out at `now`, by its own duration or by the timeout of who asks.
abbrev pub is_over : Lease → ℤ → ℤ → Bool
is_over l timeout now = leb_ℤ (l.start +ℤ l.duration) now || ltb_ℤ timeout (now -ℤ l.start)

abbrev pub lease_for : Text → Text → ℤ → ℤ → Lease
lease_for owner run timeout now = record {
  owner = owner;
  run = run;
  start = now;
  duration = timeout;
}

-- Whether the lease is given to who asks, and the lease that there is then.
unfoldable pub take : Text → Text → ℤ → ℤ → Option Lease → Bool × Option Lease
take owner run timeout now none = (true, some (lease_for owner run timeout now))
take owner run timeout now (some l) =
    if is_over l timeout now || text_eq l.owner owner
    then (true, some (lease_for owner run timeout now))
    else (false, some l)

unfoldable pub give_back : Text → Option Lease → Option Lease
give_back owner none = none
give_back owner (some l) = if text_eq l.owner owner then none else some l
