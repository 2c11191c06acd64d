-- ===== src/Locks/Race/System.antt =====
-- src/compactor/lock_manager.py: several workers with the same settings, and different owners, that
-- want the lock of one partition. A worker may begin an attempt at any time at which it has none, and
-- the workers take their turns in any order. A worker that has died takes no turn any more.
use data_lakehouse.Base.{◌≡◌, Bool, true, false, Text, codes, text_dec, ite, if◌then◌else◌, ℤ}
use data_lakehouse.Errors.{Result, ok, raise}
use data_lakehouse.Exec.{Exec, pure, gets, ◌>>=◌, ◌>>◌}
use data_lakehouse.Config.{Config}
use data_lakehouse.Codec.{Codec}
use data_lakehouse.Storage.{ObjectStore}
use data_lakehouse.Locks.Manager.{LockManager}
use data_lakehouse.Locks.Exclusion.{manager}
use data_lakehouse.Locks.Race.{Attempt, Phase, idle, starting, writing, refused, advance}

-- The world that the workers share, and where each of them is.
pub record System (W : Type 0) : Type 0 where
  pub world : W
  pub phase : Text → Phase

abbrev pub update : (Text → Phase) → Text → Phase → Text → Phase
update f owner p other = ite (text_dec owner other) p (f other)

abbrev pub worker : Config → Text → LockManager
worker config owner = manager config owner (codes "unknown")

-- No attempt is under way.
abbrev pub may_begin : Phase → Bool
may_begin idle = true
may_begin refused = true
may_begin _ = false

abbrev pub is_writing : Phase → Bool
is_writing (writing a) = true
is_writing _ = false

module _ {W : Type 0} where
  abbrev pub begin : Text → Attempt → System W → System W
  begin owner a s = record { world = s.world; phase = update s.phase owner (starting a) }

  -- A worker whose call has raised is where it was.
  abbrev pub moved : Text → (Text → Phase) → Result Phase × W → Result (Unit {0}) × System W
  moved owner f (ok next, w) = (ok tt, record { world = w; phase = update f owner next })
  moved owner f (raise e, w) = (raise e, record { world = w; phase = f })

module _ {W : Type 0} (clock : W → ℤ × W) (s3 : ObjectStore W) (codec : Codec) (config : Config)
    (partition_id : Text) where
  unfoldable pub turn : Text → Exec (System W) (Unit {0})
  unfolding advance
  turn owner s =
      moved owner s.phase
        (advance clock s3 codec (worker config owner) partition_id (s.phase owner) s.world)

  -- A turn that nobody interrupts before the lock is written.
  unfoldable pub calm_turn : Text → Exec (System W) (Unit {0})
  unfolding turn
  calm_turn owner = do
    turn owner
    phase ← gets (λ s. s.phase)
    if is_writing (phase owner) then turn owner else pure tt

-- The systems that are reached by turns of a kind, with attempts at times that are allowed.
pub data Reach {W : Type 0} (take_turn : Text → Exec (System W) (Unit {0})) (Allowed : ℤ → Type 0)
    (start : System W) : System W → Type 0 where
  here : Reach take_turn Allowed start start
  begins :
      {s : System W}
      → Reach take_turn Allowed start s
      → (owner : Text) (a : Attempt) → may_begin (s.phase owner) ≡ true
      → Allowed a.now
      → Reach take_turn Allowed start (begin owner a s)
  goes_on :
      {s : System W}
      → Reach take_turn Allowed start s
      → (owner : Text) → Reach take_turn Allowed start (take_turn owner s).1
