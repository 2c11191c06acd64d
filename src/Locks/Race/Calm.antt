-- ===== src/Locks/Race/Calm.antt =====
-- src/compactor/lock_manager.py: workers of which nobody is interrupted between the second read of
-- `acquire` and its write, at times of which no two are a timeout apart.
use data_lakehouse.Base.{
  ◌≡◌, refl, sym, ◌∙◌, ◌≢◌, true, false, Option, none, some, Text, text_dec, text_eq-ne, if_pos,
  if◌then◌else◌, ℤ, ◌+ℤ◌, ◌≤ℤ◌, ◌<ℤ◌, arith, +ℤ_parts, -ℤ_parts,
}
use data_lakehouse.Time.{seconds}
use data_lakehouse.Codec.{Codec}
use data_lakehouse.Locks.Lease.{Lease, is_over, lease_for}
use data_lakehouse.Locks.Manager.{LockManager}
use data_lakehouse.Locks.Race.{
  Phase, Attempt, idle, starting, removing, cleaned, writing, granted, giving_back, refused,
  is_holding,
}
use data_lakehouse.Locks.Race.Turns.{lease_turn}
use data_lakehouse.Locks.Race.System.{is_writing}
use data_lakehouse.Locks.Race.Invariant.{Covers}

-- From a time on, and less than so long after it.
abbrev pub Within : ℤ → ℤ → ℤ → Type 0
Within since long now = (since ≤ℤ now) × (now <ℤ since +ℤ long)

-- A lease with that timeout that began then.
abbrev pub IsLive : ℤ → ℤ → Option Lease → Type 0
IsLive since long none = Unit
IsLive since long (some l) = Within since long l.start × (l.duration ≡ long)

-- The worker has no lock, removes none and writes none.
abbrev pub IsOutside : ℤ → ℤ → Phase → Type 0
IsOutside since long idle = Unit
IsOutside since long (starting a) = Within since long a.now
IsOutside since long (cleaned a) = Within since long a.now
IsOutside since long refused = Unit
IsOutside since long _ = ⊥

abbrev pub IsOther : Text → Option Lease → Type 0
IsOther owner none = Unit
IsOther owner (some l) = l.owner ≢ owner

-- Whoever has the lease is given the lock, and everybody else is outside.
abbrev pub Stands : ℤ → ℤ → Text → Option Lease → Phase → Type 0
Stands since long owner o phase =
    Covers owner o phase × (IsOther owner o → IsOutside since long phase)

-- Neither is a lease of that time over at such a time.
live :
    (since long now : ℤ) (l : Lease)
    → Within since long now
    → Within since long l.start
    → l.duration ≡ long
    → is_over l long now ≡ false
live since long now l h k e =
    rw e (ground (arith, +ℤ_parts since long, +ℤ_parts l.start long, -ℤ_parts now l.start))

module _ (codec : Codec) (partition_id : Text) (m : LockManager) where
  -- A turn after which the worker writes the lock is followed by that turn.
  abbrev pub go_on : Phase × Option Lease → Phase × Option Lease
  go_on r = if is_writing r.0 then lease_turn codec m partition_id r.0 r.1 else r

module _ (codec : Codec) (partition_id : Text) (m : LockManager) (since : ℤ) where
  abbrev long : ℤ
  long = seconds m.config.lock_timeout_seconds

  -- What a calm turn keeps.
  pub record Kept (o : Option Lease) (r : Phase × Option Lease) : Type 0 where
    pub own : Stands since long m.owner_id r.1 r.0
    pub still_live : IsLive since long r.1
    pub others :
        (b : Text) (theirs : Phase)
        → m.owner_id ≢ b
        → Stands since long b o theirs
        → Stands since long b r.1 theirs

  stay :
      (o : Option Lease) (next : Phase)
      → IsOther m.owner_id o
      → IsOutside since long next
      → IsLive since long o
      → Kept o (next, o)
  stay none next n out h = record {
    own = (tt, λ _. out);
    still_live = h;
    others = λ b theirs _ s. s;
  }
  stay (some l) next n out h = record {
    own = (λ e. absurd (n e), λ _. out);
    still_live = h;
    others = λ b theirs _ s. s;
  }

  taken :
      (a : Attempt)
      → Within since long a.now
      → Kept none (granted, some (lease_for m.owner_id a.run long a.now))
  taken a h = record {
    own = (λ e. refl, λ n. absurd (n refl));
    still_live = (h, refl);
    others = λ b theirs n s. (λ e. absurd (n e), λ _. s.1 tt);
  }

  given_back : (l : Lease) → l.owner ≡ m.owner_id → Kept (some l) (idle, none)
  given_back l e = record {
    own = (tt, λ _. tt);
    still_live = tt;
    others = λ b theirs n s. (tt, λ _. s.1 (λ f. n (sym e ∙ f)));
  }

  holding :
      (l : Lease) (next : Phase)
      → l.owner ≡ m.owner_id
      → is_holding next ≡ true
      → IsLive since long (some l)
      → Kept (some l) (next, some l)
  holding l next e f h = record {
    own = (λ _. f, λ n. absurd (n e));
    still_live = h;
    others = λ b theirs _ s. s;
  }

  calm_own :
      (l : Lease) (phase : Phase)
      → l.owner ≡ m.owner_id
      → is_holding phase ≡ true
      → IsLive since long (some l)
      → Kept (some l) (go_on codec partition_id m (lease_turn codec m partition_id phase (some l)))
  unfolding lease_turn
  calm_own l granted e f h =
      rw (if_pos (text_dec l.owner m.owner_id) e true false) (holding l giving_back e refl h)
  calm_own l giving_back e f h = given_back l e
  calm_own l idle e f h = absurd (cc f)
  calm_own l refused e f h = absurd (cc f)
  calm_own l (starting a) e f h = absurd (cc f)
  calm_own l (removing a lock) e f h = absurd (cc f)
  calm_own l (cleaned a) e f h = absurd (cc f)
  calm_own l (writing a) e f h = absurd (cc f)

  calm_other :
      (l : Lease) (phase : Phase)
      → l.owner ≢ m.owner_id
      → IsOutside since long phase
      → IsLive since long (some l)
      → Kept (some l) (go_on codec partition_id m (lease_turn codec m partition_id phase (some l)))
  unfolding lease_turn
  calm_other l idle n out h = stay (some l) idle n out h
  calm_other l refused n out h = stay (some l) refused n out h
  calm_other l (starting a) n out h =
      rw (live since long a.now l out h.0 h.1) (stay (some l) (cleaned a) n out h)
  calm_other l (cleaned a) n out h =
      rw (live since long a.now l out h.0 h.1, text_eq-ne l.owner m.owner_id n)
        (stay (some l) refused n tt h)
  calm_other l (removing a lock) n out h = absurd out
  calm_other l (writing a) n out h = absurd out
  calm_other l granted n out h = absurd out
  calm_other l giving_back n out h = absurd out

  calm_none :
      (phase : Phase)
      → IsOutside since long phase
      → Kept none (go_on codec partition_id m (lease_turn codec m partition_id phase none))
  unfolding lease_turn
  calm_none idle out = stay none idle tt tt tt
  calm_none refused out = stay none refused tt tt tt
  calm_none (starting a) out = stay none (cleaned a) tt out tt
  calm_none (cleaned a) out = taken a out
  calm_none (removing a lock) out = absurd out
  calm_none (writing a) out = absurd out
  calm_none granted out = absurd out
  calm_none giving_back out = absurd out

  pub calm-Kept :
      (phase : Phase) (o : Option Lease)
      → Stands since long m.owner_id o phase
      → IsLive since long o
      → Kept o (go_on codec partition_id m (lease_turn codec m partition_id phase o))
  calm-Kept phase none s h = calm_none phase (s.1 tt)
  calm-Kept phase (some l) s h = elim (text_dec l.owner m.owner_id) [
    | yes e ↦ calm_own l phase e (s.0 e) h
    | no n ↦ calm_other l phase n (s.1 n) h
  ]
