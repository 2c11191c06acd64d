-- ===== src/Locks/Race/Safety.antt =====
-- src/compactor/lock_manager.py: what holds of several workers, in whatever order they take their turns.
use data_lakehouse.Base.{
  ◌≡◌, refl, ◌∙◌, ap, Bool, true, false, Option, none, some, Text, text_eq, text_eq-eq, ℤ,
}
use data_lakehouse.Errors.{Result, ok}
use data_lakehouse.Exec.{by_outcome-ok}
use data_lakehouse.Config.{Config}
use data_lakehouse.Codec
use data_lakehouse.Codec.{Codec}
use data_lakehouse.Storage.{ObjectStore, IsReliable}
use data_lakehouse.Locks.{lock_file_path}
use data_lakehouse.Locks.Lease.{Lease}
use data_lakehouse.Locks.Manager.{is_held_by_self}
use data_lakehouse.Locks.Slot
use data_lakehouse.Locks.Slot.{text_of}
use data_lakehouse.Locks.Race.{is_holding}
use data_lakehouse.Locks.Race.System.{System, Reach, turn, worker}
use data_lakehouse.Locks.Race.Invariant.{Covers, Stores, Inv, turn-moved, IsFresh, Reach-Inv}

module _ {W : Type 0} (clock : W → ℤ × W) (s3 : ObjectStore W) (codec : Codec) (config : Config)
    (partition_id : Text) where
  -- What `is_held_by_self` answers to a worker.
  abbrev pub holds : Text → System W → Result Bool
  holds owner s = (is_held_by_self clock s3 codec (worker config owner) partition_id s.world).0

  -- No worker's next turn fails; `is_held_by_self` answers True to one worker at most, who was
  -- given the lock and has not given it back; when there is no such worker, there is no lock.
  pub record IsSafe (peek : W → Text → Text → Option Text) (s : System W) : Type 0 where
    pub turns_ok : (owner : Text) → (turn clock s3 codec config partition_id owner s).0 ≡ ok tt
    pub holder : (owner : Text) → holds owner s ≡ ok true → is_holding (s.phase owner) ≡ true
    pub unique : (a b : Text) → holds a s ≡ ok true → holds b s ≡ ok true → a ≡ b
    pub none_left :
        ((owner : Text) → is_holding (s.phase owner) ≡ false)
        → peek s.world config.minio_bucket (lock_file_path config.lock_base_path partition_id)
          ≡ none

module _ {W : Type 0} (clock : W → ℤ × W) (s3 : ObjectStore W) (codec : Codec)
    (peek : W → Text → Text → Option Text) (reliable : IsReliable s3 peek)
    (lawful : Codec.IsLawful codec) (config : Config) (partition_id : Text) where
  abbrev mine : Text → Option Lease → Bool
  mine owner none = false
  mine owner (some l) = text_eq l.owner owner

  pub holds-mine :
      (owner : Text) (s : System W) (o : Option Lease)
      → Stores clock s3 codec peek reliable lawful config partition_id s.world o
      → holds clock s3 codec config partition_id owner s ≡ ok (mine owner o)
  unfolding is_held_by_self
  holds-mine owner s none h =
      ap (λ r. r.0)
        (by_outcome-ok _ (
          Slot.read_lock-answer clock s3 codec peek reliable lawful (worker config owner)
            partition_id none s.world h))
  holds-mine owner s (some l) h =
      ap (λ r. r.0)
        (by_outcome-ok _ (
          Slot.read_lock-answer clock s3 codec peek reliable lawful (worker config owner)
            partition_id (some l) s.world h))

  ok-true : (b : Bool) (r : Result Bool) → r ≡ ok b → r ≡ ok true → b ≡ true
  ok-true true r e f = refl
  ok-true false r e f = absurd (cc (e, f))

  -- Who `is_held_by_self` answers True is the lease's owner.
  holds-owner :
      (owner : Text) (s : System W) (o : Option Lease)
      → Stores clock s3 codec peek reliable lawful config partition_id s.world o
      → holds clock s3 codec config partition_id owner s ≡ ok true
      → (l : Lease) × (o ≡ some l) × (l.owner ≡ owner)
  holds-owner owner s none h e = absurd (cc (ok-true false _ (holds-mine owner s none h) e))
  holds-owner owner s (some l) h e =
      (l, refl, text_eq-eq l.owner owner (ok-true _ _ (holds-mine owner s (some l) h) e))

  none_left :
      (o : Option Lease) (s : System W)
      → ((owner : Text) → Covers owner o (s.phase owner))
      → ((owner : Text) → is_holding (s.phase owner) ≡ false)
      → text_of codec partition_id o ≡ none
  none_left none s covers quiet = refl
  none_left (some l) s covers quiet = absurd (cc (covers l.owner refl, quiet l.owner))

  Covers-holding :
      (o : Option Lease) (l : Lease) (owner : Text) (s : System W)
      → o ≡ some l
      → l.owner ≡ owner
      → Covers owner o (s.phase owner)
      → is_holding (s.phase owner) ≡ true
  Covers-holding none l owner s e f c = absurd (cc e)
  Covers-holding (some l') l owner s e f c = c (cc (e, f))

  Inv-IsSafe :
      (s : System W)
      → Inv clock s3 codec peek reliable lawful config partition_id s
      → IsSafe clock s3 codec config partition_id peek s
  Inv-IsSafe s inv = record {
    turns_ok = λ owner.
        ap (λ r. r.0)
          (turn-moved clock s3 codec peek reliable lawful config partition_id owner s inv.lease
            (inv.readable owner) inv.stores).1;
    holder = λ owner h.
        let (l, e, own) = holds-owner owner s inv.lease inv.stores h in
        Covers-holding inv.lease l owner s e own (inv.covers owner);
    unique = λ a b ha hb.
        let (la, ea, own_a) = holds-owner a s inv.lease inv.stores ha in
        let (lb, eb, own_b) = holds-owner b s inv.lease inv.stores hb in cc (ea, eb, own_a, own_b);
    none_left = λ quiet. inv.stores ∙ none_left inv.lease s inv.covers quiet;
  }

  -- Over a reliable store, with texts that are read back as they were written, and at given times:
  -- of workers with the same settings and different owners that begin with a free lock, attempt to
  -- take it as often as they like, and take their turns in any order, no worker's next turn
  -- fails. `is_held_by_self` answers True to one worker at most, which was given the lock and has not given it back. When there is no such
  -- worker, the lock is free.
  pub Reach-IsSafe :
      {start s : System W}
      → IsFresh clock s3 codec peek reliable lawful config partition_id start
      → Reach (turn clock s3 codec config partition_id) (λ now. Unit) start s
      → IsSafe clock s3 codec config partition_id peek s
  Reach-IsSafe {s = s} fresh r =
      Inv-IsSafe s (Reach-Inv clock s3 codec peek reliable lawful config partition_id fresh r)
