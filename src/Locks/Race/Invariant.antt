-- ===== src/Locks/Race/Invariant.antt =====
-- src/compactor/lock_manager.py: what every turn of every worker keeps.
use data_lakehouse.Base.{
  ◌≡◌, refl, sym, ap, ◌≢◌, Bool, true, false, Option, none, some, Text, text_dec, if◌then◌else◌,
  if_pos, if_neg, ℤ,
}
use data_lakehouse.Errors.{ok}
use data_lakehouse.Exec.{pair_ok}
use data_lakehouse.Time.{seconds}
use data_lakehouse.Config.{Config}
use data_lakehouse.Codec
use data_lakehouse.Codec.{Codec}
use data_lakehouse.Storage.{ObjectStore, IsReliable}
use data_lakehouse.Locks.{lock_file_path}
use data_lakehouse.Locks.Lease.{Lease, is_over}
use data_lakehouse.Locks.Manager.{LockManager}
use data_lakehouse.Locks.Slot.{text_of}
use data_lakehouse.Locks.Race.{
  Attempt, Phase, idle, starting, removing, cleaned, writing, granted, giving_back, refused,
  advance, is_holding,
}
use data_lakehouse.Locks.Race.Turns.{lease_turn, IsReadable, advance-lease_turn}
use data_lakehouse.Locks.Race.System.{
  System, Reach, here, begins, goes_on, turn, worker, update, begin, may_begin, moved,
}

-- The lease, if it is the worker's, is the worker's to give back.
abbrev pub Covers : Text → Option Lease → Phase → Type 0
Covers owner none phase = Unit
Covers owner (some l) phase = l.owner ≡ owner → is_holding phase ≡ true

-- An `if` has what both its branches have.
if_both : {A : Type 0} (P : A → Type 0) (b : Bool) (x y : A) → P x → P y → P (if b then x else y)
if_both P true x y p q = p
if_both P false x y p q = q

module _ (codec : Codec) (m : LockManager) (partition_id : Text) where
  pub lease_turn-IsReadable :
      (phase : Phase) (o : Option Lease)
      → IsReadable codec partition_id phase
      → IsReadable codec partition_id (lease_turn codec m partition_id phase o).0
  unfolding lease_turn
  lease_turn-IsReadable idle o h = tt
  lease_turn-IsReadable (starting a) none h = tt
  lease_turn-IsReadable (starting a) (some l) h =
      if_both (IsReadable codec partition_id)
        (is_over l (seconds m.config.lock_timeout_seconds) a.now) _ _ (l, refl) tt
  lease_turn-IsReadable (removing a lock) o h = tt
  lease_turn-IsReadable (cleaned a) none h = tt
  lease_turn-IsReadable (cleaned a) (some l) h =
      if_both (IsReadable codec partition_id) _ refused (writing a) tt tt
  lease_turn-IsReadable (writing a) o h = tt
  lease_turn-IsReadable granted none h = tt
  lease_turn-IsReadable granted (some l) h =
      if_both (IsReadable codec partition_id) _ giving_back idle tt tt
  lease_turn-IsReadable giving_back o h = tt
  lease_turn-IsReadable refused o h = tt

  -- A worker's own turn.
  own_turn :
      (phase : Phase) (o : Option Lease)
      → Covers m.owner_id o phase
      → let r = lease_turn codec m partition_id phase o in Covers m.owner_id r.1 r.0
  unfolding lease_turn
  own_turn idle o h = h
  own_turn (starting a) none h = tt
  own_turn (starting a) (some l) h = λ e. absurd (cc (h e))
  own_turn (removing a lock) o h = tt
  own_turn (cleaned a) none h = tt
  own_turn (cleaned a) (some l) h = λ e. absurd (cc (h e))
  own_turn (writing a) o h = λ e. refl
  own_turn granted none h = tt
  own_turn granted (some l) h = λ e. rw (if_pos (text_dec l.owner m.owner_id) e true false) refl
  own_turn giving_back o h = tt
  own_turn refused o h = h

  -- The turn of another worker.
  other_turn :
      (phase : Phase) (o : Option Lease) (owner : Text) (theirs : Phase)
      → m.owner_id ≢ owner
      → Covers owner o theirs
      → Covers owner (lease_turn codec m partition_id phase o).1 theirs
  unfolding lease_turn
  other_turn idle o owner theirs n h = h
  other_turn (starting a) none owner theirs n h = tt
  other_turn (starting a) (some l) owner theirs n h = h
  other_turn (removing a lock) o owner theirs n h = tt
  other_turn (cleaned a) none owner theirs n h = tt
  other_turn (cleaned a) (some l) owner theirs n h = h
  other_turn (writing a) o owner theirs n h = λ e. absurd (n e)
  other_turn granted none owner theirs n h = tt
  other_turn granted (some l) owner theirs n h = h
  other_turn giving_back o owner theirs n h = tt
  other_turn refused o owner theirs n h = h

-- A worker that may begin has no lease to give back.
pub Covers-begin :
    (owner : Text) (o : Option Lease) (phase : Phase) (a : Attempt)
    → may_begin phase ≡ true
    → Covers owner o phase
    → Covers owner o (starting a)
Covers-begin owner none phase a free h = tt
Covers-begin owner (some l) idle a free h = λ e. absurd (cc (h e))
Covers-begin owner (some l) refused a free h = λ e. absurd (cc (h e))
Covers-begin owner (some l) (starting a') a free h = absurd (cc free)
Covers-begin owner (some l) (removing a' lock) a free h = absurd (cc free)
Covers-begin owner (some l) (cleaned a') a free h = absurd (cc free)
Covers-begin owner (some l) (writing a') a free h = absurd (cc free)
Covers-begin owner (some l) granted a free h = absurd (cc free)
Covers-begin owner (some l) giving_back a free h = absurd (cc free)

-- After an update, what all workers keep.
pub update-All :
    (P : Text → Phase → Type 0) (f : Text → Phase) (owner : Text) (next : Phase)
    → P owner next
    → ((other : Text) → owner ≢ other → P other (f other))
    → (other : Text) → P other (update f owner next other)
update-All P f owner next own others other = elim (text_dec owner other) [
  | yes same ↦ rw (sym same) (rw (if_pos (text_dec owner owner) refl next (f owner)) own)
  | no apart ↦ rw (if_neg (text_dec owner other) apart next (f other)) (others other apart)
]

module _ {W : Type 0} (clock : W → ℤ × W) (s3 : ObjectStore W) (codec : Codec)
    (peek : W → Text → Text → Option Text) (reliable : IsReliable s3 peek)
    (lawful : Codec.IsLawful codec) (config : Config) (partition_id : Text) where
  -- The lock of the partition is that of the lease.
  abbrev pub Stores : W → Option Lease → Type 0
  Stores w o =
      peek w config.minio_bucket (lock_file_path config.lock_base_path partition_id)
      ≡ text_of codec partition_id o

  -- What holds of the workers and the lock.
  pub record Inv (s : System W) : Type 0 where
    pub lease : Option Lease
    pub stores : Stores s.world lease
    pub readable : (owner : Text) → IsReadable codec partition_id (s.phase owner)
    pub covers : (owner : Text) → Covers owner lease (s.phase owner)

  pub turn-moved :
      (owner : Text) (s : System W) (o : Option Lease)
      → IsReadable codec partition_id (s.phase owner)
      → Stores s.world o
      → let r = lease_turn codec (worker config owner) partition_id (s.phase owner) o in
        (w : W) × (turn clock s3 codec config partition_id owner s
          ≡ (ok tt, record { world = w; phase = update s.phase owner r.0 }))
        × Stores w r.1
  unfolding turn
  turn-moved owner s o readable stores =
      let a =
        advance-lease_turn clock s3 codec peek reliable lawful (worker config owner) partition_id
          (s.phase owner) o s.world readable stores in
      let r = advance clock s3 codec (worker config owner) partition_id (s.phase owner) s.world in
      (r.1, ap (moved owner s.phase) (pair_ok r a.answer_ok), a.lease_ok)

  turn-Inv :
      (owner : Text) (s : System W)
      → Inv s
      → Inv (turn clock s3 codec config partition_id owner s).1
  turn-Inv owner s inv =
      let (w, e, stores) = turn-moved owner s inv.lease (inv.readable owner) inv.stores in
      rw e (record {
        lease = _;
        stores = stores;
        readable =
            update-All (λ b. IsReadable codec partition_id) s.phase owner _
              (lease_turn-IsReadable codec (worker config owner) partition_id (s.phase owner)
                inv.lease (inv.readable owner))
              (λ b n. inv.readable b);
        covers =
            update-All (λ b. Covers b _) s.phase owner _
              (own_turn codec (worker config owner) partition_id (s.phase owner) inv.lease
                (inv.covers owner))
              (λ b n.
                other_turn codec (worker config owner) partition_id (s.phase owner) inv.lease b
                  (s.phase b) n (inv.covers b));
      })

  begin-Inv :
      (owner : Text) (a : Attempt) (s : System W)
      → may_begin (s.phase owner) ≡ true
      → Inv s
      → Inv (begin owner a s)
  begin-Inv owner a s free inv = record {
    lease = inv.lease;
    stores = inv.stores;
    readable =
        update-All (λ b. IsReadable codec partition_id) s.phase owner (starting a) tt
          (λ b n. inv.readable b);
    covers =
        update-All (λ b. Covers b inv.lease) s.phase owner (starting a)
          (Covers-begin owner inv.lease (s.phase owner) a free (inv.covers owner))
          (λ b n. inv.covers b);
  }

  -- Before the first attempt.
  abbrev pub IsFresh : System W → Type 0
  IsFresh s = Stores s.world none × ((owner : Text) → s.phase owner ≡ idle)

  pub Reach-Inv :
      {start s : System W}
      → IsFresh start
      → Reach (turn clock s3 codec config partition_id) (λ now. Unit) start s
      → Inv s
  Reach-Inv (free, fresh) here = record {
    lease = none;
    stores = free;
    readable = λ b. rw (fresh b) tt;
    covers = λ b. tt;
  }
  Reach-Inv h (begins {s} r owner a free allowed) = begin-Inv owner a s free (Reach-Inv h r)
  Reach-Inv h (goes_on {s} r owner) = turn-Inv owner s (Reach-Inv h r)
