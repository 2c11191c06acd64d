-- ===== src/Locks/Race/Mutual.antt =====
-- src/compactor/lock_manager.py: calm workers exclude each other.
use data_lakehouse.Base.{
  ◌≡◌, refl, ◌∙◌, ap, true, Option, none, some, Text, text_dec, text_eq, text_eq_refl, ite, if_pos,
  ℤ, Bool-cases, inl, inr,
}
use data_lakehouse.Errors.{Result, ok}
use data_lakehouse.Time.{seconds}
use data_lakehouse.Config.{Config}
use data_lakehouse.Codec
use data_lakehouse.Codec.{Codec}
use data_lakehouse.Storage.{ObjectStore, IsReliable}
use data_lakehouse.Locks.Lease.{Lease}
use data_lakehouse.Locks.Slot.{text_of}
use data_lakehouse.Locks.Race.{
  Attempt, Phase, idle, starting, removing, cleaned, writing, granted, giving_back, refused,
  is_holding,
}
use data_lakehouse.Locks.Race.Turns.{lease_turn, IsReadable}
use data_lakehouse.Locks.Race.System.{
  System, Reach, here, begins, goes_on, turn, calm_turn, worker, update, begin, may_begin,
  is_writing,
}
use data_lakehouse.Locks.Race.Invariant.{
  Covers-begin, Stores, IsFresh, turn-moved, update-All, lease_turn-IsReadable,
}
use data_lakehouse.Locks.Race.Safety.{holds, holds-mine}
use data_lakehouse.Locks.Race.Calm.{Within, IsLive, IsOutside, Stands, go_on, calm-Kept}

outside-not_holding :
    (since long : ℤ) (phase : Phase) → IsOutside since long phase → is_holding phase ≡ true → ⊥
outside-not_holding since long idle out h = cc h
outside-not_holding since long (starting a) out h = cc h
outside-not_holding since long (cleaned a) out h = cc h
outside-not_holding since long refused out h = cc h
outside-not_holding since long (removing a lock) out h = out
outside-not_holding since long (writing a) out h = out
outside-not_holding since long granted out h = out
outside-not_holding since long giving_back out h = out

-- Who holds the lock is the lease's owner.
holding-owner :
    (since long : ℤ) (owner : Text) (o : Option Lease) (phase : Phase)
    → Stands since long owner o phase
    → is_holding phase ≡ true
    → (l : Lease) × (o ≡ some l) × (l.owner ≡ owner)
holding-owner since long owner none phase s h =
    absurd (outside-not_holding since long phase (s.1 tt) h)
holding-owner since long owner (some l) phase s h = elim (text_dec l.owner owner) [
  | yes e ↦ (l, refl, e)
  | no n ↦ absurd (outside-not_holding since long phase (s.1 n) h)
]

ite_twice : {P : Type 0} (d : Dec P) (x y z : Phase) → ite d y (ite d x z) ≡ ite d y z
ite_twice (yes p) x y z = refl
ite_twice (no n) x y z = refl

module _ {W : Type 0} (clock : W → ℤ × W) (s3 : ObjectStore W) (codec : Codec)
    (peek : W → Text → Text → Option Text) (reliable : IsReliable s3 peek)
    (lawful : Codec.IsLawful codec) (config : Config) (partition_id : Text) where
  abbrev pub Stored : W → Option Lease → Type 0
  Stored = Stores clock s3 codec peek reliable lawful config partition_id

  go_on-IsReadable :
      (owner : Text) (r : Phase × Option Lease)
      → IsReadable codec partition_id r.0
      → IsReadable codec partition_id (go_on codec partition_id (worker config owner) r).0
  go_on-IsReadable owner r h = elim (Bool-cases (is_writing r.0)) [
    | inl wr ↦ rw wr (lease_turn-IsReadable codec (worker config owner) partition_id r.0 r.1 h)
    | inr no_wr ↦ rw no_wr h
  ]

  -- What a turn has come to: the world and the workers, as the turn on the lease says.
  pub record Comes (owner : Text) (f : Text → Phase) (r : Phase × Option Lease)
      (out : Result (Unit {0}) × System W) : Type 0 where
    pub fine : out.0 ≡ ok tt
    pub stored : Stored out.1.world r.1
    pub placed : (b : Text) → out.1.phase b ≡ update f owner r.0 b

  pub turn-Comes :
      (owner : Text) (s : System W) (o : Option Lease)
      → IsReadable codec partition_id (s.phase owner)
      → Stored s.world o
      → Comes owner s.phase
          (lease_turn codec (worker config owner) partition_id (s.phase owner) o)
          (turn clock s3 codec config partition_id owner s)
  turn-Comes owner s o readable stored =
      let (w, e, h) =
        turn-moved clock s3 codec peek reliable lawful config partition_id owner s o readable
          stored in
      rw e (record { fine = refl; stored = h; placed = λ b. refl })

  update_twice :
      (f : Text → Phase) (owner : Text) (p q : Phase) (b : Text)
      → update (update f owner p) owner q b ≡ update f owner q b
  update_twice f owner p q b = ite_twice (text_dec owner b) p q (f b)

  again :
      (owner : Text) (f : Text → Phase) (next : Phase) (w : W) (o : Option Lease)
      → IsReadable codec partition_id next
      → Stored w o
      → Comes owner f (lease_turn codec (worker config owner) partition_id next o) (
          turn clock s3 codec config partition_id owner
            (record { world = w; phase = update f owner next }))
  again owner f next w o readable stored =
      let s1 : System W = record { world = w; phase = update f owner next } in
      let here_now : update f owner next owner ≡ next =
        if_pos (text_dec owner owner) refl next (f owner) in
      let c = turn-Comes owner s1 o (rw here_now readable) stored in
      record {
        fine = c.fine;
        stored =
            c.stored
            ∙ ap
                (λ p.
                  text_of codec partition_id
                    (lease_turn codec (worker config owner) partition_id p o).1)
                here_now;
        placed = λ b.
            c.placed b
            ∙ update_twice f owner next _ b
            ∙ ap (λ p. update f owner (lease_turn codec (worker config owner) partition_id p o).0 b)
                here_now;
      }

  calm-Comes :
      (owner : Text) (s : System W) (o : Option Lease)
      → IsReadable codec partition_id (s.phase owner)
      → Stored s.world o
      → Comes owner s.phase
          (go_on codec partition_id
            (worker config owner)
            (lease_turn codec (worker config owner) partition_id (s.phase owner) o))
          (calm_turn clock s3 codec config partition_id owner s)
  unfolding calm_turn
  calm-Comes owner s o readable stored =
      let r = lease_turn codec (worker config owner) partition_id (s.phase owner) o in
      let (w, e, h) =
        turn-moved clock s3 codec peek reliable lawful config partition_id owner s o readable
          stored in
      rw (e, if_pos (text_dec owner owner) refl r.0 (s.phase owner))
        (elim (Bool-cases (is_writing r.0)) [
          | inl wr ↦ rw wr (
              again owner s.phase r.0 w r.1
                (lease_turn-IsReadable codec (worker config owner) partition_id (s.phase owner) o
                  readable)
                h)
          | inr no_wr ↦ rw no_wr (record { fine = refl; stored = h; placed = λ b. refl })
        ])

  abbrev long : ℤ
  long = seconds config.lock_timeout_seconds

  -- What holds of calm workers and the lock.
  record Order (since : ℤ) (s : System W) : Type 0 where
    pub lease : Option Lease
    pub stored : Stored s.world lease
    pub readable : (owner : Text) → IsReadable codec partition_id (s.phase owner)
    pub live : IsLive since long lease
    pub stands : (owner : Text) → Stands since long owner lease (s.phase owner)

  calm-Order :
      (since : ℤ) (owner : Text) (s : System W)
      → Order since s
      → Order since (calm_turn clock s3 codec config partition_id owner s).1
  calm-Order since owner s h =
      let c = calm-Comes owner s h.lease (h.readable owner) h.stored in
      let k =
        calm-Kept codec partition_id (worker config owner) since (s.phase owner) h.lease
          (h.stands owner) h.live in
      record {
        lease = _;
        stored = c.stored;
        readable = λ b. rw (c.placed b) (
            update-All (λ b. IsReadable codec partition_id) s.phase owner _
              (go_on-IsReadable owner _ (
                lease_turn-IsReadable codec (worker config owner) partition_id (s.phase owner)
                  h.lease (h.readable owner)))
              (λ b n. h.readable b) b);
        live = k.still_live;
        stands = λ b. rw (c.placed b) (
            update-All (λ b. Stands since long b _) s.phase owner _ k.own
              (λ b n. k.others b (s.phase b) n (h.stands b)) b);
      }

  begin-Order :
      (since : ℤ) (owner : Text) (a : Attempt) (s : System W)
      → may_begin (s.phase owner) ≡ true
      → Within since long a.now
      → Order since s
      → Order since (begin owner a s)
  begin-Order since owner a s free inside h = record {
    lease = h.lease;
    stored = h.stored;
    readable =
        update-All (λ b. IsReadable codec partition_id) s.phase owner (starting a) tt
          (λ b n. h.readable b);
    live = h.live;
    stands =
        update-All (λ b. Stands since long b h.lease) s.phase owner (starting a)
          (Covers-begin owner h.lease (s.phase owner) a free (h.stands owner).0, λ _. inside)
          (λ b n. h.stands b);
  }

  Reach-Order :
      (since : ℤ) {start s : System W}
      → IsFresh clock s3 codec peek reliable lawful config partition_id start
      → Reach (calm_turn clock s3 codec config partition_id) (Within since long) start s
      → Order since s
  Reach-Order since (free, fresh) here = record {
    lease = none;
    stored = free;
    readable = λ b. rw (fresh b) tt;
    live = tt;
    stands = λ b. (tt, λ _. rw (fresh b) tt);
  }
  Reach-Order since h (begins {s} r owner a free inside) =
      begin-Order since owner a s free inside (Reach-Order since h r)
  Reach-Order since h (goes_on {s} r owner) = calm-Order since owner s (Reach-Order since h r)

  -- One worker at most has been given the lock and has not given it back, and then
  -- `is_held_by_self` answers True to it. No worker's next turn fails.
  pub record IsExclusive (s : System W) : Type 0 where
    pub turns_ok : (owner : Text) → (calm_turn clock s3 codec config partition_id owner s).0 ≡ ok tt
    pub unique :
        (a b : Text) → is_holding (s.phase a) ≡ true → is_holding (s.phase b) ≡ true → a ≡ b
    pub held :
        (a : Text)
        → is_holding (s.phase a) ≡ true
        → holds clock s3 codec config partition_id a s ≡ ok true

  Order-IsExclusive : (since : ℤ) (s : System W) → Order since s → IsExclusive s
  Order-IsExclusive since s h = record {
    turns_ok = λ owner. (calm-Comes owner s h.lease (h.readable owner) h.stored).fine;
    unique = λ a b ha hb.
        let (la, ea, own_a) = holding-owner since long a h.lease (s.phase a) (h.stands a) ha in
        let (lb, eb, own_b) = holding-owner since long b h.lease (s.phase b) (h.stands b) hb in
        cc (ea, eb, own_a, own_b);
    held = λ a ha.
        let (l, e, own) = holding-owner since long a h.lease (s.phase a) (h.stands a) ha in
        holds-mine clock s3 codec peek reliable lawful config partition_id a s (some l)
          (h.stored ∙ ap (text_of codec partition_id) e)
        ∙ ap ok (ap (λ t. text_eq t a) own ∙ text_eq_refl a);
  }

  -- Over a reliable store, with texts that are read back as they were written: of workers with the
  -- same settings and different owners that begin with a free lock and attempt to take it as often as they like, at
  -- given times in a span shorter than the timeout, in any order but so that nobody's turn comes between the
  -- read and the write with which a worker takes the lock, one at most has been given the lock and has not given it
  -- back, `is_held_by_self` answers True to it, and no worker's next turn fails.
  pub Reach-IsExclusive :
      (since : ℤ) {start s : System W}
      → IsFresh clock s3 codec peek reliable lawful config partition_id start
      → Reach (calm_turn clock s3 codec config partition_id) (Within since long) start s
      → IsExclusive s
  Reach-IsExclusive since {s = s} h r = Order-IsExclusive since s (Reach-Order since h r)
