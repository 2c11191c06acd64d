-- ===== src/Locks/Race/Clash.antt =====
-- src/compactor/lock_manager.py: what comes of two workers that both read before either writes.
use data_lakehouse.Base.{
  ◌≡◌, refl, sym, ◌∙◌, ap, ◌≢◌, true, false, Option, none, some, List, [], ◌∷◌, Text, text_dec,
  text_eq, text_eq-ne, text_eq_refl, if_pos, if_neg, ℤ,
}
use data_lakehouse.Errors.{ok}
use data_lakehouse.Time.{seconds}
use data_lakehouse.Config.{Config}
use data_lakehouse.Codec
use data_lakehouse.Codec.{Codec}
use data_lakehouse.Storage.{ObjectStore, IsReliable}
use data_lakehouse.Locks.Lease.{Lease, lease_for}
use data_lakehouse.Locks.Slot.{text_of}
use data_lakehouse.Locks.Race.{Attempt, Phase, starting, cleaned, writing, granted}
use data_lakehouse.Locks.Race.Turns.{lease_turn, IsReadable}
use data_lakehouse.Locks.Race.System.{System, turn, worker, begin}
use data_lakehouse.Locks.Race.Invariant.{Stores, IsFresh}
use data_lakehouse.Locks.Race.Safety.{holds, holds-mine}
use data_lakehouse.Locks.Race.Mutual.{turn-Comes}

module _ {W : Type 0} (clock : W → ℤ × W) (s3 : ObjectStore W) (codec : Codec) (config : Config)
    (partition_id : Text) where
  -- Turns of the workers, one after the other.
  abbrev pub turns : List Text → System W → System W
  turns [] s = s
  turns (owner ∷ owners) s = turns owners (turn clock s3 codec config partition_id owner s).1

module _ {W : Type 0} (clock : W → ℤ × W) (s3 : ObjectStore W) (codec : Codec)
    (peek : W → Text → Text → Option Text) (reliable : IsReliable s3 peek)
    (lawful : Codec.IsLawful codec) (config : Config) (partition_id : Text) (a b : Text)
    (n : a ≢ b) where
  -- The lease, and where the two workers are.
  record Placed (o : Option Lease) (p q : Phase) (s : System W) : Type 0 where
    pub stored : Stores clock s3 codec peek reliable lawful config partition_id s.world o
    pub of_a : s.phase a ≡ p
    pub of_b : s.phase b ≡ q

  a_turns :
      (o : Option Lease) (p q : Phase) (s : System W)
      → IsReadable codec partition_id p
      → Placed o p q s
      → let r = lease_turn codec (worker config a) partition_id p o in
        Placed r.1 r.0 q (turn clock s3 codec config partition_id a s).1
  a_turns o p q s readable h =
      let c =
        turn-Comes clock s3 codec peek reliable lawful config partition_id a s o
          (rw h.of_a readable) h.stored in
      let r = ap (λ p. lease_turn codec (worker config a) partition_id p o) h.of_a in
      record {
        stored = c.stored ∙ ap (λ r. text_of codec partition_id r.1) r;
        of_a = c.placed a ∙ if_pos (text_dec a a) refl _ _ ∙ ap (λ r. r.0) r;
        of_b = c.placed b ∙ if_neg (text_dec a b) n _ _ ∙ h.of_b;
      }

  b_turns :
      (o : Option Lease) (p q : Phase) (s : System W)
      → IsReadable codec partition_id q
      → Placed o p q s
      → let r = lease_turn codec (worker config b) partition_id q o in
        Placed r.1 p r.0 (turn clock s3 codec config partition_id b s).1
  b_turns o p q s readable h =
      let c =
        turn-Comes clock s3 codec peek reliable lawful config partition_id b s o
          (rw h.of_b readable) h.stored in
      let r = ap (λ p. lease_turn codec (worker config b) partition_id p o) h.of_b in
      record {
        stored = c.stored ∙ ap (λ r. text_of codec partition_id r.1) r;
        of_a = c.placed a ∙ if_neg (text_dec b a) (λ e. n (sym e)) _ _ ∙ h.of_a;
        of_b = c.placed b ∙ if_pos (text_dec b b) refl _ _ ∙ ap (λ r. r.0) r;
      }

  -- Both read, and then both write.
  abbrev pub racing : List Text
  racing = a ∷ a ∷ b ∷ b ∷ a ∷ b ∷ []

  begun :
      (x y : Attempt) (s : System W)
      → IsFresh clock s3 codec peek reliable lawful config partition_id s
      → Placed none (starting x) (starting y) (begin b y (begin a x s))
  begun x y s h = record {
    stored = h.0;
    of_a = if_neg (text_dec b a) (λ e. n (sym e)) _ _ ∙ if_pos (text_dec a a) refl _ _;
    of_b = if_pos (text_dec b b) refl _ _;
  }

  raced :
      (x y : Attempt) (s : System W)
      → Placed none (starting x) (starting y) s
      → Placed
          (some (lease_for b y.run (seconds config.lock_timeout_seconds) y.now))
          granted
          granted
          (turns clock s3 codec config partition_id racing s)
  unfolding lease_turn
  raced x y s h =
      let h1 = a_turns none (starting x) (starting y) s tt h in
      let h2 = a_turns none (cleaned x) (starting y) _ tt h1 in
      let h3 = b_turns none (writing x) (starting y) _ tt h2 in
      let h4 = b_turns none (writing x) (cleaned y) _ tt h3 in
      let h5 = a_turns none (writing x) (writing y) _ tt h4 in b_turns _ granted (writing y) _ tt h5

  -- Over a reliable store, with texts that are read back as they were written: of two workers with
  -- the same settings and different owners that attempt to take a free lock, at whatever times, and both read before
  -- either writes, both are given the lock, and `is_held_by_self` answers True to the one that
  -- has written last and False to the other.
  pub turns-granted :
      (x y : Attempt) (s : System W)
      → IsFresh clock s3 codec peek reliable lawful config partition_id s
      → let last = turns clock s3 codec config partition_id racing (begin b y (begin a x s)) in
        (last.phase a ≡ granted)
        × (last.phase b ≡ granted)
        × (holds clock s3 codec config partition_id a last ≡ ok false)
        × (holds clock s3 codec config partition_id b last ≡ ok true)
  turns-granted x y s fresh =
      let h = raced x y (begin b y (begin a x s)) (begun x y s fresh) in
      let answers : (owner : Text)
          → holds clock s3 codec config partition_id owner
              (turns clock s3 codec config partition_id racing (begin b y (begin a x s)))
            ≡ ok (text_eq b owner) =
        λ owner.
          holds-mine clock s3 codec peek reliable lawful config partition_id owner
            (turns clock s3 codec config partition_id racing (begin b y (begin a x s)))
            (some (lease_for b y.run (seconds config.lock_timeout_seconds) y.now)) h.stored in
      (
        h.of_a,
        h.of_b,
        answers a ∙ ap ok (text_eq-ne b a (λ e. n (sym e))),
        answers b ∙ ap ok (text_eq_refl b),
      )
