-- ===== src/Daemon/Locking.antt =====
-- What a run does to the locks of the partitions.
use data_lakehouse.Base.{
  ◌≡◌, refl, ◌∙◌, ap, sym, ◌≢◌, Bool, true, false, Option, none, some, List, [], ◌∷◌, Text, ◌==◌, ℤ,
  Bool-cases, inl, inr, text_eq, text_dec, ◌||◌, All, if_pos, ℕ_discrete,
}
use data_lakehouse.Errors.{Result, ok}
use data_lakehouse.Exec.{by_outcome, pure, throw, outcome-cases, pair_ok}
use data_lakehouse.Time.{aware, seconds}
use data_lakehouse.Config.{Config}
use data_lakehouse.Codec
use data_lakehouse.Storage.{IsReliable}
use data_lakehouse.Scanner.{PartitionStats, partition_id, file_count}
use data_lakehouse.Locks.{lock_file_path}
use data_lakehouse.Locks.Lease.{Lease, is_over, take, give_back}
use data_lakehouse.Locks.Manager.{LockManager, acquire, release}
use data_lakehouse.Locks.Slot.{text_of}
use data_lakehouse.Locks.Refinement.{Answers, acquire-take}
use data_lakehouse.Locks.Release.{release-give_back}
use data_lakehouse.Locks.Exclusion.{manager, lock_file_path-injective, text_or_self}
use data_lakehouse.Compactor.{compact_partition}
use data_lakehouse.Daemon.{World, Run, outside, compact_locked, run_partition, run_partitions}
use data_lakehouse.Daemon.Kept.{Leaves, compact_partition-look}

-- A lease that was refused is nobody's to give back.
give_back-refused :
    (owner run : Text) (timeout now : ℤ) (o : Option Lease)
    → (take owner run timeout now o).0 ≡ false
    → give_back owner (take owner run timeout now o).1 ≡ (take owner run timeout now o).1
unfolding take give_back
give_back-refused owner run timeout now none h = absurd (cc h)
give_back-refused owner run timeout now (some l) h =
    elim (Bool-cases (is_over l timeout now || text_eq l.owner owner)) [
      | inl e ↦ absurd (cc (rw e at h))
      | inr e ↦ rw e (elim (Bool-cases (text_eq l.owner owner)) [
        | inl own ↦ absurd (cc (or_right (is_over l timeout now) (text_eq l.owner owner) e, own))
        | inr other ↦ rw other
      ])
    ]
  where
    or_right : (a b : Bool) → (a || b) ≡ false → b ≡ false
    or_right true b h = absurd (cc h)
    or_right false b h = h

-- The locks of all partitions.
abbrev pub locks : {W : Type 0} → (W → Text → Text → Option Text) → Config → W → Text → Option Text
locks peek config w id = peek w config.minio_bucket (lock_file_path config.lock_base_path id)

-- A partition with files whose lock is free.
abbrev pub IsFree : (Text → Option Text) → PartitionStats → Type 0
IsFree held p = ((file_count p == 0) ≡ false) × (held (partition_id p) ≡ none)

All-IsFree :
    (f g : Text → Option Text) (ps : List PartitionStats)
    → ((id : Text) → g id ≡ f id)
    → All (IsFree f) ps
    → All (IsFree g) ps
All-IsFree f g [] same h = tt
All-IsFree f g (p ∷ ps) same h =
    ((h.0.0, same (partition_id p) ∙ h.0.1), All-IsFree f g ps same h.1)

module _ {W : Type 0} (env : World W) (peek : W → Text → Text → Option Text) (config : Config)
    (reliable : IsReliable env.store peek) (lawful : Codec.IsLawful env.codec)
    (leaves : Leaves (locks peek config) env.timer env.listing env.spark)
    (clock_kept : (w : W) → locks peek config (env.clock w).1 ≡ locks peek config w)
    (owner run_id : Text) where
  abbrev me : LockManager
  me = manager config owner run_id

  -- Whatever becomes of the rewriting, it is recorded, and the locks are as they were.
  compact_locked-locks :
      (p : PartitionStats) (s : Run W)
      → ((compact_locked env config me run_id p s).0 ≡ ok tt)
        × (locks peek config (compact_locked env config me run_id p s).1.world
            ≡ locks peek config s.world)
  unfolding compact_locked
  compact_locked-locks p s =
      let kept =
        compact_partition-look (locks peek config) (locks peek config s.world) env.timer env.listing
          env.spark leaves config p s.world refl in
      elim (outcome-cases (compact_partition env.timer env.listing env.spark config p s.world)) [
        | inl (part, w, e) ↦ rw e (refl, rw e at kept)
        | inr (exc, w, e) ↦ rw e (refl, rw e at kept)
      ]

  -- How a part of the loop ended: well, with `o` as the lease of `id` and all other locks as before.
  abbrev pub EndsWith : Text → Option Lease → W → Result (Unit {0}) × Run W → Type 0
  EndsWith id o w r =
      (r.0 ≡ ok tt)
      × (locks peek config r.1.world id ≡ text_of env.codec id o)
      × ((other : Text)
          → id ≢ other
          → locks peek config r.1.world other ≡ locks peek config w other)

  apart :
      (p q : Text)
      → p ≢ q
      → lock_file_path config.lock_base_path p ≢ lock_file_path config.lock_base_path q
  apart p q n e = n (lock_file_path-injective config.lock_base_path p q e)

  release-EndsWith :
      (p : Text) (o : Option Lease) (s : Run W)
      → locks peek config s.world p ≡ text_of env.codec p o
      → EndsWith p
          (give_back owner o)
          s.world
          (by_outcome (λ a. pure tt) throw (outside (release env.clock env.store env.codec me p) s))
  release-EndsWith p o s h =
      let a =
        release-give_back env.clock env.store env.codec peek reliable lawful me p o s.world h in
      elim (outcome-cases (release env.clock env.store env.codec me p s.world)) [
        | inl (u, w, e) ↦
            rw e (refl, rw e at a.lease_ok, λ q n. rw e at a.elsewhere _ (apart p q n))
        | inr (exc, w, e) ↦ absurd (cc (rw e at a.answer_ok))
      ]

  -- Without a time that is given, the clock is read first.
  acquire_now :
      (p : Text) (w : W)
      → acquire env.clock env.store env.codec me p none (some run_id) w
        ≡ acquire env.clock env.store env.codec me p
            (some (aware (env.clock w).0))
            (some run_id)
            (env.clock w).1
  unfolding acquire
  acquire_now p w = refl

  acquire_now-take :
      (p : Text) (w : W) (o : Option Lease)
      → locks peek config w p ≡ text_of env.codec p o
      → Answers env.codec peek me p
          (env.clock w).1
          (acquire env.clock env.store env.codec me p none (some run_id) w)
          (take owner run_id (seconds config.lock_timeout_seconds) (env.clock w).0 o)
  acquire_now-take p w o h = rw acquire_now (
      acquire-take env.clock env.store env.codec peek reliable lawful me p run_id (env.clock w).0
        (text_or_self run_id) o (env.clock w).1 (ap (λ f. f p) (clock_kept w) ∙ h))

  -- Over a reliable store, with texts that are read back as they were written, and where neither
  -- the rewriting nor the clock touches a lock, the loop's body does to the lock of a partition
  -- with files what taking the lease and giving it back do; it does not raise, whatever becomes of
  -- the rewriting, and leaves all other locks as they are.
  pub run_partition-EndsWith :
      (p : PartitionStats) (s : Run W) (o : Option Lease)
      → (file_count p == 0) ≡ false
      → locks peek config s.world (partition_id p) ≡ text_of env.codec (partition_id p) o
      → let now = (env.clock s.world).0 in
        EndsWith
          (partition_id p)
          (give_back owner (take owner run_id (seconds config.lock_timeout_seconds) now o).1)
          s.world
          (run_partition env config me run_id p s)
  unfolding run_partition
  run_partition-EndsWith p s o some_here h =
      let id = partition_id p in
      let timeout = seconds config.lock_timeout_seconds in
      let now = (env.clock s.world).0 in
      let a = acquire_now-take id s.world o h in
      rw some_here
        (elim (outcome-cases
          (acquire env.clock env.store env.codec me id none (some run_id) s.world)) [
            | inl (true, w, e) ↦
                let (done, same) = compact_locked-locks p (record s { world = w }) in
                let s' = (compact_locked env config me run_id p (record s { world = w })).1 in
                let (done', lease, others) =
                  release-EndsWith id (take owner run_id timeout now o).1 s'
                    (ap (λ f. f id) same ∙ rw e at a.lease_ok) in
                rw
                  (e, pair_ok (compact_locked env config me run_id p (record s { world = w })) done)
                  (
                    done',
                    lease,
                    λ q n.
                        others q n
                        ∙ ap (λ f. f q) same
                        ∙ (rw e at a.elsewhere _ (apart id q n))
                        ∙ ap (λ f. f q) (clock_kept s.world),
                  )
            | inl (false, w, e) ↦
                let refused : (take owner run_id timeout now o).0 ≡ false =
                  cc (rw e at a.answer_ok) in
                rw (e, give_back-refused owner run_id timeout now o refused)
                  (
                    refl,
                    rw e at a.lease_ok,
                    λ q n.
                        (rw e at a.elsewhere _ (apart id q n)) ∙ ap (λ f. f q) (clock_kept s.world),
                  )
            | inr (exc, w, e) ↦ absurd (cc (rw e at a.answer_ok))
          ])

  give_back-taken :
      (timeout now : ℤ) → give_back owner (take owner run_id timeout now none).1 ≡ none
  unfolding take give_back text_dec ℕ_discrete
  give_back-taken timeout now = rw (if_pos (text_dec owner owner) refl)

  run_partition-IsFree :
      (p : PartitionStats) (s : Run W)
      → IsFree (locks peek config s.world) p
      → ((run_partition env config me run_id p s).0 ≡ ok tt)
        × ((id : Text)
            → locks peek config (run_partition env config me run_id p s).1.world id
              ≡ locks peek config s.world id)
  run_partition-IsFree p s (some_here, free) =
      let (done, lease, others) = run_partition-EndsWith p s none some_here free in
      (
        done,
        λ id. elim (text_dec (partition_id p) id) [
          | yes e ↦
              ap (locks peek config (run_partition env config me run_id p s).1.world) (sym e)
              ∙ lease
              ∙ ap (text_of env.codec (partition_id p))
                  (give_back-taken (seconds config.lock_timeout_seconds) (env.clock s.world).0)
              ∙ sym free
              ∙ ap (locks peek config s.world) e
          | no n ↦ others id n
        ],
      )

  -- Over a reliable store, with texts that are read back as they were written, and where neither
  -- the rewriting nor the clock touches a lock, a run over partitions that have files and whose
  -- locks are free never raises, whatever becomes of the rewriting, and leaves every lock as it
  -- was: it has released all that it took.
  pub run_partitions-locks :
      (ps : List PartitionStats) (s : Run W)
      → All (IsFree (locks peek config s.world)) ps
      → ((run_partitions env config me run_id ps s).0 ≡ ok tt)
        × ((id : Text)
            → locks peek config (run_partitions env config me run_id ps s).1.world id
              ≡ locks peek config s.world id)
  unfolding run_partitions
  run_partitions-locks [] s h = (refl, λ id. refl)
  run_partitions-locks (p ∷ ps) s h =
      let r = run_partition env config me run_id p s in
      let (done, same) = run_partition-IsFree p s h.0 in
      let (all_done, all_same) =
        run_partitions-locks ps r.1
          (All-IsFree (locks peek config s.world) (locks peek config r.1.world) ps same h.1) in
      rw (pair_ok (run_partition env config me run_id p s) done)
        (all_done, λ id. all_same id ∙ same id)
