-- ===== src/Locks/Exclusion.antt =====
-- What two workers can rely on.
use mathlib.Core.List.{append_cancel_left, append_cancel_right}
use data_lakehouse.Base.{
  ◌≡◌, refl, ◌∙◌, ap, ◌≢◌, Bool, true, false, Option, none, some, [], ◌∷◌, ◌++◌, Text, text_eq-ne,
  codes, ℤ, ◌+ℤ◌, leb_ℤ, arith, +ℤ_parts, -ℤ_parts, Bool-cases, inl, inr,
}
use data_lakehouse.Errors.{Result, ok}
use data_lakehouse.Time.{aware, seconds}
use data_lakehouse.Config.{Config}
use data_lakehouse.Codec
use data_lakehouse.Codec.{Codec}
use data_lakehouse.Storage.{ObjectStore, IsReliable}
use data_lakehouse.Locks.{text_or, lock_file_path}
use data_lakehouse.Locks.Lease.{Lease, is_over, lease_for, take}
use data_lakehouse.Locks.Manager.{LockManager, acquire, release}
use data_lakehouse.Locks.Slot.{text_of}
use data_lakehouse.Locks.Refinement.{Answers, acquire-take}
use data_lakehouse.Locks.Release.{release-give_back}

-- Two partitions have different lock files.
pub lock_file_path-injective :
    (base p q : Text) → lock_file_path base p ≡ lock_file_path base q → p ≡ q
unfolding lock_file_path
lock_file_path-injective base p q e = append_cancel_right p q (codes ".lock") (
    append_cancel_left (codes "/") (p ++ codes ".lock") (q ++ codes ".lock") (
      append_cancel_left _ (codes "/" ++ (p ++ codes ".lock")) (codes "/" ++ (q ++ codes ".lock"))
        e))

-- For its own timeout a lease is over when its time has passed.
is_over-own :
    (owner run : Text) (t start now : ℤ)
    → is_over (lease_for owner run t start) t now ≡ leb_ℤ (start +ℤ t) now
is_over-own owner run t start now = elim (Bool-cases (leb_ℤ (start +ℤ t) now)) [
  | inl e ↦ rw e
  | inr e ↦ rw e (ground (arith, +ℤ_parts start t, -ℤ_parts now start))
]

pub take-refused :
    (l : Lease) (owner run : Text) (timeout now : ℤ)
    → l.owner ≢ owner
    → is_over l timeout now ≡ false
    → take owner run timeout now (some l) ≡ (false, some l)
unfolding take
take-refused l owner run timeout now n live = rw (live, text_eq-ne l.owner owner n)

-- The manager that the daemon makes for a run.
abbrev pub manager : Config → Text → Text → LockManager
manager config owner run = record { config = config; owner_id = owner; run_id = run }

pub text_or_self : (t : Text) → text_or (some t) t ≡ t
text_or_self [] = refl
text_or_self (c ∷ t) = refl

take-second :
    (owner_a owner_b run_a run_b : Text) (t start now : ℤ)
    → owner_a ≢ owner_b
    → (take owner_b run_b t now (take owner_a run_a t start none).1).0 ≡ leb_ℤ (start +ℤ t) now
unfolding take
take-second owner_a owner_b run_a run_b t start now n =
    rw (is_over-own owner_a run_a t start now, text_eq-ne owner_a owner_b n)
      (elim (Bool-cases (leb_ℤ (start +ℤ t) now)) [ inl e ↦ rw e | inr e ↦ rw e ])

take-none : (owner run : Text) (t now : ℤ) → (take owner run t now none).0 ≡ true
unfolding take
take-none owner run t now = refl

module _ {W : Type 0} (clock : W → ℤ × W) (s3 : ObjectStore W) (codec : Codec)
    (peek : W → Text → Text → Option Text) (reliable : IsReliable s3 peek)
    (lawful : Codec.IsLawful codec) (config : Config) (partition_id : Text) where
  abbrev pub acquire_at : Text → Text → ℤ → W → Result Bool × W
  acquire_at owner run now =
      acquire clock s3 codec (manager config owner run) partition_id (some (aware now)) (some run)

  abbrev pub lock_object : W → Text → Option Text
  lock_object w p = peek w config.minio_bucket (lock_file_path config.lock_base_path p)

  acquire_at-take :
      (owner run : Text) (now : ℤ) (o : Option Lease) (w : W)
      → lock_object w partition_id ≡ text_of codec partition_id o
      → Answers codec peek
          (manager config owner run)
          partition_id
          w
          (acquire_at owner run now w)
          (take owner run (seconds config.lock_timeout_seconds) now o)
  acquire_at-take owner run now o w h =
      acquire-take clock s3 codec peek reliable lawful (manager config owner run) partition_id run
        now (text_or_self run) o w h

  -- Over a reliable store, with texts that are read back as they were written, of two workers with
  -- the same settings and different owners, at given times, the first takes the lock of a free
  -- partition, and the second is refused until the timeout has passed since then, and is given the
  -- lock from that moment on.
  pub acquire-acquire :
      (owner_a owner_b run_a run_b : Text) (start now : ℤ) (w : W)
      → owner_a ≢ owner_b
      → lock_object w partition_id ≡ none
      → let first = acquire_at owner_a run_a start w in
        (first.0 ≡ ok true)
        × ((acquire_at owner_b run_b now first.1).0
            ≡ ok (leb_ℤ (start +ℤ seconds config.lock_timeout_seconds) now))
  acquire-acquire owner_a owner_b run_a run_b start now w n free =
      let timeout = seconds config.lock_timeout_seconds in
      let first = acquire_at-take owner_a run_a start none w free in
      let second =
        acquire_at-take owner_b run_b now (take owner_a run_a timeout start none).1
          (acquire_at owner_a run_a start w).1 first.lease_ok in
      (
        first.answer_ok ∙ ap ok (take-none owner_a run_a timeout start),
        second.answer_ok ∙ ap ok (take-second owner_a owner_b run_a run_b timeout start now n),
      )

  -- Over a reliable store, with texts that are read back as they were written, a lock that is
  -- taken or given back, of a partition that has no lock or that of some lease, leaves the lock of
  -- every other partition as it is.
  lock_object-elsewhere :
      (owner run : Text) (now : ℤ) (o : Option Lease) (w : W) (other : Text)
      → lock_object w partition_id ≡ text_of codec partition_id o
      → partition_id ≢ other
      → (lock_object (acquire_at owner run now w).1 other ≡ lock_object w other)
        × (lock_object (release clock s3 codec (manager config owner run) partition_id w).1 other
            ≡ lock_object w other)
  lock_object-elsewhere owner run now o w other h n =
      let apart : lock_file_path config.lock_base_path partition_id
          ≢ lock_file_path config.lock_base_path other =
        λ e. n (lock_file_path-injective config.lock_base_path partition_id other e) in
      (
        (acquire_at-take owner run now o w h).elsewhere _ apart,
        (release-give_back clock s3 codec peek reliable lawful (manager config owner run)
              partition_id o w h).elsewhere
            _ apart,
      )
