-- ===== src/Locks/Histories.antt =====
-- What other workers can do while a lease runs.
use data_lakehouse.Base.{
  ◌≡◌, refl, ◌∙◌, ap, ◌≢◌, Bool, false, Option, some, List, [], ◌∷◌, Text, text_eq-ne, ℤ,
}
use data_lakehouse.Errors.{Result, ok}
use data_lakehouse.Time.{aware, seconds}
use data_lakehouse.Config.{Config}
use data_lakehouse.Codec
use data_lakehouse.Codec.{Codec}
use data_lakehouse.Storage.{ObjectStore, IsReliable}
use data_lakehouse.Locks.{lock_file_path}
use data_lakehouse.Locks.Lease.{Lease, is_over, give_back}
use data_lakehouse.Locks.Manager.{acquire, release}
use data_lakehouse.Locks.Slot.{text_of}
use data_lakehouse.Locks.Refinement.{acquire-take}
use data_lakehouse.Locks.Release.{release-give_back}
use data_lakehouse.Locks.Exclusion.{manager, text_or_self, take-refused}

-- A call of the manager for the lock of a partition: by whom, for which run, and when.
pub data Call : Type 0 where
  acquiring : Text → Text → ℤ → Call
  releasing : Text → Call

-- A call of somebody else than the lease's owner, and if it asks for the lock, while the lease runs.
abbrev pub IsIntrusion : Config → Lease → Call → Type 0
IsIntrusion config l (acquiring owner run now) =
    (l.owner ≢ owner) × (is_over l (seconds config.lock_timeout_seconds) now ≡ false)
IsIntrusion config l (releasing owner) = l.owner ≢ owner

abbrev pub AllIntrusions : Config → Lease → List Call → Type 0
AllIntrusions config l [] = Unit
AllIntrusions config l (c ∷ cs) = IsIntrusion config l c × AllIntrusions config l cs

give_back-kept : (l : Lease) (owner : Text) → l.owner ≢ owner → give_back owner (some l) ≡ some l
unfolding give_back
give_back-kept l owner n = rw (text_eq-ne l.owner owner n)

module _ {W : Type 0} (clock : W → ℤ × W) (s3 : ObjectStore W) (codec : Codec) (config : Config)
    (partition_id : Text) where
  -- The answer of a call, which for `release` is of no account, and the world after it.
  abbrev pub call : Call → W → Result Bool × W
  call (acquiring owner run now) w =
      acquire clock s3 codec (manager config owner run) partition_id (some (aware now)) (some run) w
  call (releasing owner) w =
      (ok false, (release clock s3 codec (manager config owner []) partition_id w).1)

  abbrev pub after : List Call → W → W
  after [] w = w
  after (c ∷ cs) w = after cs (call c w).1

  -- Nobody is given the lock, one call after the other.
  abbrev pub AllRefused : List Call → W → Type 0
  AllRefused [] w = Unit
  AllRefused (c ∷ cs) w = ((call c w).0 ≡ ok false) × AllRefused cs (call c w).1

  module _ (peek : W → Text → Text → Option Text) (reliable : IsReliable s3 peek)
      (lawful : Codec.IsLawful codec) where
    -- The lock of the partition holds the lease.
    abbrev pub Holds : Lease → W → Type 0
    Holds l w =
        peek w config.minio_bucket (lock_file_path config.lock_base_path partition_id)
        ≡ text_of codec partition_id (some l)

    call-refused :
        (l : Lease) (c : Call) (w : W)
        → Holds l w
        → IsIntrusion config l c
        → ((call c w).0 ≡ ok false) × Holds l (call c w).1
    call-refused l (acquiring owner run now) w h i =
        let timeout = seconds config.lock_timeout_seconds in
        let a =
          acquire-take clock s3 codec peek reliable lawful (manager config owner run) partition_id
            run now (text_or_self run) (some l) w h in
        let refused = take-refused l owner run timeout now i.0 i.1 in
        (
          a.answer_ok ∙ ap (λ r. ok r.0) refused,
          a.lease_ok ∙ ap (λ r. text_of codec partition_id r.1) refused,
        )
    call-refused l (releasing owner) w h i =
        let a =
          release-give_back clock s3 codec peek reliable lawful (manager config owner [])
            partition_id (some l) w h in
        (refl, a.lease_ok ∙ ap (text_of codec partition_id) (give_back-kept l owner i))

    -- Over a reliable store, with texts that are read back as they were written, and at given
    -- times: whatever others call while a lease runs, and in whatever order, nobody is given the
    -- lock, and it holds the lease at the end.
    pub after-Holds :
        (l : Lease) (cs : List Call) (w : W)
        → Holds l w
        → AllIntrusions config l cs
        → AllRefused cs w × Holds l (after cs w)
    after-Holds l [] w h i = (tt, h)
    after-Holds l (c ∷ cs) w h i =
        let (refused, held) = call-refused l c w h i.0 in
        let (all, last) = after-Holds l cs (call c w).1 held i.1 in ((refused, all), last)
