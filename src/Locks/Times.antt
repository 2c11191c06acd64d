-- ===== src/Locks/Times.antt =====
-- Locks are read back as they were written.
use data_lakehouse.Base.{◌≡◌, refl, ◌∙◌, ap, sym, true, false, some, [], ◌∷◌, Text}
use data_lakehouse.Base.Dict
use data_lakehouse.Base.{text_dec, ℕ_discrete, codes}
use data_lakehouse.Base.Strings.Affix.{is_empty}
use data_lakehouse.Base.Strings.Replace.{replace-replace, is_empty-replace}
use data_lakehouse.Errors.{ok, ◌>>=◌}
use data_lakehouse.Time.{Datetime, as_utc}
use data_lakehouse.Codec.{Codec, IsLawful}
use data_lakehouse.Locks.{
  CompactionLock, asdict, has_text, lock_of_values, lock_of, parse_iso, to_iso, to_json, from_json,
}

-- The fields of a lock, by their names in the file.
module _ (lock : CompactionLock) where
  fields :
      (Dict.get text_dec (codes "acquired_at") (asdict lock) ≡ some lock.acquired_at)
      × (Dict.get text_dec (codes "expires_at") (asdict lock) ≡ some lock.expires_at)
      × (Dict.get text_dec (codes "partition_id") (asdict lock) ≡ some lock.partition_id)
      × (Dict.get text_dec (codes "owner_id") (asdict lock) ≡ some lock.owner_id)
      × (Dict.get text_dec (codes "run_id") (asdict lock) ≡ some lock.run_id)
  unfolding Dict.get text_dec ℕ_discrete
  fields = (refl, refl, refl, refl, refl)

has_text-some : (t : Text) → is_empty t ≡ false → has_text (some t) ≡ true
has_text-some [] h = sym h
has_text-some (c ∷ t) h = refl

module _ (codec : Codec) (lawful : IsLawful codec) where
  -- A time that was written is read back, as a time of UTC if it was naive.
  pub parse_iso-to_iso : (d : Datetime) → parse_iso codec (to_iso codec d) ≡ ok (as_utc d)
  unfolding parse_iso to_iso
  parse_iso-to_iso d =
      ap (λ s. codec.fromisoformat s >>= λ dt. ok (as_utc dt))
        (replace-replace (codec.isoformat d) (lawful.isoformat-IsNotZ d))
      ∙ ap (λ r. r >>= λ dt. ok (as_utc dt)) (lawful.fromisoformat-isoformat d)

  pub is_empty-to_iso : (d : Datetime) → is_empty (to_iso codec d) ≡ false
  unfolding to_iso
  is_empty-to_iso d = is_empty-replace (codec.isoformat d) (lawful.isoformat-is_empty d)

  lock_of_values-some :
      (lock : CompactionLock)
      → is_empty lock.expires_at ≡ false
      → lock_of_values codec
          (some lock.acquired_at)
          (some lock.expires_at)
          (some lock.partition_id)
          (some lock.owner_id)
          (some lock.run_id)
        ≡ ok lock
  lock_of_values-some lock h = rw (has_text-some lock.expires_at h)

  lock_of-asdict :
      (lock : CompactionLock)
      → is_empty lock.expires_at ≡ false
      → lock_of codec (asdict lock) ≡ ok lock
  lock_of-asdict lock h =
      let (acquired, expires, partition, owner, run) = fields lock in
      (λ i. lock_of_values codec (acquired i) (expires i) (partition i) (owner i) (run i))
      ∙ lock_of_values-some lock h

  -- With texts that are read back as they were written, a lock that says when it ends is read back
  -- as it was written.
  pub from_json-to_json :
      (lock : CompactionLock)
      → is_empty lock.expires_at ≡ false
      → from_json codec (to_json codec lock) ≡ ok lock
  unfolding from_json to_json
  from_json-to_json lock h =
      ap (λ r. r >>= λ d. lock_of codec d) (lawful.loads-dumps (asdict lock))
      ∙ lock_of-asdict lock h
