-- ===== src/Locks/Local/Files.antt =====
-- src/compactor/lock_manager.py: what the manager's reads and writes do to local files.
use mathlib.Core.List.{append_cancel_left, append_cancel_right}
use data_lakehouse.Base.{
  ◌≡◌, refl, sym, ◌∙◌, ap, ap₂, ◌≢◌, false, Option, none, some, List, [], ◌∷◌, Text, codes,
}
use data_lakehouse.Base.Strings.Affix.{is_empty, is_some, rstrip}
use data_lakehouse.Errors.{Result, ok, raise, ◌>>=◌}
use data_lakehouse.Exec
use data_lakehouse.Exec.{by_outcome-ok, pair_ok, lift, pure}
use data_lakehouse.Config.{slash}
use data_lakehouse.Codec
use data_lakehouse.Codec.{Codec}
use data_lakehouse.Locks.{CompactionLock, lock_file_path, to_json, from_json}
use data_lakehouse.Locks.Times.{from_json-to_json}
use data_lakehouse.Locks.Manager.{LockManager}
use data_lakehouse.Locks.Paths.{FilePath, path, join, parts_of}
use data_lakehouse.Locks.Paths.Parts.{suffix_last, join-split}
use data_lakehouse.Locks.Local.{
  Disk, local_path, parent, locate, read_local, write_local, delete_local,
}
use data_lakehouse.Locks.Local.Place.{
  HasPlainSegments, split-parts, place, local_path-lock_file_path,
}

suffix_last-injective : (ps qs : List Text) → suffix_last ps ≡ suffix_last qs → ps ≡ qs
suffix_last-injective [] [] e = refl
suffix_last-injective [] (q ∷ []) e = absurd (cc e)
suffix_last-injective [] (q ∷ r ∷ qs) e = absurd (cc e)
suffix_last-injective (p ∷ []) [] e = absurd (cc e)
suffix_last-injective (p ∷ o ∷ ps) [] e = absurd (cc e)
suffix_last-injective (p ∷ []) (q ∷ []) e =
    ap (λ t. t ∷ []) (append_cancel_right p q (codes ".lock") (cc e))
suffix_last-injective (p ∷ []) (q ∷ r ∷ []) e = absurd (cc e)
suffix_last-injective (p ∷ []) (q ∷ r ∷ s ∷ qs) e = absurd (cc e)
suffix_last-injective (p ∷ o ∷ []) (q ∷ []) e = absurd (cc e)
suffix_last-injective (p ∷ o ∷ n ∷ ps) (q ∷ []) e = absurd (cc e)
suffix_last-injective (p ∷ o ∷ ps) (q ∷ r ∷ qs) e =
    ap₂ ◌∷◌ (cc e) (suffix_last-injective (o ∷ ps) (r ∷ qs) (cc e))

-- Two partitions have different files.
local_path-injective :
    (base s t : Text)
    → HasPlainSegments s
    → HasPlainSegments t
    → local_path base s ≡ local_path base t
    → s ≡ t
local_path-injective base s t h k e =
    let (p, ps, f, first, others) = split-parts s h in
    let (q, qs, g, second, rest) = split-parts t k in
    let parts =
      ap (λ r. r.parts)
        (sym (place base s p ps f first others) ∙ e ∙ place base t q qs g second rest) in
    let same =
      suffix_last-injective (p ∷ ps) (q ∷ qs) (append_cancel_left (parts_of base) _ _ parts) in
    sym (join-split s) ∙ ap join (f ∙ same ∙ sym g) ∙ join-split t

-- Files that are read as they were written, on a disk whose calls reach it.
pub record IsFiling {W : Type 0} (disk : Disk W) (look : W → FilePath → Option Text) : Type 0 where
  pub exists_lem : (p : FilePath) (w : W) → disk.exists p w ≡ (ok (is_some (look w p)), w)
  pub read_text_lem :
      (p : FilePath) (t : Text) (w : W) → look w p ≡ some t → disk.read_text p w ≡ (ok t, w)
  pub write_text_ok : (p : FilePath) (t : Text) (w : W) → (disk.write_text p t w).0 ≡ ok tt
  pub look-write_text :
      (p : FilePath) (t : Text) (w : W) → look (disk.write_text p t w).1 p ≡ some t
  pub write_text_elsewhere :
      (p q : FilePath) (t : Text) (w : W) → p ≢ q → look (disk.write_text p t w).1 q ≡ look w q
  pub remove_ok : (p : FilePath) (w : W) → (disk.remove p w).0 ≡ ok tt
  pub look-remove : (p : FilePath) (w : W) → look (disk.remove p w).1 p ≡ none
  pub remove_elsewhere : (p q : FilePath) (w : W) → p ≢ q → look (disk.remove p w).1 q ≡ look w q
  pub make_directory_ok : (p : FilePath) (w : W) → (disk.make_directory p w).0 ≡ ok tt
  pub look-make_directory : (p q : FilePath) (w : W) → look (disk.make_directory p w).1 q ≡ look w q

module _ {W : Type 0} (disk : Disk W) (codec : Codec) (look : W → FilePath → Option Text)
    (filing : IsFiling disk look) (m : LockManager) where
  -- What a read answers for a file that there is, or not.
  abbrev pub reads : Option Text → Result (Option CompactionLock)
  reads none = ok none
  reads (some t) = do lock ← from_json codec t; ok (some lock)

  abbrev file : Text → FilePath
  file partition_id = local_path m.config.lock_base_path partition_id

  abbrev made : Text → W → W
  made partition_id w = (disk.make_directory (parent (file partition_id)) w).1

  locate-made :
      (partition_id : Text) (w : W)
      → locate disk codec m partition_id w ≡ (ok (file partition_id), made partition_id w)
  unfolding locate
  locate-made partition_id w = rw filing.make_directory_ok refl

  after_text :
      (r : Result CompactionLock) (w : W)
      → (Exec.◌>>=◌ (lift r) (λ lock. pure (some lock)) w).0 ≡ (do lock ← r; ok (some lock))
  after_text (ok lock) w = refl
  after_text (raise e) w = refl

  -- A read after its directory was made.
  reads_at :
      (partition_id : Text) (o : Option Text) (w : W)
      → look (made partition_id w) (file partition_id) ≡ o
      → (read_local disk codec m partition_id w).0 ≡ reads o
  unfolding read_local
  reads_at partition_id none w h =
      rw
        (locate-made partition_id w, filing.exists_lem (file partition_id) (made partition_id w), h)
        refl
  reads_at partition_id (some t) w h =
      rw
        (
          locate-made partition_id w,
          filing.exists_lem (file partition_id) (made partition_id w),
          h,
          filing.read_text_lem (file partition_id) t (made partition_id w) h,
        )
        (after_text (from_json codec t) (made partition_id w))

  read_local-reads :
      (partition_id : Text) (w : W)
      → (read_local disk codec m partition_id w).0 ≡ reads (look w (file partition_id))
  read_local-reads partition_id w =
      reads_at partition_id (look w (file partition_id)) w
        (filing.look-make_directory (parent (file partition_id)) (file partition_id) w)

  abbrev pub storage_file : Text → FilePath
  storage_file partition_id = path (lock_file_path m.config.lock_base_path partition_id)

  abbrev written : CompactionLock → W → W
  written lock w =
      (disk.write_text (file lock.partition_id) (to_json codec lock) (made lock.partition_id w)).1

  write_local-written :
      (lock : CompactionLock) (w : W) → write_local disk codec m lock w ≡ (ok tt, written lock w)
  unfolding write_local
  write_local-written lock w =
      by_outcome-ok _ (locate-made lock.partition_id w) ∙ pair_ok _ (filing.write_text_ok _ _ _)

  look-written :
      (lock : CompactionLock) (q : FilePath) (w : W)
      → file lock.partition_id ≢ q
      → look (written lock w) q ≡ look w q
  look-written lock q w n = filing.write_text_elsewhere _ q _ _ n ∙ filing.look-make_directory _ q w

  module _ (lawful : Codec.IsLawful codec) (partition_id : Text)
      (rooted : is_empty (rstrip slash m.config.lock_base_path) ≡ false)
      (plain : HasPlainSegments partition_id) where
    elsewhere :
        (w w' : W)
        → ((q : FilePath) → file partition_id ≢ q → look w' q ≡ look w q)
        → (other : Text) → HasPlainSegments other
        → partition_id ≢ other
        → (read_local disk codec m other w').0 ≡ (read_local disk codec m other w).0
    elsewhere w w' kept other h n =
        read_local-reads other w'
        ∙ ap reads (
            kept (file other)
              (λ e. n (local_path-injective m.config.lock_base_path partition_id other plain h e)))
        ∙ sym (read_local-reads other w)

    -- On a disk that is read as it was written, with texts that are read back as they were written:
    -- a lock that says when it ends is written to the file that `storage_path` names, and is read
    -- back as it was written. What is read of other partitions is as before. No segment of the
    -- partitions' ids is empty or a dot, and the base path has a character other than a slash.
    pub write_local-read_local :
        (lock : CompactionLock) (w : W)
        → lock.partition_id ≡ partition_id
        → is_empty lock.expires_at ≡ false
        → let r = write_local disk codec m lock w in
          (r.0 ≡ ok tt)
          × (look r.1 (storage_file partition_id) ≡ some (to_json codec lock))
          × ((read_local disk codec m partition_id r.1).0 ≡ ok (some lock))
          × ((other : Text)
              → HasPlainSegments other
              → partition_id ≢ other
              → (read_local disk codec m other r.1).0 ≡ (read_local disk codec m other w).0)
    write_local-read_local lock w e ends =
        let there : look (written lock w) (file partition_id) ≡ some (to_json codec lock) =
          ap (λ p. look (written lock w) (file p)) (sym e) ∙ filing.look-write_text _ _ _ in
        rw (write_local-written lock w) (
          refl,
          ap (look (written lock w))
                (sym (local_path-lock_file_path m.config.lock_base_path partition_id rooted plain))
              ∙ there,
          read_local-reads partition_id (written lock w)
              ∙ ap reads there
              ∙ ap (λ r. do l ← r; ok (some l)) (from_json-to_json codec lawful lock ends),
          elsewhere w (written lock w)
              (λ q n. look-written lock q w (λ f. n (ap file (sym e) ∙ f))),
        )

    removed_at :
        (o : Option Text) (w : W)
        → look (made partition_id w) (file partition_id) ≡ o
        → let r = delete_local disk codec m partition_id w in
          (r.0 ≡ ok tt)
          × (look r.1 (file partition_id) ≡ none)
          × ((q : FilePath) → file partition_id ≢ q → look r.1 q ≡ look w q)
    unfolding delete_local
    removed_at none w h =
        rw
          (
            locate-made partition_id w,
            filing.exists_lem (file partition_id) (made partition_id w),
            h,
          )
          (refl, h, λ q n. filing.look-make_directory _ q w)
    removed_at (some t) w h =
        rw
          (
            locate-made partition_id w,
            filing.exists_lem (file partition_id) (made partition_id w),
            h,
          )
          (
            filing.remove_ok _ _,
            filing.look-remove _ _,
            λ q n. filing.remove_elsewhere _ q _ n ∙ filing.look-make_directory _ q w,
          )

    -- On a disk that is read as it was written, the lock of a partition is deleted, if there is one, and then there is
    -- none. What is read of other partitions is as before.
    delete_local-read_local :
        (w : W)
        → let r = delete_local disk codec m partition_id w in
          (r.0 ≡ ok tt)
          × ((read_local disk codec m partition_id r.1).0 ≡ ok none)
          × ((other : Text)
              → HasPlainSegments other
              → partition_id ≢ other
              → (read_local disk codec m other r.1).0 ≡ (read_local disk codec m other w).0)
    delete_local-read_local w =
        let (fine, gone, kept) =
          removed_at (look (made partition_id w) (file partition_id)) w refl in
        let w' = (delete_local disk codec m partition_id w).1 in
        (fine, read_local-reads partition_id w' ∙ ap reads gone, elsewhere w w' kept)
