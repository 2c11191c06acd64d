-- ===== src/Selection/Verdict.antt =====
-- What the selection decides about a partition, described by its files.
use data_lakehouse.Base.{
  ℕ, ◌≡◌, refl, ◌∙◌, Bool, true, false, ◌&&◌, ◌||◌, Option, none, some, List, [], ◌∷◌, map, All, ℤ,
  ◌-ℤ◌, pos, ltb_ℤ, leb_ℤ, arith, length, if◌then◌else◌, not, ap, ◌==◌, Text,
}
use data_lakehouse.Errors.{ok, ◌>>=◌}
use data_lakehouse.Time.{Datetime, naive, aware, micros, minutes, is_later, latest_from, as_utc}
use data_lakehouse.Scanner.{
  ParquetFileInfo, PartitionStats, is_newer_than_cutoff, file_count, small_files,
}
use data_lakehouse.Selection.{
  SkipReason, too_recent, healthy, PartitionSelectionPolicy, PartitionSelectionResult,
  evaluate_partition,
}

abbrev pub IsAware : ParquetFileInfo → Type 0
IsAware f = f.last_modified ≡ aware (micros f.last_modified)

-- Every file was last written at `bound` or before.
abbrev pub all_by : ℤ → List ParquetFileInfo → Bool
all_by bound [] = true
all_by bound (f ∷ fs) = leb_ℤ (micros f.last_modified) bound && all_by bound fs

-- One round of `max`: the later of two times is by the bound exactly if both are.
leb_ℤ-max :
    (kept t bound : ℤ) (rest : Bool)
    → (leb_ℤ (if ltb_ℤ kept t then t else kept) bound && rest)
      ≡ (leb_ℤ kept bound && (leb_ℤ t bound && rest))
leb_ℤ-max kept t bound rest = ground arith

aware_if : (b : Bool) (s t : ℤ) → (if b then aware s else aware t) ≡ aware (if b then s else t)
aware_if true s t = refl
aware_if false s t = refl

abbrev IsAwareTime : Datetime → Type 0
IsAwareTime d = d ≡ aware (micros d)

latest_from-step :
    (kept : ℤ) (d : Datetime) (ds : List Datetime)
    → IsAwareTime d
    → latest_from (aware kept) (d ∷ ds)
      ≡ latest_from (aware (if ltb_ℤ kept (micros d) then micros d else kept)) ds
unfolding latest_from
latest_from-step kept (naive t) ds h = cc
latest_from-step kept (aware t) ds h = ap (λ d. latest_from d ds) (aware_if (ltb_ℤ kept t) t kept)

-- `max` of aware times exists, and is by a bound exactly if all of them are.
latest_from-aware :
    (kept bound : ℤ) (fs : List ParquetFileInfo)
    → All IsAware fs
    → (m : ℤ) × (latest_from (aware kept) (map (λ f. f.last_modified) fs) ≡ ok (aware m))
      × (leb_ℤ m bound ≡ (leb_ℤ kept bound && all_by bound fs))
latest_from-aware kept bound [] h = (kept, unfold latest_from in refl, ground arith)
latest_from-aware kept bound (f ∷ fs) h =
    let t = micros f.last_modified in
    let (m, e, b) = latest_from-aware (if ltb_ℤ kept t then t else kept) bound fs h.1 in
    (
      m,
      latest_from-step kept f.last_modified (map (λ g. g.last_modified) fs) h.0 ∙ e,
      b ∙ leb_ℤ-max kept t bound (all_by bound fs),
    )

ltb_ℤ-leb_ℤ : (a b : ℤ) → ltb_ℤ a b ≡ not (leb_ℤ b a)
ltb_ℤ-leb_ℤ a b = ground arith

newer-aware :
    (d : Datetime) (fs : List ParquetFileInfo) (cutoff : ℤ)
    → IsAwareTime d
    → All IsAware fs
    → (latest_from d (map (λ g. g.last_modified) fs) >>= λ latest.
        is_later (as_utc latest) (aware cutoff))
      ≡ ok (not (leb_ℤ (micros d) cutoff && all_by cutoff fs))
unfolding is_later
newer-aware (naive t) fs cutoff a h = cc
newer-aware (aware t) fs cutoff a h =
    let (m, e, b) = latest_from-aware t cutoff fs h in
    ap (λ r. r >>= λ latest. is_later (as_utc latest) (aware cutoff)) e
    ∙ ap ok (ltb_ℤ-leb_ℤ cutoff m ∙ ap not b)

-- `now - timedelta(minutes=skip)`
abbrev pub cutoff_of : ℤ → ℤ → ℤ
cutoff_of skip now = now -ℤ minutes skip

-- Among files with aware times one is newer than the cutoff, unless all were last written at the
-- cutoff or before.
is_newer_than_cutoff-aware :
    (f : ParquetFileInfo) (fs : List ParquetFileInfo) (skip now : ℤ)
    → All IsAware (f ∷ fs)
    → is_newer_than_cutoff f fs skip (aware now) ≡ ok (not (all_by (cutoff_of skip now) (f ∷ fs)))
unfolding is_newer_than_cutoff
is_newer_than_cutoff-aware f fs skip now h =
    newer-aware f.last_modified fs (cutoff_of skip now) h.0 h.1

-- Why a partition is not compacted at the time `now`; none if it is. The last test counts files.
pub verdict : PartitionSelectionPolicy → ℤ → PartitionStats → Option SkipReason
verdict policy now stats =
    if file_count stats == 0
    then some SkipReason.empty
    else if not (all_by (cutoff_of policy.partition_age_skip_minutes now) stats.files)
    then some too_recent
    else if ltb_ℤ policy.small_file_count_threshold
          (pos (length (small_files stats policy.small_file_threshold_bytes)))
        || ltb_ℤ policy.partition_file_count_threshold (pos (file_count stats))
    then none
    else some healthy

abbrev pub is_chosen : Option SkipReason → Bool
is_chosen none = true
is_chosen (some r) = false

abbrev pub selection_result :
    PartitionSelectionPolicy → PartitionStats → Option SkipReason → PartitionSelectionResult
selection_result policy stats reason = record {
  stats = stats;
  eligible = is_chosen reason;
  skip_reason = reason;
  small_file_count =
      if file_count stats == 0
      then 0
      else length (small_files stats policy.small_file_threshold_bytes);
}

abbrev pub AllAware : PartitionStats → Type 0
AllAware p = All IsAware p.files

module _ {W : Type 0} (clock : W → ℤ × W) (policy : PartitionSelectionPolicy) (now : ℤ) where
  pub evaluate_files :
      (date : Text) (hour : ℕ) (files : List ParquetFileInfo) (w : W)
      → All IsAware files
      → let stats : PartitionStats = record {
        event_date = date;
        event_hour = hour;
        files = files;
      } in
        evaluate_partition clock stats policy (some (aware now)) w
        ≡ (ok (selection_result policy stats (verdict policy now stats)), w)
  unfolding evaluate_partition verdict
  evaluate_files date hour [] w h = ground arith
  evaluate_files date hour (f ∷ fs) w h =
      ground (arith, is_newer_than_cutoff-aware f fs policy.partition_age_skip_minutes now h)
