-- ===== src/Daemon/Kept.antt =====
-- What the rewriting of a partition leaves as it is, given what the calls that it makes leave.
use data_lakehouse.Base.{ℕ, ◌≡◌, Bool, true, false, List, Text, if◌then◌else◌, ℤ}
use data_lakehouse.Errors.{Exc, Result, ok, raise}
use data_lakehouse.Exec.{Exec, throw, by_outcome}
use data_lakehouse.Config.{Config}
use data_lakehouse.Scanner.{PartitionStats}
use data_lakehouse.Scanner.Scan.{Listing, scan_partitions}
use data_lakehouse.Spark.{Spark}
use data_lakehouse.Compactor.{
  validate_partition_has_data, count_partition_files, compact_with_delta_optimize,
  compact_with_zorder_inspired_clustering, rewrite, compact_partition,
}

-- A computation after which `look` shows what it showed before.
abbrev pub Kept : {W V A : Type 0} → (W → V) → Exec W A → Type 0
Kept look m = (v : _) (w : _) → look w ≡ v → look (m w).1 ≡ v

module _ {W V : Type 0} (look : W → V) (v : V) where
  -- A statement that shows `v` at its end, whatever follows it, if both ends do.
  pub by_outcome-look :
      {A B : Type 0} (f : A → Exec W B) (h : Exc → Exec W B) (r : Result A × W)
      → look r.1 ≡ v
      → ((a : A) (w : W) → look w ≡ v → look (f a w).1 ≡ v)
      → ((e : Exc) (w : W) → look w ≡ v → look (h e w).1 ≡ v)
      → look (by_outcome f h r).1 ≡ v
  by_outcome-look f h (ok a, w) hr hf hh = hf a w hr
  by_outcome-look f h (raise e, w) hr hf hh = hh e w hr

  pub bind-look :
      {A B : Type 0} (f : A → Exec W B) (r : Result A × W)
      → look r.1 ≡ v
      → ((a : A) (w : W) → look w ≡ v → look (f a w).1 ≡ v)
      → look (by_outcome f throw r).1 ≡ v
  bind-look f r hr hf = by_outcome-look f throw r hr hf (λ e w h. h)

  pub if-look :
      {A : Type 0} (b : Bool) (m n : Exec W A) (w : W)
      → look (m w).1 ≡ v
      → look (n w).1 ≡ v
      → look ((if b then m else n) w).1 ≡ v
  if-look true m n w hm hn = hm
  if-look false m n w hm hn = hn

-- The calls of the rewriting leave what `look` shows.
pub record Leaves {W V : Type 0} (look : W → V) (timer : W → ℤ × W) (listing : Listing W)
    (spark : Spark W) : Type 0 where
  pub timer_kept : (v : V) (w : W) → look w ≡ v → look (timer w).1 ≡ v
  pub paginate_kept : (b p : Text) → Kept look (listing.paginate b p)
  pub sql_kept : (q : Text) → Kept look (spark.sql q)
  pub reads_nothing_kept : (p c : Text) → Kept look (spark.reads_nothing p c)
  pub overwrite_kept : (p c : Text) (n : ℕ) (cs : List Text) → Kept look (spark.overwrite p c n cs)

module _ {W V : Type 0} (look : W → V) (v : V) (timer : W → ℤ × W) (listing : Listing W)
    (spark : Spark W) (leaves : Leaves look timer listing spark) (config : Config)
    (stats : PartitionStats) where
  count_partition_files-look :
      (w : W) → look w ≡ v → look (count_partition_files timer listing spark config stats w).1 ≡ v
  unfolding count_partition_files scan_partitions
  count_partition_files-look w h = search (bind-look look v, leaves.paginate_kept, h)

  optimize-look :
      (w : W)
      → look w ≡ v
      → look (compact_with_delta_optimize timer listing spark config stats w).1 ≡ v
  unfolding compact_with_delta_optimize
  optimize-look w h =
      search (bind-look look v, leaves.sql_kept, leaves.timer_kept, count_partition_files-look, h)

  clustering-look :
      (w : W)
      → look w ≡ v
      → look (compact_with_zorder_inspired_clustering timer listing spark config stats w).1 ≡ v
  unfolding compact_with_zorder_inspired_clustering
  clustering-look w h =
      search
        (
          bind-look look v,
          if-look look v,
          leaves.reads_nothing_kept,
          leaves.overwrite_kept,
          leaves.timer_kept,
          count_partition_files-look,
          h,
        )
        depth 12

  rewrite-look : (w : W) → look w ≡ v → look (rewrite timer listing spark config stats w).1 ≡ v
  unfolding rewrite
  rewrite-look w h =
      search (by_outcome-look look v, if-look look v, optimize-look, clustering-look, h)

  -- The rewriting of a partition leaves whatever its calls leave.
  pub compact_partition-look :
      (w : W) → look w ≡ v → look (compact_partition timer listing spark config stats w).1 ≡ v
  unfolding compact_partition validate_partition_has_data
  compact_partition-look w h =
      search (bind-look look v, by_outcome-look look v, if-look look v, rewrite-look, h)
