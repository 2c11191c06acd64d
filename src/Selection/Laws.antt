-- ===== src/Selection/Laws.antt =====
-- What `select_partitions` returns, at a given time and with a running clock.
use mathlib.Core.List.{append_assoc, append-nil}
use data_lakehouse.Base.{
  ◌≡◌, refl, ◌∙◌, ap, sym, ◌≢◌, Bool, true, false, not, Option, none, some, List, [], ◌∷◌, ◌++◌,
  map, All, ℤ, arith, Bool-cases, inl, inr, length, keep_if, if◌then◌else◌, ◌+◌,
}
use data_lakehouse.Errors.{ok}
use data_lakehouse.Exec.{by_outcome-ok, bind_inv}
use data_lakehouse.Time.{Datetime, aware}
use data_lakehouse.Scanner.{PartitionStats}
use data_lakehouse.Selection.{
  PartitionSelectionPolicy, PartitionSelectionResult, evaluate_partition, select_loop,
  select_partitions,
}
use data_lakehouse.Selection.Verdict.{
  verdict, is_chosen, selection_result, AllAware, evaluate_files,
}

append_if {ℓ} :
    {A : Type ℓ} (b : Bool) (x : A) (e rest : List A)
    → (if b then e ++ (x ∷ []) else e) ++ rest ≡ e ++ (if b then x ∷ rest else rest)
append_if true x e rest = append_assoc e (x ∷ []) rest
append_if false x e rest = refl

append_unless {ℓ} :
    {A B : Type ℓ} (b : Bool) (f : A → B) (x : A) (s : List B) (rest : List A)
    → (if b then s else s ++ (f x ∷ [])) ++ map f rest
      ≡ s ++ map f (if not b then x ∷ rest else rest)
append_unless true f x s rest = refl
append_unless false f x s rest = append_assoc s (f x ∷ []) (map f rest)

module _ (policy : PartitionSelectionPolicy) (now : ℤ) where
  abbrev pub chosen : PartitionStats → Bool
  chosen p = is_chosen (verdict policy now p)

  abbrev pub rejected : PartitionStats → Bool
  rejected p = not (chosen p)

  abbrev pub with_verdict : PartitionStats → PartitionSelectionResult
  with_verdict p = selection_result policy p (verdict policy now p)

module _ {W : Type 0} (clock : W → ℤ × W) (policy : PartitionSelectionPolicy) (now : ℤ) where
  loop_at :
      (ps eligible : List PartitionStats) (skipped : List PartitionSelectionResult) (w : W)
      → All AllAware ps
      → select_loop clock policy (some (aware now)) ps eligible skipped w ≡ (
        ok (
          eligible ++ keep_if (chosen policy now) ps,
          skipped ++ map (with_verdict policy now) (keep_if (rejected policy now) ps),
        ),
        w,
      )
  unfolding select_loop
  loop_at [] eligible skipped w h =
      λ i. (ok (sym (append-nil eligible) i, sym (append-nil skipped) i), w)
  loop_at (p ∷ ps) eligible skipped w h =
      let b = chosen policy now p in
      by_outcome-ok _ (evaluate_files clock policy now p.event_date p.event_hour p.files w h.0)
      ∙ loop_at ps (if b then eligible ++ (p ∷ []) else eligible)
          (if b then skipped else skipped ++ (with_verdict policy now p ∷ [])) w h.1
      ∙ λ i. (
        ok (
          append_if b p eligible (keep_if (chosen policy now) ps) i,
          append_unless b (with_verdict policy now) p skipped (keep_if (rejected policy now) ps) i,
        ),
        w,
      )

  -- At a given time, with files that carry aware times, the eligible partitions are exactly those
  -- with the verdict to compact them, and the skipped ones are the others, each with the reason of
  -- its verdict; both in the order of the scan. The clock is not read.
  pub select_partitions-verdict :
      (ps : List PartitionStats) (w : W)
      → All AllAware ps
      → select_partitions clock ps policy (some (aware now)) w ≡ (
        ok (
          keep_if (chosen policy now) ps,
          map (with_verdict policy now) (keep_if (rejected policy now) ps),
        ),
        w,
      )
  unfolding select_partitions
  select_partitions-verdict ps w h = loop_at ps [] [] w h

-- `xs` is `ys` and `zs` together, each in its order.
pub data Split {ℓ} {A : Type ℓ} : List A → List A → List A → Type ℓ where
  done : Split [] [] []
  left : {x : A} {xs ys zs : List A} → Split xs ys zs → Split (x ∷ xs) (x ∷ ys) zs
  right : {x : A} {xs ys zs : List A} → Split xs ys zs → Split (x ∷ xs) ys (x ∷ zs)

-- A partition that is passed over is told why.
abbrev pub IsSkipped : PartitionSelectionResult → Type 0
IsSkipped r = (r.eligible ≡ false) × (r.skip_reason ≢ none)

-- The two lists that the loop has added.
record Added (ps es : List PartitionStats) (ss : List PartitionSelectionResult)
    (es' : List PartitionStats) (ss' : List PartitionSelectionResult) : Type 0 where
  new_eligible : List PartitionStats
  new_skipped : List PartitionSelectionResult
  eligible_eq : es' ≡ es ++ new_eligible
  skipped_eq : ss' ≡ ss ++ new_skipped
  split : Split ps new_eligible (map (λ r. r.stats) new_skipped)
  skipped : All IsSkipped new_skipped

module _ {W : Type 0} (clock : W → ℤ × W) (policy : PartitionSelectionPolicy) where
  evaluate_outcome :
      (p : PartitionStats) (now : Option Datetime) (w : W) (r : PartitionSelectionResult) (w' : W)
      → evaluate_partition clock p policy now w ≡ (ok r, w')
      → (r.stats ≡ p) × (r.eligible ≡ is_chosen r.skip_reason)
  unfolding evaluate_partition
  evaluate_outcome p now w r w' h = ground arith

  loop-Added :
      (now : Option Datetime) (ps es : List PartitionStats) (ss : List PartitionSelectionResult)
      (w : W) (es' : List PartitionStats) (ss' : List PartitionSelectionResult) (w' : W)
      → select_loop clock policy now ps es ss w ≡ (ok (es', ss'), w')
      → Added ps es ss es' ss'
  unfolding select_loop
  loop-Added now [] es ss w es' ss' w' h = record {
    new_eligible = [];
    new_skipped = [];
    eligible_eq = cc (append-nil es);
    skipped_eq = cc (append-nil ss);
    split = done;
    skipped = tt;
  }
  loop-Added now (p ∷ ps) es ss w es' ss' w' h =
      let (r, w1, e, rest) = bind_inv (evaluate_partition clock p policy now w) h in
      let (stats, chosen_r) = evaluate_outcome p now w r w1 e in
      elim (Bool-cases r.eligible) [
        | inl yes_r ↦
            let a = loop-Added now ps (es ++ (p ∷ [])) ss w1 es' ss' w' (rw yes_r at rest) in
            record {
              new_eligible = p ∷ a.new_eligible;
              new_skipped = a.new_skipped;
              eligible_eq = a.eligible_eq ∙ append_assoc es (p ∷ []) a.new_eligible;
              skipped_eq = a.skipped_eq;
              split = left a.split;
              skipped = a.skipped;
            }
        | inr no_r ↦
            let a = loop-Added now ps es (ss ++ (r ∷ [])) w1 es' ss' w' (rw no_r at rest) in
            record {
              new_eligible = a.new_eligible;
              new_skipped = r ∷ a.new_skipped;
              eligible_eq = a.eligible_eq;
              skipped_eq = a.skipped_eq ∙ append_assoc ss (r ∷ []) a.new_skipped;
              split = rw stats (right a.split);
              skipped = ((no_r, λ n. cc (chosen_r, no_r, ap is_chosen n)), a.skipped);
            }
      ]

  -- Whatever the clock shows, a selection that returns has put every partition of the scan into
  -- exactly one of the two lists, in the order of the scan, and a reason to each that is skipped.
  pub select_partitions-Split :
      (ps : List PartitionStats) (now : Option Datetime) (w : W) (es : List PartitionStats)
      (ss : List PartitionSelectionResult) (w' : W)
      → select_partitions clock ps policy now w ≡ (ok (es, ss), w')
      → Split ps es (map (λ r. r.stats) ss) × All IsSkipped ss
  unfolding select_partitions
  select_partitions-Split ps now w es ss w' h =
      let a = loop-Added now ps [] [] w es ss w' h in
      rw (a.eligible_eq, a.skipped_eq) (a.split, a.skipped)

-- A split loses nothing.
pub length-Split {ℓ} :
    {A : Type ℓ} {xs ys zs : List A} → Split xs ys zs → length xs ≡ length ys + length zs
length-Split done = omega arith
length-Split (left s) = omega (arith, length-Split s)
length-Split (right s) = omega (arith, length-Split s)
