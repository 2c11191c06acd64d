-- ===== src/Streaming/Appended.antt =====
-- src/streaming/spark_streaming_job.py: what a batch appends to the tables, if all goes well and if not.
use mathlib.Core.List.{append-nil}
use data_lakehouse.Base.{
  ◌≡◌, ◌≢◌, refl, ap, sym, ◌∙◌, List, [], ◌++◌, Text, ite, text_dec, if_pos, if_neg,
}
use data_lakehouse.Errors.{Exc, Result, ok, raise}
use data_lakehouse.Exec.{Outcome}
use data_lakehouse.Quality.Report.{Files}
use data_lakehouse.Streaming.Writing.{TableRow, Job, Paths}

-- The rows of a table, and what an append does to them: all rows are added at the end, or none if it raises. The other
-- calls leave the tables.
pub record IsAtomic {W : Type 0} (job : Job W) (files : Files W) (rows : W → Text → List TableRow)
    : Type 0 where
  pub rows-query : (w : W) (q : Text) → rows (job.query w).1 q ≡ rows w q
  pub rows-now : (w : W) (q : Text) → rows (job.now w).1 q ≡ rows w q
  pub rows-make_parent :
      (path : Text) (w : W) (q : Text) → rows (files.make_parent path w).1 q ≡ rows w q
  pub rows-append_text :
      (path t : Text) (w : W) (q : Text) → rows (files.append_text path t w).1 q ≡ rows w q
  pub append_ok :
      (p : Text) (columns : List Text) (new : List TableRow) (w : W)
      → (job.append p columns new w).0 ≡ ok tt
      → (q : Text)
      → rows (job.append p columns new w).1 q ≡ ite (text_dec p q) (rows w q ++ new) (rows w q)
  pub append_raise :
      (p : Text) (columns : List Text) (new : List TableRow) (w : W) (e : Exc)
      → (job.append p columns new w).0 ≡ raise e
      → (q : Text) → rows (job.append p columns new w).1 q ≡ rows w q

module _ {W : Type 0} (rows : W → Text → List TableRow) where
  abbrev pub Same : W → W → Type 0
  Same w w' = (q : Text) → rows w' q ≡ rows w q

  abbrev pub Added : Text → List TableRow → W → W → Type 0
  Added p new w w' = (q : Text) → rows w' q ≡ ite (text_dec p q) (rows w q ++ new) (rows w q)

  pub Same-Outcome :
      {A : Type 0} (w : W) (r : Result A × W) → Same w r.1 → Outcome (λ a. Same w) (Same w) r
  Same-Outcome w (ok a, w') h = h
  Same-Outcome w (raise e, w') h = h

  pub Added-Outcome :
      (p : Text) (new : List TableRow) (w : W) (r : Result (Unit {0}) × W)
      → (r.0 ≡ ok tt → Added p new w r.1)
      → ((e : Exc) → r.0 ≡ raise e → Same w r.1)
      → Outcome (λ a. Added p new w) (Same w) r
  Added-Outcome p new w (ok a, w') added same = added refl
  Added-Outcome p new w (raise e, w') added same = same e refl

  Added-at :
      (p : Text) (new : List TableRow) (w w' : W) → Added p new w w' → rows w' p ≡ rows w p ++ new
  Added-at p new w w' added = added p ∙ if_pos (text_dec p p) refl _ _

  Added-elsewhere :
      (p : Text) (new : List TableRow) (w w' : W) (q : Text)
      → p ≢ q
      → Added p new w w'
      → rows w' q ≡ rows w q
  Added-elsewhere p new w w' q n added = added q ∙ if_neg (text_dec p q) n _ _

  -- The two tables have got some rows each, and all others none.
  pub record After (paths : Paths) (w : W) (es qs : List TableRow) (w' : W) : Type 0 where
    pub events : rows w' paths.delta_path ≡ rows w paths.delta_path ++ es
    pub quarantine : rows w' paths.quarantine_path ≡ rows w paths.quarantine_path ++ qs
    pub others :
        (q : Text) → paths.delta_path ≢ q → paths.quarantine_path ≢ q → rows w' q ≡ rows w q

  module _ (paths : Paths) (w : W) where
    pub After-start : After paths w [] [] w
    After-start = record {
      events = sym (append-nil (rows w paths.delta_path));
      quarantine = sym (append-nil (rows w paths.quarantine_path));
      others = λ q d n. refl;
    }

    pub After-Same :
        (es qs : List TableRow) (w1 w2 : W)
        → Same w1 w2
        → After paths w es qs w1
        → After paths w es qs w2
    After-Same es qs w1 w2 same a = record {
      events = same paths.delta_path ∙ a.events;
      quarantine = same paths.quarantine_path ∙ a.quarantine;
      others = λ q d n. same q ∙ a.others q d n;
    }

    pub After-events :
        (qs new : List TableRow) (w1 w2 : W)
        → paths.delta_path ≢ paths.quarantine_path
        → Added paths.delta_path new w1 w2
        → After paths w [] qs w1
        → After paths w new qs w2
    After-events qs new w1 w2 distinct added a = record {
      events =
          Added-at paths.delta_path new w1 w2 added
          ∙ ap (λ xs. xs ++ new) (a.events ∙ append-nil (rows w paths.delta_path));
      quarantine =
          Added-elsewhere paths.delta_path new w1 w2 paths.quarantine_path distinct added
          ∙ a.quarantine;
      others = λ q d n. Added-elsewhere paths.delta_path new w1 w2 q d added ∙ a.others q d n;
    }

    pub After-quarantine :
        (es new : List TableRow) (w1 w2 : W)
        → paths.delta_path ≢ paths.quarantine_path
        → Added paths.quarantine_path new w1 w2
        → After paths w es [] w1
        → After paths w es new w2
    After-quarantine es new w1 w2 distinct added a = record {
      events =
          Added-elsewhere paths.quarantine_path new w1 w2 paths.delta_path (λ e. distinct (sym e))
            added
          ∙ a.events;
      quarantine =
          Added-at paths.quarantine_path new w1 w2 added
          ∙ ap (λ xs. xs ++ new) (a.quarantine ∙ append-nil (rows w paths.quarantine_path));
      others = λ q d n. Added-elsewhere paths.quarantine_path new w1 w2 q n added ∙ a.others q d n;
    }
