-- ===== src/Streaming/Attempt.antt =====
-- src/streaming/spark_streaming_job.py: what a batch leaves in the tables, if all goes well and if not.
use data_lakehouse.Base.{
  ◌≡◌, ◌≢◌, refl, Bool, true, false, Option, List, [], ◌∷◌, Text, ℤ, pos, ℕ, codes, if◌then◌else◌,
  map, length,
}
use data_lakehouse.Base.Strings.Affix.{is_empty}
use data_lakehouse.Exec.{pure, ◌>>=◌, Outcome, Outcome-bind, Outcome-map}
use data_lakehouse.Codec.{Codec}
use data_lakehouse.Json.{Json}
use data_lakehouse.Quality.Report.{Files}
use data_lakehouse.Streaming.{Functions}
use data_lakehouse.Streaming.Batch.{ValidRow, QuarantineRow, classify_batch}
use data_lakehouse.Streaming.Writing.{
  write_valid, write_quarantine, TableRow, event, quarantined, Job, Paths, count, write_metrics,
  process_rows, process_batch,
}
use data_lakehouse.Streaming.Appended.{
  IsAtomic, Same, After, Same-Outcome, After-start, After-Same, After-events, After-quarantine,
}
use data_lakehouse.Streaming.Statements.{count-Outcome, if_any-Outcome, metrics-Outcome}

empty-nil : {A : Type 0} (xs : List A) → is_empty xs ≡ true → xs ≡ []
empty-nil [] h = refl
empty-nil (x ∷ xs) h = absurd (cc h)

module _ {W : Type 0} (job : Job W) (files : Files W) (spark : Functions) (codec : Codec)
    (json : Json) (paths : Paths) (rows : W → Text → List TableRow)
    (atomic : IsAtomic job files rows) where
  -- The rows of the tables from a query at a given time.
  abbrev pub event_rows : List (Option Text) → ℤ → List TableRow
  event_rows batch t = map event (classify_batch spark batch t).0

  abbrev pub rejected_rows : List (Option Text) → ℤ → List TableRow
  rejected_rows batch t = map quarantined (classify_batch spark batch t).1

  -- What an attempt that has raised has left: nothing, all the events, or these and all the rejected rows.
  pub data Partial (batch : List (Option Text)) (w w' : W) : Type 0 where
    nothing : After rows paths w [] [] w' → Partial batch w w'
    only_events : (t : ℤ) → After rows paths w (event_rows batch t) [] w' → Partial batch w w'
    both :
        (t u : ℤ)
        → After rows paths w (event_rows batch t) (rejected_rows batch u) w'
        → Partial batch w w'

  abbrev pub Whole : List (Option Text) → W → W → Type 0
  Whole batch w w' =
      (t : ℤ) × (u : ℤ) × After rows paths w (event_rows batch t) (rejected_rows batch u) w'

  module _ (batch : List (Option Text)) (batch_id : ℕ) (w : W)
      (distinct : paths.delta_path ≢ paths.quarantine_path) where
    metrics-Whole :
        (valid_count bad_count : ℕ) (t u : ℤ) (s : W)
        → After rows paths w (event_rows batch t) (rejected_rows batch u) s
        → Outcome
            (λ a. Whole batch w)
            (Partial batch w)
            (write_metrics job files spark codec json paths valid_count bad_count batch_id s)
    metrics-Whole valid_count bad_count t u s h =
        Outcome-map
          (write_metrics job files spark codec json paths valid_count bad_count batch_id s)
          (λ a s' same. (t, u, After-Same rows paths w _ _ s s' same h))
          (λ s' same. both t u (After-Same rows paths w _ _ s s' same h))
          (metrics-Outcome job files spark codec json paths rows atomic valid_count bad_count
            batch_id s)

    quarantine-Whole :
        (valid_count bad_count : ℕ) (t t0 : ℤ) (s : W)
        → bad_count ≡ length (classify_batch spark batch t0).1
        → After rows paths w (event_rows batch t) [] s
        → Outcome
            (λ a. Whole batch w)
            (Partial batch w)
            (((write_quarantine job files spark codec json paths batch bad_count) >>= (λ a.
                write_metrics job files spark codec json paths valid_count bad_count batch_id))
              s)
    quarantine-Whole valid_count bad_count t t0 s count_eq h =
        let rejected : ℤ → List QuarantineRow = λ t. (classify_batch spark batch t).1 in
        let columns : List Text = codes "quarantine_date" ∷ [] in
        let stored =
          if_any-Outcome job files spark codec json paths rows atomic bad_count quarantined rejected
            columns paths.quarantine_path t0 s count_eq in
        Outcome-bind _ _ _ (write_quarantine job files spark codec json paths batch bad_count s)
          stored (λ s' same. only_events t (After-Same rows paths w _ _ s s' same h))
          (λ a s' found. metrics-Whole valid_count bad_count t found.0 s' (
            After-quarantine rows paths w (event_rows batch t) (rejected_rows batch found.0) s s'
              distinct found.1 h))

    rows-Whole :
        (s : W)
        → Same rows w s
        → Outcome
            (λ a. Whole batch w)
            (Partial batch w)
            (process_rows job files spark codec json paths batch batch_id s)
    unfolding process_rows
    rows-Whole s h =
        let at_start = After-Same rows paths w [] [] w s h (After-start rows paths w) in
        let valid : ℤ → List ValidRow = λ t. (classify_batch spark batch t).0 in
        let rejected : ℤ → List QuarantineRow = λ t. (classify_batch spark batch t).1 in
        Outcome-bind _ _ _ (count job files spark codec json paths valid s)
          (count-Outcome job files spark codec json paths rows atomic valid s)
          (λ s' same. nothing (After-Same rows paths w [] [] s s' same at_start))
          (λ n s1 c1.
            let at_1 = After-Same rows paths w [] [] s s1 c1.1 at_start in
            Outcome-bind _ _ _ (count job files spark codec json paths rejected s1)
              (count-Outcome job files spark codec json paths rows atomic rejected s1)
              (λ s' same. nothing (After-Same rows paths w [] [] s1 s' same at_1))
              (λ m s2 c2.
                let at_2 = After-Same rows paths w [] [] s1 s2 c2.1 at_1 in
                let (t1, eq1) = c1.0 in
                let (t2, eq2) = c2.0 in
                Outcome-bind _ _ _ (write_valid job files spark codec json paths batch n s2)
                  (if_any-Outcome job files spark codec json paths rows atomic n event valid
                    (codes "event_date" ∷ codes "event_hour" ∷ []) paths.delta_path t1 s2 eq1)
                  (λ s' same. nothing (After-Same rows paths w [] [] s2 s' same at_2))
                  (λ a s3 found. quarantine-Whole n m found.0 t2 s3 eq2 (
                    After-events rows paths w [] (event_rows batch found.0) s2 s3 distinct found.1
                      at_2))))

    empty-Whole :
        (b : Bool) (s : W)
        → is_empty batch ≡ b
        → Same rows w s
        → Outcome
            (λ a. Whole batch w)
            (Partial batch w)
            ((if b then pure tt else process_rows job files spark codec json paths batch batch_id)
              s)
    unfolding process_rows classify_batch
    empty-Whole true s e h = (
      pos 0,
      pos 0,
      rw (empty-nil batch e) (After-Same rows paths w [] [] w s h (After-start rows paths w)),
    )
    empty-Whole false s e h = rows-Whole s h

  -- If an append adds all its rows or none, and the tables have different paths, then a batch that goes through has
  -- added its valid events to one table and its rejected ones to the other, each once, and has touched no other
  -- table. A batch that fails has added nothing, or only the valid events, or both.
  pub process_batch-Whole :
      (batch : List (Option Text)) (batch_id : ℕ) (w : W)
      → paths.delta_path ≢ paths.quarantine_path
      → Outcome
          (λ a. Whole batch w)
          (Partial batch w)
          (process_batch job files spark codec json paths batch batch_id w)
  unfolding process_batch
  process_batch-Whole batch batch_id w distinct =
      Outcome-bind _ _ _ (job.query w) (Same-Outcome rows w (job.query w) (atomic.rows-query w))
        (λ s same. nothing (After-Same rows paths w [] [] w s same (After-start rows paths w)))
        (λ t s same. empty-Whole batch batch_id w distinct (is_empty batch) s refl same)
