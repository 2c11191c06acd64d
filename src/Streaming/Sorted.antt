-- ===== src/Streaming/Sorted.antt =====
-- src/streaming/spark_streaming_job.py: every value of a batch goes to one table.
use data_lakehouse.Base.{
  ◌≡◌, ◌≢◌, refl, ap, ◌∙◌, inl, inr, Bool, true, not, Option, none, List, [], ◌∷◌, Text, map, All,
  keep_if, ℤ, Option-cases, length, length-map, arith, ◌+◌,
}
use data_lakehouse.Quality.{Reason}
use data_lakehouse.Selection.Laws.{Split, done, left, right, length-Split}
use data_lakehouse.Streaming.{Functions, null_through, is_null, rejection_reason_column}
use data_lakehouse.Streaming.Batch.{
  ValidRow, QuarantineRow, is_rejected, parse, valid_row, quarantine_row, classify_batch,
}

keep_if-yes :
    {A : Type 0} (p : A → Bool) (x : A) (xs : List A)
    → p x ≡ true
    → keep_if p (x ∷ xs) ≡ x ∷ keep_if p xs
keep_if-yes p x xs h = rw h refl

module _ (spark : Functions) where
  -- What the chain says of a value of the batch.
  abbrev pub reason_of : Option Text → Option Reason
  reason_of value = rejection_reason_column spark (null_through spark.from_json value)

  abbrev pub IsGood : Option Text → Type 0
  IsGood value = reason_of value ≡ none

  abbrev pub IsBad : Option Text → Type 0
  IsBad value = reason_of value ≢ none

  -- The values of a batch, in order, are those without a reason and those with one; the tables' rows are made of
  -- them.
  pub record Classified (now : ℤ) (batch : List (Option Text))
      (rows : List ValidRow × List QuarantineRow) : Type 0 where
    pub good : List (Option Text)
    pub bad : List (Option Text)
    pub split : Split batch good bad
    pub all_good : All IsGood good
    pub all_bad : All IsBad bad
    pub valid_rows : rows.0 ≡ map (λ v. valid_row spark (parse spark now v)) good
    pub quarantine_rows : rows.1 ≡ map (λ v. quarantine_row spark (parse spark now v)) bad

  each-Classified :
      (batch : List (Option Text)) (now : ℤ) → Classified now batch (classify_batch spark batch now)
  unfolding classify_batch
  each-Classified [] now = record {
    good = [];
    bad = [];
    split = done;
    all_good = tt;
    all_bad = tt;
    valid_rows = refl;
    quarantine_rows = refl;
  }
  each-Classified (v ∷ batch) now =
      let c = each-Classified batch now in
      elim (Option-cases (reason_of v)) [
        | inl e ↦ record {
          good = v ∷ c.good;
          bad = c.bad;
          split = left c.split;
          all_good = (e, c.all_good);
          all_bad = c.all_bad;
          valid_rows = rw e (ap (λ rs. valid_row spark (parse spark now v) ∷ rs) c.valid_rows);
          quarantine_rows = rw e c.quarantine_rows;
        }
        | inr (reason, e) ↦ record {
          good = c.good;
          bad = v ∷ c.bad;
          split = right c.split;
          all_good = c.all_good;
          all_bad = ((λ n. cc (e, n)), c.all_bad);
          valid_rows = rw e c.valid_rows;
          quarantine_rows =
              ap (map (quarantine_row spark)) (
                keep_if-yes is_rejected (parse spark now v) (map (parse spark now) batch)
                  (ap (λ o. not (is_null o)) e))
              ∙ ap (λ rs. quarantine_row spark (parse spark now v) ∷ rs) c.quarantine_rows;
        }
      ]

  -- Every value of a batch gives a row to exactly one of the two tables, in order: to the table of events if the
  -- chain has no reason, and else to the quarantine. Together the tables get as many rows as the batch has values.
  pub classify_batch-Classified :
      (batch : List (Option Text)) (now : ℤ)
      → Classified now batch (classify_batch spark batch now)
        × (length (classify_batch spark batch now).0 + length (classify_batch spark batch now).1
            ≡ length batch)
  classify_batch-Classified batch now =
      let c = each-Classified batch now in
      (
        c,
        rw (c.valid_rows, c.quarantine_rows)
            (omega (
              arith,
              length-Split c.split,
              length-map (λ v. valid_row spark (parse spark now v)) c.good,
              length-map (λ v. quarantine_row spark (parse spark now v)) c.bad,
            )),
      )
