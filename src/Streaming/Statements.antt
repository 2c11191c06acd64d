-- ===== src/Streaming/Statements.antt =====
-- src/streaming/spark_streaming_job.py: what each statement of a batch does to the tables.
use mathlib.Core.List.{append-nil}
use data_lakehouse.Base.{
  ◌≡◌, refl, ap, sym, ◌∙◌, inl, inr, List, [], ◌∷◌, ◌++◌, Text, ℤ, arith, ltb, Bool-cases, ℕ, map,
  length, ite, text_dec,
}
use data_lakehouse.Exec.{Exec, ◌>>=◌, Outcome, Outcome-bind, Outcome-map}
use data_lakehouse.Codec.{Codec}
use data_lakehouse.Json.{Json}
use data_lakehouse.Quality.Report.{Files, write_quality_metrics}
use data_lakehouse.Streaming.{Functions}
use data_lakehouse.Streaming.Writing.{TableRow, Job, Paths, count, save, if_any, write_metrics}
use data_lakehouse.Streaming.Appended.{IsAtomic, Same, Added, Same-Outcome, Added-Outcome}

length-zero : {A : Type 0} (xs : List A) → length xs ≡ 0 → xs ≡ []
length-zero [] h = refl
length-zero (x ∷ xs) h = absurd (omega (arith, h))

module _ {W : Type 0} (rows : W → Text → List TableRow) (path : Text) where
  Added-from :
      (new : List TableRow) (w s w' : W)
      → Same rows w s
      → Added rows path new s w'
      → Added rows path new w w'
  Added-from new w s w' h added q = added q ∙ ap (λ xs. ite (text_dec path q) (xs ++ new) xs) (h q)

  Added-none : (w : W) → Added rows path [] w w
  Added-none w q = elim (text_dec path q) as (λ d. rows w q ≡ ite d (rows w q ++ []) (rows w q)) [
    | yes p ↦ sym (append-nil (rows w q))
    | no n ↦ refl
  ]

module _ {W : Type 0} (rows : W → Text → List TableRow) where
  -- A statement that leaves all tables, however it ends.
  abbrev Keeps : {A : Type 0} → Exec W A → Type 0
  Keeps m = (w : W) → Outcome (λ a. Same rows w) (Same rows w) (m w)

  Keeps-bind :
      {A B : Type 0} (m : Exec W A) (f : A → Exec W B)
      → Keeps m
      → ((a : A) → Keeps (f a))
      → Keeps (m >>= f)
  Keeps-bind m f hm hf w =
      Outcome-bind _ _ f (m w) (hm w) (λ s h. h)
        (λ a s h. Outcome-map (f a s) (λ b s' h' q. h' q ∙ h q) (λ s' h' q. h' q ∙ h q) (hf a s))

-- A statement that runs one query and appends what it has given leaves all of it, or nothing.
module _ {W : Type 0} (job : Job W) (files : Files W) (spark : Functions) (codec : Codec)
    (json : Json) (paths : Paths) (rows : W → Text → List TableRow)
    (atomic : IsAtomic job files rows) where
  pub count-Outcome :
      {A : Type 0} (df : ℤ → List A) (w : W)
      → Outcome
          (λ n w'. ((t : ℤ) × (n ≡ length (df t))) × Same rows w w')
          (Same rows w)
          (count job files spark codec json paths df w)
  count-Outcome df w =
      Outcome-bind _ _ _ (job.query w) (Same-Outcome rows w (job.query w) (atomic.rows-query w))
        (λ s h. h) (λ t s h. ((t, refl), h))

  save-Outcome :
      {A : Type 0} (row : A → TableRow) (df : ℤ → List A) (columns : List Text) (path : Text)
      (w : W)
      → Outcome
          (λ u w'. (t : ℤ) × Added rows path (map row (df t)) w w')
          (Same rows w)
          (save job files spark codec json paths row df columns path w)
  save-Outcome row df columns path w =
      Outcome-bind _ _ _ (job.query w) (Same-Outcome rows w (job.query w) (atomic.rows-query w))
        (λ s h. h)
        (λ t s h.
          Outcome-map (job.append path columns (map row (df t)) s)
            (λ u w' added. (t, Added-from rows path (map row (df t)) w s w' h added))
            (λ w' same q. same q ∙ h q)
            (Added-Outcome rows path (map row (df t)) s (job.append path columns (map row (df t)) s)
              (atomic.append_ok path columns (map row (df t)) s)
              (atomic.append_raise path columns (map row (df t)) s)))

  -- With nothing to append, nothing is done.
  pub if_any-Outcome :
      {A : Type 0} (n : ℕ) (row : A → TableRow) (df : ℤ → List A) (columns : List Text)
      (path : Text) (t0 : ℤ) (w : W)
      → n ≡ length (df t0)
      → Outcome
          (λ u w'. (t : ℤ) × Added rows path (map row (df t)) w w')
          (Same rows w)
          (if_any job files spark codec json paths n
            (save job files spark codec json paths row df columns path)
            w)
  if_any-Outcome n row df columns path t0 w h = elim (Bool-cases (ltb 0 n)) [
    | inl e ↦ rw e (save-Outcome row df columns path w)
    | inr e ↦ rw e (t0, rw (length-zero (df t0) (sym h ∙ ground arith)) (Added-none rows path w))
  ]

  pub metrics-Outcome :
      (valid_count bad_count batch_id : ℕ)
      → Keeps rows (write_metrics job files spark codec json paths valid_count bad_count batch_id)
  unfolding write_quality_metrics
  metrics-Outcome valid_count bad_count batch_id =
      Keeps-bind rows job.now _ (λ w. Same-Outcome rows w (job.now w) (atomic.rows-now w))
        (λ t.
          Keeps-bind rows (files.make_parent paths.quality_metrics_path) _
            (λ w.
              Same-Outcome rows w (files.make_parent paths.quality_metrics_path w)
                (atomic.rows-make_parent paths.quality_metrics_path w))
            (λ u w. Same-Outcome rows w _ (atomic.rows-append_text paths.quality_metrics_path _ w)))
