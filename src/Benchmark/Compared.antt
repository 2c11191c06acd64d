-- ===== src/Benchmark/Compared.antt =====
-- src/benchmark/benchmark_queries.py: which two runs `main` compares.
use mathlib.Core.Path.{subst}
use data_lakehouse.Base.{
  ◌≤◌, ◌<◌, ◌≡◌, refl, sym, ◌∙◌, ap, ◌≢◌, Bool, true, false, Option, none, some, List, [], ◌∷◌,
  ◌++◌, Text, codes, text_eq, text_eq-eq, text_eq_refl, text_dec, ℕ_discrete, arith, Bool-cases,
  ◌⊎◌, inl, inr,
}
use data_lakehouse.Errors.{Result, ok}
use data_lakehouse.Benchmark.{
  BenchmarkRun, max_from, has_fewer_files, is_earlier, runs_of_phase, phase_by, resolve_phase,
  find_comparison_pair,
}
use data_lakehouse.Benchmark.Greatest.{
  IsKeyOrder, Among, Among-keep_if, Among_of-keep_if, max_from-IsGreatest,
  has_fewer_files-IsKeyOrder, is_earlier-IsKeyOrder,
}

-- Of the runs of a phase, one whose key no other exceeds.
abbrev pub IsGreatestOf :
    (BenchmarkRun → BenchmarkRun → Bool) → Text → List BenchmarkRun → BenchmarkRun → Type 0
IsGreatestOf less phase runs m =
    Among m runs
    × (m.phase ≡ phase)
    × ((r : BenchmarkRun) → Among r runs → r.phase ≡ phase → less m r ≡ false)

abbrev pub LacksPhase : Text → List BenchmarkRun → Type 0
LacksPhase phase runs = (r : BenchmarkRun) → Among r runs → r.phase ≢ phase

-- What can be found of a phase: no run, or one that is greatest.
data Found (less : BenchmarkRun → BenchmarkRun → Bool) (phase : Text)
    (runs of_phase : List BenchmarkRun) : Type 0 where
  nothing : of_phase ≡ [] → LacksPhase phase runs → Found less phase runs of_phase
  greatest :
      (x : BenchmarkRun) (xs : List BenchmarkRun)
      → of_phase ≡ x ∷ xs
      → IsGreatestOf less phase runs (max_from less x xs)
      → Found less phase runs of_phase

module _ (less : BenchmarkRun → BenchmarkRun → Bool) (laws : IsKeyOrder less) (phase : Text)
    (runs : List BenchmarkRun) where
  of_phase :
      (r : BenchmarkRun) → Among r runs → r.phase ≡ phase → Among r (runs_of_phase phase runs)
  of_phase r t e =
      Among-keep_if (λ r. text_eq r.phase phase) r runs t
        (ap (λ p. text_eq p phase) e ∙ text_eq_refl phase)

  look_at :
      (kept : List BenchmarkRun) → runs_of_phase phase runs ≡ kept → Found less phase runs kept
  look_at [] e = nothing refl (λ r t f. subst (Among r) e (of_phase r t f))
  look_at (x ∷ xs) e =
      let (among, largest) = max_from-IsGreatest less laws x xs in
      let m = max_from less x xs in
      let (member, named) =
        Among_of-keep_if (λ r. text_eq r.phase phase) m runs (subst (Among m) (sym e) among) in
      greatest x xs refl (
        member,
        text_eq-eq m.phase phase named,
        λ r t f. largest r (subst (Among r) e (of_phase r t f)),
      )

  find_phase : Found less phase runs (runs_of_phase phase runs)
  find_phase = look_at (runs_of_phase phase runs) refl

-- The runs that are compared, among all: a run is compared with a "before" run of the most files.
abbrev pub Compared :
    List BenchmarkRun → BenchmarkRun → Option BenchmarkRun × Option BenchmarkRun → Type 0
Compared runs current (none, none) =
    (current.phase ≡ codes "before") × LacksPhase (codes "after") runs
Compared runs current (some b, none) = ⊥
Compared runs current (none, some a) =
    (current.phase ≡ codes "after") × (a ≡ current) × LacksPhase (codes "before") runs
Compared runs current (some b, some a) =
    IsGreatestOf has_fewer_files (codes "before") runs b
    × (((current.phase ≡ codes "after") × (a ≡ current))
        ⊎ ((current.phase ≡ codes "before") × IsGreatestOf is_earlier (codes "after") runs a))

-- A result that is a value with a property.
abbrev pub Returns : {A : Type 0} → (A → Type 0) → Result A → Type 0
Returns {A} P r = (a : A) × (r ≡ ok a) × P a

module _ (runs : List BenchmarkRun) (current : BenchmarkRun) where
  befores : Found has_fewer_files (codes "before") runs (runs_of_phase (codes "before") runs)
  befores = find_phase has_fewer_files has_fewer_files-IsKeyOrder (codes "before") runs

  afters : Found is_earlier (codes "after") runs (runs_of_phase (codes "after") runs)
  afters = find_phase is_earlier is_earlier-IsKeyOrder (codes "after") runs

  is_phase : (phase : Text) → current.phase ≡ phase → text_eq current.phase phase ≡ true
  is_phase phase e = ap (λ p. text_eq p phase) e ∙ text_eq_refl phase

  is_not_after : current.phase ≡ codes "before" → text_eq current.phase (codes "after") ≡ false
  unfolding text_dec ℕ_discrete
  is_not_after e = ap (λ p. text_eq p (codes "after")) e

  after-Compared :
      current.phase ≡ codes "after"
      → Returns (Compared runs current) (find_comparison_pair runs current)
  unfolding find_comparison_pair
  after-Compared e = rw (is_phase (codes "after") e) (elim befores [
    | nothing n lacks ↦ ((none, some current), rw n refl, (e, refl, lacks))
    | greatest x xs n g ↦
        ((some (max_from has_fewer_files x xs), some current), rw n refl, (g, inl (e, refl)))
  ])

  before-Compared :
      Among current runs
      → current.phase ≡ codes "before"
      → Returns (Compared runs current) (find_comparison_pair runs current)
  unfolding find_comparison_pair
  before-Compared t e =
      rw (is_not_after e, is_phase (codes "before") e)
        (elim befores [
          | nothing n lacks ↦ absurd (lacks current t e)
          | greatest y ys m g ↦ elim afters [
            | nothing n lacks ↦ ((none, none), rw n refl, (e, lacks))
            | greatest x xs n h ↦ (
              (some (max_from has_fewer_files y ys), some (max_from is_earlier x xs)),
              rw (n, m) refl,
              (g, inr (e, h)),
            )
          ]
        ])

Among_last : (history : List BenchmarkRun) (run : BenchmarkRun) → Among run (history ++ run ∷ [])
Among_last [] run = inl refl
Among_last (r ∷ rs) run = inr (Among_last rs run)

abbrev pub IsResolved : Text → Type 0
IsResolved phase = (phase ≡ codes "before") ⊎ (phase ≡ codes "after")

compared :
    (history : List BenchmarkRun) (run : BenchmarkRun)
    → IsResolved run.phase
    → Returns (Compared (history ++ run ∷ []) run) (find_comparison_pair (history ++ run ∷ []) run)
compared history run (inl e) = before-Compared (history ++ run ∷ []) run (Among_last history run) e
compared history run (inr e) = after-Compared (history ++ run ∷ []) run e

-- What becomes of a phase that is to be found out.
abbrev pub Judged : List BenchmarkRun → BenchmarkRun → Text → Type 0
Judged history run phase =
    ((phase ≡ codes "after")
      × ((b : BenchmarkRun) × Among b history
          × (b.phase ≡ codes "before")
          × (run.input_file_count < b.input_file_count)))
    ⊎ ((phase ≡ codes "before")
        × ((b : BenchmarkRun)
            → Among b history
            → b.phase ≡ codes "before"
            → b.input_file_count ≤ run.input_file_count))

module _ (history : List BenchmarkRun) (run : BenchmarkRun) where
  more_files :
      (m b : BenchmarkRun)
      → has_fewer_files run m ≡ false
      → has_fewer_files m b ≡ false
      → b.input_file_count ≤ run.input_file_count
  more_files m b h k = ground arith

  phase_by-Judged :
      Returns (Judged history run) (phase_by run (runs_of_phase (codes "before") history))
  phase_by-Judged =
      elim (find_phase has_fewer_files has_fewer_files-IsKeyOrder (codes "before") history) [
        | nothing n lacks ↦ (codes "before", rw n refl, inr (refl, λ b t e. absurd (lacks b t e)))
        | greatest x xs n g ↦
            elim (Bool-cases (has_fewer_files run (max_from has_fewer_files x xs))) [
              | inl h ↦ (
                codes "after",
                rw (n, h) refl,
                inl (refl, (max_from has_fewer_files x xs, g.0, g.1, ground arith)),
              )
              | inr h ↦ (
                codes "before",
                rw (n, h) refl,
                inr (refl, λ b t e. more_files (max_from has_fewer_files x xs) b h (g.2 b t e)),
              )
            ]
      ]

  -- The phase "auto" is taken for "after" exactly if a "before" run of the history has more files
  -- than the run, and for "before" otherwise.
  pub resolve_phase-Judged : Returns (Judged history run) (resolve_phase run (codes "auto") history)
  unfolding resolve_phase text_dec ℕ_discrete
  resolve_phase-Judged = phase_by-Judged

  resolve_phase-IsResolved : (phase : Text) → Returns IsResolved (resolve_phase run phase history)
  unfolding resolve_phase
  resolve_phase-IsResolved phase = elim (Bool-cases (text_eq phase (codes "before"))) [
    | inl b ↦ (phase, rw b refl, inl (text_eq-eq phase (codes "before") b))
    | inr b ↦ elim (Bool-cases (text_eq phase (codes "after"))) [
      | inl a ↦ (phase, rw (b, a) refl, inr (text_eq-eq phase (codes "after") a))
      | inr a ↦
          let (p, e, judged) = phase_by-Judged in
          (p, rw (b, a) e, elim judged [ inl h ↦ inr h.0 | inr h ↦ inl h.0 ])
    ]
  ]

  -- The phase of a run can always be resolved, whatever is asked for, and then the comparison of
  -- the runs so far and this run does not fail. A "before" run of the most files is
  -- compared with this run, if it is an "after" run and there is a "before" run, and with an "after" run of the latest time,
  -- if this run is a "before" run and there is an "after" run. Otherwise nothing is compared.
  pub resolve_phase-Compared :
      (phase : Text)
      → Returns
          (λ p.
            let r = record run { phase = p } in
            Returns (Compared (history ++ r ∷ []) r) (find_comparison_pair (history ++ r ∷ []) r))
          (resolve_phase run phase history)
  resolve_phase-Compared phase =
      let (p, e, resolved) = resolve_phase-IsResolved phase in
      (p, e, compared history (record run { phase = p }) resolved)
