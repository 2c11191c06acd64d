-- ===== src/Exec.antt =====
-- Statements with effects: a function of the state that returns or raises, and keeps the state that
-- it has reached in both cases.
use data_lakehouse.Base.{◌≡◌, refl, ap, ◌⊎◌, inl, inr}
use data_lakehouse.Errors.{Exc, Result, ok, raise}

abbrev pub Exec {ℓ} : Type ℓ → Type ℓ → Type ℓ
Exec S A = S → Result A × S

module _ {ℓ} {S A : Type ℓ} where
  abbrev pub pure : A → Exec S A
  pure a s = (ok a, s)

  abbrev pub throw : Exc → Exec S A
  throw e s = (raise e, s)

  -- A computation without effects.
  abbrev pub lift : Result A → Exec S A
  lift r s = (r, s)

  -- A read that neither fails nor writes.
  abbrev pub gets : (S → A) → Exec S A
  gets f s = (ok (f s), s)

module _ {ℓ} {S A B : Type ℓ} where
  -- What follows a statement, by how it ended.
  abbrev pub by_outcome : (A → Exec S B) → (Exc → Exec S B) → Result A × S → Result B × S
  by_outcome f h (ok a, s) = f a s
  by_outcome f h (raise e, s) = h e s

  -- `try: … else: … except: …`
  abbrev pub try_else : Exec S A → (A → Exec S B) → (Exc → Exec S B) → Exec S B
  try_else m f h s = by_outcome f h (m s)

  infixl 5 ◌>>=◌
  abbrev pub ◌>>=◌ : Exec S A → (A → Exec S B) → Exec S B
  ◌>>=◌ m f s = by_outcome f throw (m s)

  infixl 5 ◌>>◌
  abbrev pub ◌>>◌ : Exec S A → Exec S B → Exec S B
  ◌>>◌ m k s = by_outcome (λ _. k) throw (m s)

module _ {ℓ} {S A B : Type ℓ} where
  -- A computation that has ended well goes on with its value.
  pub by_outcome-ok :
      (f : A → Exec S B) {r : Result A × S} {a : A} {s : S}
      → r ≡ (ok a, s)
      → by_outcome f throw r ≡ f a s
  by_outcome-ok f e = ap (by_outcome f throw) e

  -- Two statements have ended well only if both have.
  pub bind_inv :
      {f : A → Exec S B} (r : Result A × S) {b : B} {s' : S}
      → by_outcome f throw r ≡ (ok b, s')
      → (a : A) × (s : S) × (r ≡ (ok a, s)) × (f a s ≡ (ok b, s'))
  bind_inv (ok a, s) h = (a, s, refl, h)
  bind_inv (raise e, s) h = absurd (cc (ap (λ x. x.0) h))

module _ {ℓ} {S A : Type ℓ} where
  pub outcome-cases :
      (r : Result A × S)
      → ((a : A) × (s : S) × (r ≡ (ok a, s))) ⊎ ((e : Exc) × (s : S) × (r ≡ (raise e, s)))
  outcome-cases (ok a, s) = inl (a, s, refl)
  outcome-cases (raise e, s) = inr (e, s, refl)

  -- A statement returns one value.
  pub returned : {a b : A} {s s' : S} → ◌≡◌ {A = Result A × S} (ok a, s) (ok b, s') → a ≡ b
  returned h = cc (ap (λ r. r.0) h)

  pub pair_ok : (r : Result A × S) {a : A} → r.0 ≡ ok a → r ≡ (ok a, r.1)
  pair_ok r h = λ i. (h i, r.1)

-- What holds after a statement: one thing if it has returned, another if it has raised.
module _ {S A : Type 0} where
  abbrev pub Outcome : (A → S → Type 0) → (S → Type 0) → Result A × S → Type 0
  Outcome Q R (ok a, s) = Q a s
  Outcome Q R (raise e, s) = R s

module _ {S A B : Type 0} where
  -- In sequence, what holds after the first statement is enough for what follows.
  pub Outcome-bind :
      {Q : A → S → Type 0} {R : S → Type 0} (Q' : B → S → Type 0) (R' : S → Type 0)
      (f : A → Exec S B) (r : Result A × S)
      → Outcome Q R r
      → ((s : S) → R s → R' s)
      → ((a : A) (s : S) → Q a s → Outcome Q' R' (f a s))
      → Outcome Q' R' (by_outcome f throw r)
  Outcome-bind Q' R' f (ok a, s) h raised next = next a s h
  Outcome-bind Q' R' f (raise e, s) h raised next = raised s h

module _ {S A : Type 0} where
  pub Outcome-map :
      {Q Q' : A → S → Type 0} {R R' : S → Type 0} (r : Result A × S)
      → ((a : A) (s : S) → Q a s → Q' a s)
      → ((s : S) → R s → R' s)
      → Outcome Q R r
      → Outcome Q' R' r
  Outcome-map (ok a, s) f g h = f a s h
  Outcome-map (raise e, s) f g h = g s h
