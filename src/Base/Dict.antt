-- ===== src/Base/Dict.antt =====
-- Python's `dict`, in the order of insertion, for keys whose equality can be decided.
use mathlib.Core.Path.{◌≡◌, refl}
use mathlib.Core.Logic.{◌≢◌, ite}
use mathlib.Core.Option.{Option, none, some}
use mathlib.Core.List.{List, [], ◌∷◌, map}
use native.Mathlib.Omega.{arith}

abbrev pub Dict {ℓ} : Type ℓ → Type ℓ → Type ℓ
Dict K V = List (K × V)

-- `d.values()`
abbrev pub values {ℓ} : {K V : Type ℓ} → Dict K V → List V
values = map (λ e. e.1)

module _ {ℓ} {K V : Type ℓ} (dec : Discrete K) where
  -- `d.get(k)`
  unfoldable pub get : K → Dict K V → Option V
  get k [] = none
  get k ((j, v) ∷ d) = ite (dec j k) (some v) (get k d)

  -- `d[k] = v`: a key that is there keeps its place.
  unfoldable pub put : K → V → Dict K V → Dict K V
  put k v [] = (k, v) ∷ []
  put k v ((j, w) ∷ d) = ite (dec j k) ((j, v) ∷ d) ((j, w) ∷ put k v d)

  -- No key stands twice.
  abbrev pub NodupKeys : Dict K V → Type ℓ
  NodupKeys [] = Unit
  NodupKeys ((k, _) ∷ d) = (get k d ≡ none) × NodupKeys d

  pub get-put_self : (k : K) (v : V) (d : Dict K V) → get k (put k v d) ≡ some v
  unfolding get put
  get-put_self k v [] = ground arith
  get-put_self k v ((j, w) ∷ d) = ground (arith, get-put_self k v d)

  pub get-put_ne : (k j : K) (v : V) (d : Dict K V) → j ≢ k → get j (put k v d) ≡ get j d
  unfolding get put
  get-put_ne k j v [] h = ground arith
  get-put_ne k j v ((i, w) ∷ d) h = ground (arith, get-put_ne k j v d)

  pub put-NodupKeys : (k : K) (v : V) (d : Dict K V) → NodupKeys d → NodupKeys (put k v d)
  unfolding get put
  put-NodupKeys k v [] u = (refl, tt)
  put-NodupKeys k v ((j, w) ∷ d) u = ground (arith, put-NodupKeys k v d u.1, get-put_ne k j v d)
