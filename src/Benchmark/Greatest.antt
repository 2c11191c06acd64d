-- ===== src/Benchmark/Greatest.antt =====
-- src/benchmark/benchmark_queries.py: what `max` with a key finds.
use data_lakehouse.Base.{
  ◌≡◌, refl, sym, ◌∙◌, ap, Bool, true, false, List, [], ◌∷◌, if◌then◌else◌, keep_if, arith,
  Bool-cases, ◌⊎◌, inl, inr, Text,
}
use data_lakehouse.Scanner.Order.{text_lt, text_lt_irrefl, text_lt_trans, text_lt-total}
use data_lakehouse.Benchmark.{max_from, has_fewer_files, is_earlier}

-- The laws of a test whether one value has a smaller key than another.
pub record IsKeyOrder {A : Type 0} (less : A → A → Bool) : Type 0 where
  pub irreflexive : (x : A) → less x x ≡ false
  pub asymmetric : (x y : A) → less x y ≡ true → less y x ≡ false
  pub at_least : (x y z : A) → less x y ≡ false → less y z ≡ false → less x z ≡ false

module _ {A : Type 0} where
  abbrev pub Among : A → List A → Type 0
  Among x [] = ⊥
  Among x (y ∷ ys) = (x ≡ y) ⊎ Among x ys

  -- A member with a key that no member exceeds.
  abbrev pub IsGreatest : (A → A → Bool) → A → List A → Type 0
  IsGreatest less m xs = Among m xs × ((y : A) → Among y xs → less m y ≡ false)

  pub Among-keep_if :
      (p : A → Bool) (x : A) (xs : List A) → Among x xs → p x ≡ true → Among x (keep_if p xs)
  Among-keep_if p x [] t h = absurd t
  Among-keep_if p x (y ∷ ys) (inl e) h = rw (ap p (sym e), h) (inl e)
  Among-keep_if p x (y ∷ ys) (inr t) h = elim (Bool-cases (p y)) [
    | inl b ↦ rw b (inr (Among-keep_if p x ys t h))
    | inr b ↦ rw b (Among-keep_if p x ys t h)
  ]

  Among_of-kept :
      (p : A → Bool) (x y : A) (ys : List A) (b : Bool)
      → p y ≡ b
      → (Among x (keep_if p ys) → Among x ys × (p x ≡ true))
      → Among x (if b then y ∷ keep_if p ys else keep_if p ys)
      → Among x (y ∷ ys) × (p x ≡ true)
  Among_of-kept p x y ys true e rest (inl f) = (inl f, ap p f ∙ e)
  Among_of-kept p x y ys true e rest (inr u) = (inr (rest u).0, (rest u).1)
  Among_of-kept p x y ys false e rest u = (inr (rest u).0, (rest u).1)

  pub Among_of-keep_if :
      (p : A → Bool) (x : A) (xs : List A) → Among x (keep_if p xs) → Among x xs × (p x ≡ true)
  Among_of-keep_if p x [] t = absurd t
  Among_of-keep_if p x (y ∷ ys) t = Among_of-kept p x y ys (p y) refl (Among_of-keep_if p x ys) t

  module _ (less : A → A → Bool) (laws : IsKeyOrder less) where
    -- One value more, given what comes of the value that is kept.
    kept_IsGreatest :
        (kept x : A) (xs : List A) (b : Bool)
        → less kept x ≡ b
        → ((k : A) → IsGreatest less (max_from less k xs) (k ∷ xs))
        → IsGreatest less (max_from less (if b then x else kept) xs) (kept ∷ x ∷ xs)
    kept_IsGreatest kept x xs true e rest =
        let (among, greatest) = rest x in
        let m = max_from less x xs in
        (
          inr among,
          λ y t. elim t [
            | inl f ↦
                ap (less m) f
                ∙ laws.at_least m x kept (greatest x (inl refl)) (laws.asymmetric kept x e)
            | inr u ↦ greatest y u
          ],
        )
    kept_IsGreatest kept x xs false e rest =
        let (among, greatest) = rest kept in
        let m = max_from less kept xs in
        (
          elim among [ inl f ↦ inl f | inr u ↦ inr (inr u) ],
          λ y t. elim t [
            | inl f ↦ greatest y (inl f)
            | inr u ↦ elim u [
              | inl f ↦ ap (less m) f ∙ laws.at_least m kept x (greatest kept (inl refl)) e
              | inr v ↦ greatest y (inr v)
            ]
          ],
        )

    pub max_from-IsGreatest :
        (kept : A) (xs : List A) → IsGreatest less (max_from less kept xs) (kept ∷ xs)
    max_from-IsGreatest kept [] = (
      inl refl,
      λ y t. elim t [ inl f ↦ ap (less kept) f ∙ laws.irreflexive kept | inr u ↦ absurd u ],
    )
    max_from-IsGreatest kept (x ∷ xs) =
        kept_IsGreatest kept x xs (less kept x) refl (λ k. max_from-IsGreatest k xs)

pub has_fewer_files-IsKeyOrder : IsKeyOrder has_fewer_files
has_fewer_files-IsKeyOrder = record {
  irreflexive = λ x. ground arith;
  asymmetric = λ x y h. ground arith;
  at_least = λ x y z h k. ground arith;
}

text_lt-at_least : (s t u : Text) → text_lt s t ≡ false → text_lt t u ≡ false → text_lt s u ≡ false
text_lt-at_least s t u h k = elim (Bool-cases (text_lt s u)) [
  | inl b ↦ elim (Bool-cases (text_lt t s)) [
    | inl c ↦ absurd (cc (text_lt_trans t s u c b, k))
    | inr c ↦ absurd (cc (text_lt-total s t h c, b, k))
  ]
  | inr b ↦ b
]

text_lt_asymmetric : (s t : Text) → text_lt s t ≡ true → text_lt t s ≡ false
text_lt_asymmetric s t h = elim (Bool-cases (text_lt t s)) [
  | inl b ↦ absurd (cc (text_lt_trans s t s h b, text_lt_irrefl s))
  | inr b ↦ b
]

pub is_earlier-IsKeyOrder : IsKeyOrder is_earlier
is_earlier-IsKeyOrder = record {
  irreflexive = λ x. text_lt_irrefl x.timestamp;
  asymmetric = λ x y h. text_lt_asymmetric x.timestamp y.timestamp h;
  at_least = λ x y z h k. text_lt-at_least x.timestamp y.timestamp z.timestamp h k;
}
