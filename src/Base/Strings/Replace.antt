-- ===== src/Base/Strings/Replace.antt =====
-- `s.replace(old, new)`, and the texts on which replacing there and back is the identity.
use Prim.Native.Nat.{ℕ, zero, suc, ◌-◌}
use mathlib.Core.Path.{◌≡◌, refl, ap, ◌∙◌, sym}
use mathlib.Core.Logic.{inl, inr}
use mathlib.Core.Bool.{true, false}
use mathlib.Core.List.{List, [], ◌∷◌, ◌++◌}
use native.Mathlib.Omega.{arith}
use data_lakehouse.Base.Tests.{◌==◌, if◌then◌else◌, Bool-cases, Option-cases}
use data_lakehouse.Base.Lists.{length, All}
use data_lakehouse.Base.Strings.{codes}
use data_lakehouse.Base.Strings.Affix.{strip_prefix, append_of_strip_prefix, is_some, is_empty}

-- From the left, without overlap: after a match the rest of the match is skipped.
unfoldable pub replace_from : ℕ → List ℕ → List ℕ → List ℕ → List ℕ
unfolding strip_prefix
replace_from skip old new [] = []
replace_from (suc skip) old new (c ∷ s) = replace_from skip old new s
replace_from zero old new (c ∷ s) =
    let rest = replace_from (length old - 1) old new s in
    let rest' = replace_from zero old new s in
    if is_some (strip_prefix old (c ∷ s)) then new ++ rest else c ∷ rest'

unfoldable pub replace : List ℕ → List ℕ → List ℕ → List ℕ
unfolding replace_from
replace old new s = replace_from 0 old new s

abbrev drop : ℕ → List ℕ → List ℕ
drop zero s = s
drop (suc n) [] = []
drop (suc n) (c ∷ s) = drop n s

-- The characters of `Z` and of `+00:00`, the two ways to write the offset of UTC.
abbrev pub offset : List ℕ
offset = codes "+00:00"

abbrev pub zulu : List ℕ
zulu = codes "Z"

abbrev pub IsNotZ : ℕ → Type 0
IsNotZ c = (c == b'Z') ≡ false

tail_of_offset :
    (c : ℕ) (s : List ℕ) → is_some (strip_prefix offset (c ∷ s)) ≡ true → c ∷ s ≡ offset ++ drop 5 s
tail_of_offset c s h = elim (Option-cases (strip_prefix offset (c ∷ s))) [
  | inl e ↦ absurd (cc (ap is_some e, h))
  | inr (rest, e) ↦
      let split = append_of_strip_prefix offset (c ∷ s) rest e in
      split ∙ ap (λ r. offset ++ r) (sym (ap (drop 6) split))
]

zulu-offset_from :
    (skip : ℕ) (s : List ℕ)
    → All IsNotZ s
    → replace_from 0 zulu offset (replace_from skip offset zulu s) ≡ drop skip s
unfolding replace_from
zulu-offset_from zero [] h = refl
zulu-offset_from (suc skip) [] h = refl
zulu-offset_from (suc skip) (c ∷ s) h = zulu-offset_from skip s h.1
zulu-offset_from zero (c ∷ s) h = elim (Bool-cases (is_some (strip_prefix offset (c ∷ s)))) [
  | inl e ↦
      rw (e, replace_from)
        (ap (λ r. offset ++ r) (zulu-offset_from 5 s h.1) ∙ sym (tail_of_offset c s e))
  | inr e ↦ rw (e, replace_from) (ground (arith, zulu-offset_from zero s h.1))
]

-- A text without the letter Z is read back after `+00:00` was written as `Z`.
pub replace-replace : (s : List ℕ) → All IsNotZ s → replace zulu offset (replace offset zulu s) ≡ s
unfolding replace
replace-replace s h = zulu-offset_from 0 s h

pub is_empty-replace : (s : List ℕ) → is_empty s ≡ false → is_empty (replace offset zulu s) ≡ false
unfolding replace
is_empty-replace [] h = h
is_empty-replace (c ∷ s) h = ground arith
