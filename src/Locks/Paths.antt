-- ===== src/Locks/Paths.antt =====
-- `pathlib.Path` on POSIX, as the manager's local locks use it: a path is split at slashes, and empty
-- parts and dots are dropped. The special root of exactly two slashes is left out.
pub mod Parts
use data_lakehouse.Base.{
  ℕ, ◌==◌, Bool, true, false, ◌&&◌, not, List, [], ◌∷◌, ◌++◌, Text, codes, text_eq, if◌then◌else◌,
  keep_if,
}
use data_lakehouse.Base.Strings.Affix.{is_empty}
use data_lakehouse.Config.{slash}

pub record FilePath : Type 0 where
  pub is_absolute : Bool
  pub parts : List Text

abbrev pub grow : ℕ → List Text → List Text
grow c [] = (c ∷ []) ∷ []
grow c (t ∷ ts) = (c ∷ t) ∷ ts

-- `s.split("/")`
unfoldable pub split : Text → List Text
split [] = [] ∷ []
split (c ∷ s) = let rest = split s in if c == slash then [] ∷ rest else grow c rest

abbrev pub is_plain : Text → Bool
is_plain part = not (is_empty part) && not (text_eq part (codes "."))

abbrev pub starts_absolute : Text → Bool
starts_absolute [] = false
starts_absolute (c ∷ s) = c == slash

unfoldable pub parts_of : Text → List Text
unfolding split
parts_of s = keep_if is_plain (split s)

-- `Path(s)`
abbrev pub path : Text → FilePath
path s = record { is_absolute = starts_absolute s; parts = parts_of s }

-- `p / s`
abbrev pub child : FilePath → Text → FilePath
child p s =
    if starts_absolute s
    then path s
    else record { is_absolute = p.is_absolute; parts = p.parts ++ parts_of s }

-- The loop of `p = p / s` over the segments.
abbrev pub descend : FilePath → List Text → FilePath
descend p [] = p
descend p (s ∷ ss) = descend (child p s) ss

-- `"/".join(parts)`
abbrev pub join : List Text → Text
join [] = []
join (p ∷ []) = p
join (p ∷ q ∷ ps) = p ++ slash ∷ join (q ∷ ps)

-- `str(p)`
abbrev pub to_text : FilePath → Text
to_text p =
    if p.is_absolute
    then slash ∷ join p.parts
    else if is_empty p.parts
    then codes "."
    else join p.parts
