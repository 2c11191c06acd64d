-- ===== src/Base/Strings/Space.antt =====
-- `str.strip()` without an argument.
use Prim.Native.Nat.{ℕ}
use mathlib.Core.Bool.{Bool, ◌||◌, ◌&&◌}
use mathlib.Core.List.{List, [], ◌∷◌}
use data_lakehouse.Base.Tests.{leb, ◌==◌, if◌then◌else◌}
use data_lakehouse.Base.Strings.Affix.{is_empty}

-- `c.isspace()`: the white space of Unicode, as Python knows it.
unfoldable pub is_space : ℕ → Bool
is_space c =
    (leb 9 c && leb c 13)
    || (leb 28 c && leb c 32)
    || c == 133
    || c == 160
    || c == 5760
    || (leb 8192 c && leb c 8202)
    || c == 8232
    || c == 8233
    || c == 8239
    || c == 8287
    || c == 12288

unfoldable pub lstrip : List ℕ → List ℕ
unfolding is_space
lstrip [] = []
lstrip (c ∷ s) = let rest = lstrip s in if is_space c then rest else c ∷ s

unfoldable pub rstrip_space : List ℕ → List ℕ
unfolding is_space
rstrip_space [] = []
rstrip_space (c ∷ s) =
    let rest = rstrip_space s in if is_space c && is_empty rest then [] else c ∷ rest

-- `s.strip()`
unfoldable pub strip : List ℕ → List ℕ
unfolding lstrip rstrip_space
strip s = lstrip (rstrip_space s)
