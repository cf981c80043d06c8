-- ===== src/Base/Spaces.antt =====
-- `str.strip()` and `str.split()`.
use Prim.Native.Nat.{ℕ}
use mathlib.Core.Bool.{Bool, ◌&&◌, ◌||◌}
use mathlib.Core.List.{List, [], ◌∷◌, reverse}
use ray_dispatcher.Base.Tests.{leb, ◌==◌, if◌then◌else◌}
use ray_dispatcher.Base.Text.{Str}

within : ℕ → ℕ → ℕ → Bool
within lo hi c = leb lo c && leb c hi

-- `c.isspace()`
pub is_space : ℕ → Bool
unfolding within
is_space c =
    within 9 13 c
    || (within 28 32 c
        || (c == 133
            || (c == 160
                || (c == 5760
                    || (within 8192 8202 c
                        || (within 8232 8233 c || (c == 8239 || (c == 8287 || c == 12288))))))))

lstrip : Str → Str
lstrip [] = []
lstrip (c ∷ s) = if is_space c then lstrip s else c ∷ s

unfoldable pub strip : Str → Str
unfolding lstrip is_space
strip s = reverse (lstrip (reverse (lstrip s)))

-- A word before the others, unless it is empty.
keep_word : Str → List Str → List Str
keep_word [] ws = ws
keep_word (c ∷ w) ws = (c ∷ w) ∷ ws

-- The word at the start of a text, empty at a space, and the words after it.
pieces : Str → Str × List Str
unfolding keep_word is_space
pieces [] = ([], [])
pieces (c ∷ s) = let (w, ws) = pieces s in if is_space c then ([], keep_word w ws) else (c ∷ w, ws)

-- `s.split()`
unfoldable pub split : Str → List Str
unfolding keep_word pieces
split s = let (w, ws) = pieces s in keep_word w ws
