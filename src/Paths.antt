-- ===== src/Paths.antt =====
-- src/it/unimib/data/nanofaas/ray_dispatcher/paths.py, and the `posixpath.normpath` that it calls. A
-- message leaves out the quoted path.
pub mod Split
pub mod Normal
pub mod Relative
use ray_dispatcher.Base.{
  ℕ, zero, suc, ◌==◌, Bool, true, false, not, ◌&&◌, ◌||◌, List, [], ◌∷◌, ◌++◌, if◌then◌else◌, null,
  filter, any, Str, codes, slash, str_discrete, holds, mem_str,
}
use ray_dispatcher.Errors.{Exn, path_validation, Result, ok, raise}

-- A character before the first of some parts.
pub push_front : ℕ → List Str → List Str
push_front c [] = (c ∷ []) ∷ []
push_front c (w ∷ ws) = (c ∷ w) ∷ ws

-- `path.split("/")`
unfoldable pub split : Str → List Str
unfolding push_front
split [] = [] ∷ []
split (c ∷ s) = let rest = split s in if c == slash then [] ∷ rest else push_front c rest

-- `"/".join(parts)`
pub join_path : List Str → Str
join_path [] = []
join_path (w ∷ []) = w
join_path (w ∷ v ∷ ws) = w ++ slash ∷ join_path (v ∷ ws)

abbrev pub dot : Str
dot = codes "."

abbrev pub dot_dot : Str
dot_dot = codes ".."

-- A component that `normpath` keeps or looks at: neither empty nor ".".
pub is_component : Str → Bool
is_component w = not (null w || holds (str_discrete w dot))

abbrev pub starts_with : Str → Str → Bool
starts_with [] s = true
starts_with (c ∷ p) [] = false
starts_with (c ∷ p) (d ∷ s) = c == d && starts_with p s

-- What a component does to the components before it, which stand last first.
pub walk_step : Bool → Str → List Str → List Str
walk_step rooted w [] = if not (holds (str_discrete w dot_dot)) || not rooted then w ∷ [] else []
walk_step rooted w (v ∷ vs) =
    if not (holds (str_discrete w dot_dot)) || holds (str_discrete v dot_dot)
    then w ∷ v ∷ vs
    else vs

-- The loop of `normpath` over the components.
pub walk : Bool → List Str → List Str → List Str
unfolding walk_step is_component
walk rooted [] done = done
walk rooted (w ∷ ws) done =
    walk rooted ws (if is_component w then walk_step rooted w done else done)

-- `done` puts the last component first, which this undoes.
pub rev_onto : List Str → List Str → List Str
rev_onto [] acc = acc
rev_onto (w ∷ ws) acc = rev_onto ws (w ∷ acc)

-- The slashes that `normpath` keeps in front: POSIX gives two of them a meaning of their own.
pub initial_slashes : Str → Str
initial_slashes s =
    if starts_with (codes "//") s && not (starts_with (codes "///") s)
    then codes "//"
    else if starts_with (codes "/") s
    then codes "/"
    else []

pub or_dot : Str → Str
or_dot s = if null s then dot else s

-- `posixpath.normpath(path)`
unfoldable pub normpath : Str → Str
unfolding split join_path walk rev_onto initial_slashes or_dot
normpath s =
    let front = initial_slashes s in
    if null s
    then dot
    else or_dot (front ++ join_path (rev_onto (walk (not (null front)) (split s) []) []))

unfoldable pub has_nul : Str → Bool
has_nul s = any (λ c. c == 0) s

unfoldable pub escapes : Str → Bool
escapes s =
    starts_with (codes "/") s || (holds (str_discrete s dot_dot) || starts_with (codes "../") s)

unfoldable pub normalize_relative : Str → Str → Result Str
normalize_relative path field =
    if null path
    then raise (path_validation (field ++ codes " must be a non-empty string"))
    else if has_nul path
    then raise (path_validation (field ++ codes " must not contain NUL bytes"))
    else if starts_with (codes "/") path
    then raise (path_validation (field ++ codes " must be relative, got absolute"))
    else if mem_str dot_dot (split path)
    then raise (path_validation (field ++ codes " must not contain '..'"))
    else let normalized = normpath path in
      if escapes normalized
      then raise (path_validation (field ++ codes " escapes the root"))
      else ok normalized

-- The components of a path that names no parent: what `pathlib` sees of it.
unfoldable pub components : Str → List Str
unfolding split is_component
components s = filter is_component (split s)
