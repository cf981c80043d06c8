-- ===== src/Names.antt =====
-- The identifiers of src/it/unimib/data/nanofaas/ray_dispatcher/models.py.
use ray_dispatcher.Base.{ℕ, leb, ◌==◌, Bool, false, ◌&&◌, ◌||◌, [], ◌∷◌, all, length, Str}

-- `[A-Za-z0-9]`
abbrev pub is_alnum : ℕ → Bool
is_alnum c = (leb 48 c && leb c 57) || ((leb 65 c && leb c 90) || (leb 97 c && leb c 122))

-- `[A-Za-z0-9._-]`
abbrev pub is_name_char : ℕ → Bool
is_name_char c = is_alnum c || (c == 46 || (c == 95 || c == 45))

-- `[A-Za-z0-9][A-Za-z0-9._-]{0,n}`, the whole text
pub is_name : ℕ → Str → Bool
is_name n [] = false
is_name n (c ∷ s) = is_alnum c && (all is_name_char s && leb (length s) n)

unfoldable pub is_valid_job_id : Str → Bool
unfolding is_name
is_valid_job_id s = is_name 127 s

pub is_valid_project_id : Str → Bool
unfolding is_name
is_valid_project_id s = is_name 63 s
