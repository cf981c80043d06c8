-- ===== src/Validation.antt =====
-- The checks of `__post_init__` in src/it/unimib/data/nanofaas/ray_dispatcher/models.py. Each takes the
-- object as it is given and returns the one that is built. A field holds a value of its declared
-- type; which characters are decimal digits to `\d` is a parameter. A message names the field.
pub mod Outputs
use ray_dispatcher.Base.{
  ℕ, ltb, leb, ◌==◌, Bool, true, false, not, ◌&&◌, ◌||◌, if◌then◌else◌, null, all, any, holds,
  Option, none, some, List, [], ◌∷◌, map, mem_str, Str, codes, slash, str_discrete, Dict, keys,
}
use ray_dispatcher.Values.{RemoteHost, SecretFile, Project, InputSpec, OutputSpec, Job, RetryPolicy}
use ray_dispatcher.Errors.{Exn, model_validation, Result, ok, raise}
use ray_dispatcher.Names.{is_alnum, is_valid_job_id, is_valid_project_id}
use ray_dispatcher.Paths.{normalize_relative, components, dot, dot_dot, has_nul}

-- The first test that fails gives the exception.
pub checks {ℓ} : {A : Type ℓ} → List (Bool × Str) → A → Result A
checks [] a = ok a
checks ((fine, m) ∷ rest) a = if fine then checks rest a else raise (model_validation m)

abbrev pub then_use {ℓ κ} : {A : Type ℓ} {B : Type κ} → Result A → (A → Result B) → Result B
then_use (ok a) f = f a
then_use (raise e) f = raise e

-- Whether a list of texts has one twice.
pub has_twice : List Str → Bool
has_twice [] = false
has_twice (x ∷ xs) = mem_str x xs || has_twice xs

-- `[A-Za-z_][A-Za-z0-9_]*`
is_env_char : ℕ → Bool
is_env_char c = is_alnum c || c == 95

pub is_env_name : Str → Bool
unfolding is_env_char
is_env_name [] = false
is_env_name (c ∷ s) = is_env_char c && (not (leb 48 c && leb c 57) && all is_env_char s)

pub new_host : RemoteHost → Result RemoteHost
unfolding checks
new_host h =
    checks
      ((not (null h.host), codes "host")
        ∷ (not (null h.user), codes "user")
        ∷ (leb 1 h.slots, codes "slots")
        ∷ (leb 1 h.port && leb h.port 65535, codes "port")
        ∷ [])
      h

-- `Inventory(hosts)`
pub new_inventory : List RemoteHost → Result (List RemoteHost)
unfolding checks has_twice
new_inventory hosts =
    checks
      ((not (null hosts), codes "hosts")
        ∷ (not (has_twice (map (λ (h : RemoteHost). h.host) hosts)), codes "duplicate host name")
        ∷ [])
      hosts

pub new_secret : SecretFile → Result SecretFile
unfolding checks is_env_name
new_secret s =
    checks
      ((not (null s.source), codes "source")
        ∷ (
          not (
              null s.remote_name
              || (any (λ c. c == slash) s.remote_name
                  || (holds (str_discrete s.remote_name dot)
                      || holds (str_discrete s.remote_name dot_dot)))),
          codes "remote_name",
        )
        ∷ ((elim s.env_var [ none ↦ true | some v ↦ is_env_name v ]), codes "env_var")
        ∷ (leb s.mode 511, codes "mode")
        ∷ [])
      s

given : List (Option Str) → List Str
given [] = []
given (none ∷ vs) = given vs
given (some v ∷ vs) = v ∷ given vs

module _ (is_digit : ℕ → Bool) where
  -- A text up to a dot, with what is after it, if its first part is some digits.
  after_digits : Str → Option Str
  after_digits [] = none
  after_digits (c ∷ []) = none
  after_digits (c ∷ d ∷ s) =
      let rest = after_digits (d ∷ s) in
      if is_digit c then (if d == 46 then some s else rest) else none

  -- `\d+\.\d+\.\d+`, the whole text
  pub is_exact_version : Str → Bool
  unfolding after_digits
  is_exact_version s = elim (after_digits s) [
    | none ↦ false
    | some t ↦ elim (after_digits t) [ none ↦ false | some u ↦ not (null u) && all is_digit u ]
  ]

  pub new_project : Project → Result Project
  unfolding checks has_twice is_exact_version given
  new_project p =
      checks
        ((not (null p.path), codes "path")
          ∷ (not (any has_nul p.post_setup), codes "post_setup")
          ∷ (is_valid_project_id p.project_id, codes "project_id")
          ∷ (is_exact_version p.python, codes "python")
          ∷ (is_exact_version p.uv_version, codes "uv_version")
          ∷ (
            not (has_twice (map (λ (s : SecretFile). s.remote_name) p.secrets)),
            codes "duplicate secret remote_name in project",
          )
          ∷ (
            not (has_twice (given (map (λ (s : SecretFile). s.env_var) p.secrets))),
            codes "duplicate secret env_var in project",
          )
          ∷ [])
        p

pub new_input : InputSpec → Result InputSpec
unfolding checks
new_input i = then_use (checks ((not (null i.source), codes "source") ∷ []) i) (λ i.
    then_use (normalize_relative i.destination (codes "input destination"))
      (λ d. ok (record i { destination = d })))

with_destination : OutputSpec → Option Str → Result OutputSpec
with_destination o none = ok o
with_destination o (some d) =
    then_use (normalize_relative d (codes "output destination"))
      (λ d. ok (record o { destination = some d }))

pub new_output : OutputSpec → Result OutputSpec
unfolding with_destination
new_output o =
    then_use (normalize_relative o.source (codes "output source"))
      (λ s. with_destination (record o { source = s }) o.destination)

-- `PurePosixPath(o.destination or o.source).parts`
unfoldable pub parts_of : OutputSpec → List Str
parts_of o = elim o.destination [
  | none ↦ components o.source
  | some d ↦ if null d then components o.source else components d
]

-- `left == right[: len(left)]`
unfoldable pub is_prefix : List Str → List Str → Bool
is_prefix [] ys = true
is_prefix (x ∷ xs) [] = false
is_prefix (x ∷ xs) (y ∷ ys) = holds (str_discrete x y) && is_prefix xs ys

-- The test of the inner loop; two equal paths are prefixes of each other.
pub overlap : List Str → List Str → Bool
unfolding is_prefix
overlap left right = is_prefix left right || is_prefix right left

-- The two loops over the destinations.
pub has_overlap : List (List Str) → Bool
unfolding overlap
has_overlap [] = false
has_overlap (left ∷ rest) = any (overlap left) rest || has_overlap rest

pub job_checks : Job → List (Bool × Str)
unfolding has_overlap parts_of is_env_name
job_checks j =
    (is_valid_job_id j.id, codes "job id")
    ∷ (not (null j.command), codes "command")
    ∷ (not (any has_nul j.command), codes "command")
    ∷ (all is_env_name (keys j.env), codes "env")
    ∷ ((elim j.timeout_s [ none ↦ true | some t ↦ ltb 0 t ]), codes "timeout_s")
    ∷ (not (has_overlap (map parts_of j.outputs)), codes "output destinations must not overlap")
    ∷ []

pub with_cwd : Job → Result Job
with_cwd j = then_use (normalize_relative j.cwd (codes "cwd")) (λ c. ok (record j { cwd = c }))

unfoldable pub new_job : Job → Result Job
unfolding checks job_checks with_cwd
new_job j = then_use (checks (job_checks j) j) with_cwd

pub new_policy : RetryPolicy → Result RetryPolicy
unfolding checks
new_policy p = checks ((leb 1 p.max_attempts, codes "max_attempts") ∷ []) p
