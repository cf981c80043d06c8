-- ===== src/Dispatcher/Results.antt =====
-- What `run` returns: the results of the jobs, in their order.
use ray_dispatcher.Base.{
  ℕ, ◌≡◌, refl, subst, inl, inr, Bool, false, not, ◌&&◌, none, some, Option, List, [], ◌∷◌, arith,
  any, map, Str, Bool-cases, Option-cases, Dict, get, get-put,
}
use ray_dispatcher.Values.{Job, JobResult}
use ray_dispatcher.Errors.{Result, ok, raise, and_then, and_then-ok}
use ray_dispatcher.Retry.{has_succeeded}
use ray_dispatcher.Dispatcher.{
  Backend, Dispatcher, by_id, ordered, finish, finished, as_completed, submit, run,
}

-- Every entry is under its own id.
abbrev IsById : Dict JobResult → Type 0
IsById d = (k : Str) (r : JobResult) → get k d ≡ some r → r.id ≡ k

by_id-IsById : (rs : List JobResult) (d : Dict JobResult) → IsById d → IsById (by_id rs d)
unfolding by_id
by_id-IsById [] d v = v
by_id-IsById (r ∷ rs) d v = by_id-IsById rs _ (λ k s e. ground (arith, get-put r.id k r d, v k s))

ordered-ids :
    (d : Dict JobResult) (jobs : List Job) (rs : List JobResult)
    → IsById d
    → ordered d jobs ≡ some rs
    → map (λ (r : JobResult). r.id) rs ≡ map (λ (j : Job). j.id) jobs
unfolding ordered
ordered-ids d [] rs v e = ground arith
ordered-ids d (j ∷ js) rs v e = elim (Option-cases (get j.id d)) [
  | inl q ↦ ground arith
  | inr (r, q) ↦ elim (Option-cases (ordered d js)) [
    | inl p ↦ ground arith
    | inr (ss, p) ↦ ground (arith, ordered-ids d js ss v p, v j.id r q)
  ]
]

module _ {W : Type 0} (backend : Backend W) (raise_on_failure require_all_hosts : Bool) where
  finishes : List Job → List JobResult → Dispatcher W → Result (List JobResult) × Dispatcher W
  finishes = finish backend raise_on_failure require_all_hosts

  -- What a list of results has to do with the jobs.
  pub record Answers (jobs : List Job) (rs : List JobResult) : Type 0 where
    pub ids : map (λ (r : JobResult). r.id) rs ≡ map (λ (j : Job). j.id) jobs
    -- with `raise_on_failure`, all of them succeeded
    pub good :
        (raise_on_failure && any (λ (r : JobResult). not (has_succeeded r.status)) rs) ≡ false

  finish-Answers :
      (jobs : List Job) (rs all : List JobResult) (d e : Dispatcher W)
      → finish backend raise_on_failure require_all_hosts jobs rs d ≡ (ok all, e)
      → Answers jobs all
  unfolding finish
  finish-Answers jobs rs all d e q = elim (Option-cases (ordered (by_id rs []) jobs)) [
    | inl p ↦ ground arith
    | inr (ss, p) ↦
        elim (Bool-cases
          (raise_on_failure && any (λ (r : JobResult). not (has_succeeded r.status)) ss)) [
            | inl bad ↦ ground arith
            | inr fine ↦
                let same : ss ≡ all = ground arith in
                subst (Answers jobs) same (record {
                  ids = ordered-ids (by_id rs []) jobs ss (by_id-IsById rs [] (λ k r z. cc)) p;
                  good = fine;
                })
          ]
  ]

  finished-Answers :
      (jobs : List Job) (o : Option (List JobResult)) (rs : List JobResult) (d e : Dispatcher W)
      → finished backend raise_on_failure require_all_hosts jobs o d ≡ (ok (some rs), e)
      → Answers jobs rs
  unfolding finished
  finished-Answers jobs none rs d e q = ground arith
  finished-Answers jobs (some all) rs d e q =
      ended (finish backend raise_on_failure require_all_hosts jobs all d) refl q
    where
      ended :
          (o : Result (List JobResult) × Dispatcher W)
          → finish backend raise_on_failure require_all_hosts jobs all d ≡ o
          → and_then o (λ z s. (ok (some z), s)) ≡ (ok (some rs), e)
          → Answers jobs rs
      ended (ok z, s) p q = finish-Answers jobs all rs d s (ground arith)
      ended (raise x, s) p q = ground arith

  -- When `run` returns results, they are one for each job, in the order of the jobs and under their
  -- ids; with `raise_on_failure`, every one of them is a success.
  pub run-Answers :
      (passes : ℕ) (jobs : List Job) (batch_id : Option Str) (rs : List JobResult)
      (d e : Dispatcher W)
      → run backend raise_on_failure require_all_hosts passes jobs batch_id d ≡ (ok (some rs), e)
      → Answers jobs rs
  unfolding run
  run-Answers passes jobs batch_id rs d e q =
      let (hs, s, _, p) =
        and_then-ok (submit backend raise_on_failure require_all_hosts jobs batch_id d) _ q in
      let (o, t, _, z) =
        and_then-ok (as_completed backend raise_on_failure require_all_hosts passes hs s) _ p in
      finished-Answers jobs o rs t e z
