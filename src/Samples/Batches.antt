-- ===== src/Samples/Batches.antt =====
-- A dispatcher over a backend of one host whose jobs end at once.
use ray_dispatcher.Base.{
  Bool, if◌then◌else◌, leb, ◌&&◌, holds, ℕ, zero, suc, ◌-◌, ◌≡◌, refl, true, false, none, some, [],
  ◌∷◌, arith, Str, codes, str_discrete,
}
use ray_dispatcher.Values.{Job, JobHandle, JobResult, succeeded, running}
use ray_dispatcher.Errors.{dispatcher_error, model_validation, ok, raise}
use ray_dispatcher.Dispatcher.{
  Backend, Dispatcher, is_terminal, submit_each, submit, run, as_completed, teardown,
}
use ray_dispatcher.Dispatcher.Submission.{Submits, submit_each-Submits}
use ray_dispatcher.Dispatcher.Duplicates.{submit-refuses}
use ray_dispatcher.Dispatcher.Results.{Answers, run-Answers}
use ray_dispatcher.Dispatcher.Polling.{Finishes, Resolves, as_completed-Resolves}
use ray_dispatcher.Dispatcher.Closing.{Closed, teardown-Closed}

abbrev result_of : JobHandle → JobResult
result_of h = record {
  id = h.job_id;
  batch_id = h.batch_id;
  status = succeeded;
  returncode = none;
  duration_s = 1;
  host = none;
  output_dir = none;
  attempts = [];
  error = none;
}

-- Its state is the number of pauses before the jobs are done.
abbrev backend : Backend ℕ
backend = record {
  setup = λ force n. (ok [], n);
  submit = λ batch job n. (ok (record { batch_id = batch; job_id = job.id; token = codes "t" }), n);
  status = λ h n. (ok (elim n [ zero ↦ succeeded | suc k ↦ running ]), n);
  cancel = λ h n. (ok tt, n);
  resolve = λ h n. (ok (result_of h), n);
  teardown = λ purge n. (ok tt, n);
  new_batch_id = λ n. (ok (codes "b1"), n);
  claim = λ b n. (ok true, n);
  sleep = λ n. (ok tt, n - 1);
}

abbrev job : Str → Job
job name = record {
  id = name;
  command = codes "true" ∷ [];
  inputs = [];
  outputs = [];
  env = [];
  timeout_s = none;
  cwd = codes ".";
}

abbrev handle : Str → JobHandle
handle name = record { batch_id = codes "b1"; job_id = name; token = codes "t" }

abbrev idle : Dispatcher ℕ
idle = record { setup_done = true; setup_report = some []; outstanding = []; world = 1; calls = [] }

abbrev busy : Dispatcher ℕ
busy = record {
  setup_done = true;
  setup_report = some [];
  outstanding = handle (codes "j1") ∷ [];
  world = 1;
  calls = [];
}

submit_each-Submits_example :
    Submits backend true true
      (codes "b1")
      (job (codes "j1") ∷ job (codes "j2") ∷ [])
      idle
      (submit_each backend true true (codes "b1") (job (codes "j1") ∷ job (codes "j2") ∷ []) idle)
submit_each-Submits_example =
    submit_each-Submits backend true true (codes "b1") (job (codes "j1") ∷ job (codes "j2") ∷ [])
      idle

submit-refuses_example :
    submit backend true true (job (codes "j1") ∷ job (codes "j2") ∷ job (codes "j1") ∷ []) none idle
    ≡ (raise (model_validation (codes "duplicate job id(s) in batch")), idle)
submit-refuses_example =
    submit-refuses backend true true (job (codes "j1") ∷ job (codes "j2") ∷ job (codes "j1") ∷ [])
      none idle (codes "j1") [] (codes "j2" ∷ []) [] refl

-- A backend that raises on a handle that it did not give, and once its state is above 5.
abbrev knows : JobHandle → ℕ → Bool
knows h n = holds (str_discrete h.token (codes "t")) && leb n 5

abbrev strict : Backend ℕ
strict = record backend {
  status = λ h n.
      if knows h n then backend.status h n else (raise (dispatcher_error (codes "unknown job")), n);
  resolve = λ h n.
      if knows h n
      then backend.resolve h n
      else (raise (dispatcher_error (codes "unknown job")), n);
}

abbrev Given : JobHandle → Type 0
Given h = h.token ≡ codes "t"

knows-given : (h : JobHandle) (n : ℕ) → Given h → leb n 5 ≡ true → knows h n ≡ true
knows-given h n k g = ground arith

ends_at_zero : (n : ℕ) → n ≡ 0 → is_terminal (elim n [ zero ↦ succeeded | suc k ↦ running ]) ≡ true
ends_at_zero zero e = refl
ends_at_zero (suc n) e = ground arith

finishes : Finishes strict (λ n. n) Given (λ n. leb n 5 ≡ true)
finishes = record {
  tells = λ h n k g. (
    elim n [ zero ↦ succeeded | suc k ↦ running ],
    n,
    rw (knows-given h n k g) refl,
    omega arith,
    ends_at_zero n,
    g,
  );
  resolves = λ h n k g. (result_of h, n, rw (knows-given h n k g) refl, omega arith, refl, g);
  waits = λ n g. (n - 1, refl, omega arith, ground arith);
}

as_completed-Resolves_example :
    Resolves strict true true
      (λ n. n)
      Given
      (λ n. leb n 5 ≡ true)
      finishes
      (handle (codes "j1") ∷ [])
      (as_completed strict true true 2 (handle (codes "j1") ∷ []) idle)
as_completed-Resolves_example =
    as_completed-Resolves strict true true (λ n. n) Given (λ n. leb n 5 ≡ true) finishes 2
      (handle (codes "j1") ∷ []) idle (refl, tt) refl (omega arith)

run-Answers_example :
    Answers backend true true (job (codes "j1") ∷ []) (result_of (handle (codes "j1")) ∷ [])
unfolding run str_discrete
run-Answers_example =
    run-Answers backend true true 2 (job (codes "j1") ∷ []) none
      (result_of (handle (codes "j1")) ∷ []) idle
      (run backend true true 2 (job (codes "j1") ∷ []) none idle).1 ran
  where
    ran : run backend true true 2 (job (codes "j1") ∷ []) none idle ≡ (
      ok (some (result_of (handle (codes "j1")) ∷ [])),
      (run backend true true 2 (job (codes "j1") ∷ []) none idle).1,
    )
    ran = refl

teardown-Closed_example :
    Closed backend true true false busy (teardown backend true true false busy).1
unfolding teardown
teardown-Closed_example =
    teardown-Closed backend true true false busy (teardown backend true true false busy).1 ended
  where
    ended :
        teardown backend true true false busy ≡ (ok tt, (teardown backend true true false busy).1)
    ended = refl
