-- ===== src/Retry.antt =====
-- The job orchestration of src/it/unimib/data/nanofaas/ray_dispatcher/scheduling.py:
-- `should_retry`, `assemble_job_result`, `_failed_attempt` and `run_job`.
pub mod Rule
pub mod Bounds
pub mod Identity
pub mod Leases
use ray_dispatcher.Base.{
  ℕ, zero, suc, ◌+◌, ltb, Bool, true, false, not, ◌&&◌, ◌||◌, holds, length, Option, none, some,
  List, [], ◌∷◌, ◌++◌, if◌then◌else◌, Str, codes, ◌/s◌, mem_str,
}
use ray_dispatcher.Values.{
  JobStatus, succeeded, failed, cancelled, status_discrete, FailureKind, ssh, host_lost, internal,
  kind_discrete, RetryPolicy, Job, AttemptResult, JobResult,
}
use ray_dispatcher.Errors.{
  Exn, no_healthy_hosts, lease_lost, transport_error, keyboard_interrupt, cleanup_timed_out,
  cleanup_interrupted, is_dispatcher_error, message, Result, ok, raise, Action, pure, throw, catch,
  finally, ◌>>=◌, ◌>>◌, and_then,
}
use ray_dispatcher.Layout.{run_paths, pid}
use ray_dispatcher.Runtime.{HostRuntime}
use ray_dispatcher.Pool.{Lease, add_str}

pub mem_kind : FailureKind → List FailureKind → Bool
mem_kind k [] = false
mem_kind k (j ∷ js) = holds (kind_discrete j k) || mem_kind k js

pub should_retry : RetryPolicy → Option FailureKind → ℕ → Bool
unfolding mem_kind
should_retry policy none completed = false
should_retry policy (some kind) completed =
    if not (mem_kind kind policy.retry_on) then false else ltb completed policy.max_attempts

abbrev pub sum_duration : List AttemptResult → ℕ
sum_duration [] = 0
sum_duration (a ∷ rest) = a.duration_s + sum_duration rest

abbrev pub has_succeeded : JobStatus → Bool
has_succeeded succeeded = true
has_succeeded _ = false

-- `assemble_job_result(job_id, batch_id, before + [final], outputs_dir=…)`: the source takes the
-- last of a list that is never empty.
pub assemble_job_result : Str → Str → List AttemptResult → AttemptResult → Str → JobResult
assemble_job_result job_id batch_id before final outputs_dir = record {
  id = job_id;
  batch_id = batch_id;
  status = final.status;
  returncode = final.returncode;
  duration_s = sum_duration (before ++ final ∷ []);
  host = some final.host;
  output_dir = if has_succeeded final.status then some outputs_dir else none;
  attempts = before ++ final ∷ [];
  error = final.error;
}

-- A list without its last entry, and that entry.
abbrev pub unsnoc {ℓ} : {A : Type ℓ} → List A → Option (List A × A)
unsnoc [] = none
unsnoc (x ∷ xs) = elim (unsnoc xs) [ none ↦ some ([], x) | some (ys, y) ↦ some (x ∷ ys, y) ]

-- What `run_job` calls, over a state `W` of the rest of the system: the lease handle, the runtime
-- lookup, one attempt on a host, and the file system of the results.
pub record Outside (W : Type 0) : Type 0 where
  pub acquire : Str → List Str → Action W Lease
  pub release : Str → Action W (Unit {0})
  pub register_pid : Str → Str → Action W (Unit {0})
  pub quarantine : Str → Action W (Unit {0})
  pub runtime_for : Str → Action W HostRuntime
  -- `execute_attempt(transport_for(host), runtime, job, attempt=n, …)`
  pub execute : Str → HostRuntime → ℕ → Action W AttemptResult
  -- `local.attempt_dir(n).mkdir(…)` and `write_attempt_json(…)`
  pub make_attempt_dir : ℕ → Action W (Unit {0})
  pub write_attempt_json : ℕ → AttemptResult → Action W (Unit {0})

-- What `run_job` did, newest first: a lease granted with the hosts excluded, a release, a quarantine.
pub data Deed : Type 0 where
  leased : Lease → List Str → Deed
  released : Str → Deed
  quarantined : Str → Deed

pub record Traced (W : Type 0) : Type 0 where
  pub world : W
  pub deeds : List Deed

-- What `run_job` ends with. `spent` stands for a loop that is still running when its rounds are up.
pub data Outcome : Type 0 where
  returned : JobResult → Outcome
  raised : Exn → Outcome
  spent : Outcome

module _ {W : Type 0} (out : Outside W) (job : Job) (batch_id : Str)
    (stdout_log stderr_log : ℕ → Str) (outputs_dir : Str) (policy : RetryPolicy) where
  abbrev pub S : Type 0
  S = Traced W

  -- A call outside that is no deed.
  abbrev pub call : {A : Type 0} → Action W A → Action S A
  call act s = let (r, w) = act s.world in (r, record s { world = w })

  note : Deed → Action S (Unit {0})
  note d s = (ok tt, record s { deeds = d ∷ s.deeds })

  pub acquire : List Str → Action S Lease
  unfolding note
  acquire exclude = do
    l ← call (out.acquire (batch_id /s job.id) exclude)
    note (leased l exclude)
    pure l

  pub release : Str → Action S (Unit {0})
  unfolding note
  release token = do note (released token); call (out.release token)

  pub quarantine : Str → Action S (Unit {0})
  unfolding note
  quarantine host = do note (quarantined host); call (out.quarantine host)

  -- `_failed_attempt(n, host, kind, error, local)`
  abbrev pub failure : ℕ → Str → Option FailureKind → JobStatus → Str → AttemptResult
  failure n host kind status error = record {
    number = n;
    host = host;
    status = status;
    returncode = none;
    duration_s = 0;
    stdout_log = stdout_log n;
    stderr_log = stderr_log n;
    failure_kind = kind;
    error = some error;
  }

  pub failed_attempt : ℕ → Str → FailureKind → Str → Action S AttemptResult
  failed_attempt n host kind error = do
    let result = failure n host (some kind) failed error
    call (out.make_attempt_dir n)
    call (out.write_attempt_json n result)
    pure result

  -- The attempt of a job that was cancelled.
  pub cancelled_attempt : ℕ → Str → Action S AttemptResult
  unfolding failed_attempt
  cancelled_attempt n host = do
    r ← failed_attempt n host internal (codes "cancelled")
    let result = record r { status = cancelled; failure_kind = none }
    call (out.write_attempt_json n result)
    pure result

  -- What interrupted the attempt, when the cleanup after it was not confirmed either.
  pub interrupted_attempt : ℕ → Str → Exn → Action S AttemptResult
  unfolding failed_attempt cancelled_attempt
  interrupted_attempt n host (lease_lost m) = failed_attempt n host host_lost m
  interrupted_attempt n host (transport_error m rc) = failed_attempt n host ssh m
  interrupted_attempt n host keyboard_interrupt = cancelled_attempt n host
  interrupted_attempt n host e =
      if is_dispatcher_error e then failed_attempt n host internal (message e) else throw e

  -- The `except` clauses.
  pub handle : ℕ → Str → Exn → Action S AttemptResult
  unfolding quarantine failed_attempt cancelled_attempt interrupted_attempt
  handle n host (cleanup_timed_out result) = do quarantine host; pure result
  handle n host (cleanup_interrupted e) = do quarantine host; interrupted_attempt n host e
  handle n host (lease_lost m) = do quarantine host; failed_attempt n host host_lost m
  handle n host keyboard_interrupt = cancelled_attempt n host
  handle n host (transport_error m rc) = failed_attempt n host ssh m
  handle n host e =
      if is_dispatcher_error e then failed_attempt n host internal (message e) else throw e

  -- The body of the `try`.
  pub attempt : ℕ → Lease → Action S AttemptResult
  attempt n l = do
    runtime ← call (out.runtime_for l.host)
    call (out.register_pid l.token (pid (run_paths runtime.layout batch_id job.id n)))
    call (out.execute l.host runtime n)

  -- One leased attempt: `try`, `except` and `finally`.
  pub leased_attempt : ℕ → Lease → Action S AttemptResult
  unfolding attempt handle release
  leased_attempt n l = finally (catch (attempt n l) (handle n l.host)) (release l.token)

  -- The result when no healthy host is left after some attempts.
  pub no_hosts_result : List AttemptResult → AttemptResult → Str → JobResult
  unfolding assemble_job_result
  no_hosts_result before final error =
      record (assemble_job_result job.id batch_id before final outputs_dir) {
        status = failed;
        output_dir = none;
        error = some error;
      }

  -- `acquire` raised: with attempts made, NoHealthyHostsError ends the job.
  pub no_lease : List AttemptResult → Exn → Outcome
  unfolding no_hosts_result
  no_lease attempts (no_healthy_hosts m) = elim (unsnoc attempts) [
    | none ↦ raised (no_healthy_hosts m)
    | some (before, final) ↦ returned (no_hosts_result before final m)
  ]
  no_lease attempts e = raised e

  -- The test of the `break` at the end of the loop.
  pub stops : AttemptResult → ℕ → Bool
  unfolding should_retry
  stops result completed =
      has_succeeded result.status || not (should_retry policy result.failure_kind completed)

  -- The loop as it goes on, from the attempts, the hosts tried and the state.
  abbrev pub Loop : Type 0
  Loop = List AttemptResult → List Str → S → Outcome × S

  -- A round from the end of its attempt.
  pub after_attempt :
      Loop → List AttemptResult → List Str → Lease → Result AttemptResult × S → Outcome × S
  unfolding stops assemble_job_result add_str
  after_attempt more attempts tried l (raise e, s) = (raised e, s)
  after_attempt more attempts tried l (ok result, s) = elim (stops result (length attempts + 1)) [
    | true ↦ (returned (assemble_job_result job.id batch_id attempts result outputs_dir), s)
    | false ↦ more (attempts ++ result ∷ []) (add_str l.host tried) s
  ]

  -- A round from the answer of `acquire`.
  pub after_lease : Loop → List AttemptResult → List Str → Result Lease × S → Outcome × S
  unfolding leased_attempt no_lease after_attempt
  after_lease more attempts tried (raise e, s) = (no_lease attempts e, s)
  after_lease more attempts tried (ok l, s) =
      after_attempt more attempts tried l (leased_attempt (length attempts + 1) l s)

  -- The `while True`, with the number of rounds it may still make.
  pub run_from : ℕ → Loop
  unfolding acquire after_lease
  run_from zero attempts tried s = (spent, s)
  run_from (suc rounds) attempts tried s =
      after_lease (run_from rounds) attempts tried (acquire tried s)

  -- `run_job`: it makes at most `max_attempts` rounds.
  pub run_job : W → Outcome × S
  unfolding run_from
  run_job w = run_from policy.max_attempts [] [] (record { world = w; deeds = [] })
