-- ===== src/RayBackend.antt =====
-- SshRayBackend of src/it/unimib/data/nanofaas/ray_dispatcher/backends/ssh_ray.py: its state, its job
-- table and the loss of a session. Ray is a parameter. The session-loss callback is a call of
-- `on_session_lost` between two operations.
pub mod Sweep
pub mod Setup
pub mod Teardown
pub mod Loss
pub mod Task
pub mod Held
use ray_dispatcher.Base.{
  ℕ, Bool, true, false, not, ◌==◌, ◌||◌, if◌then◌else◌, null, holds, filter, Option, none, some,
  List, [], ◌∷◌, ◌++◌, map, mem_str, Str, codes, ◌/s◌, str_discrete, slash, strip, Dict, get, put,
}
use ray_dispatcher.Values.{
  RemoteHost, Project, Job, JobHandle, JobResult, JobStatus, running, cancelled,
  HostProvisioningResult,
}
use ray_dispatcher.Errors.{
  Exn, dispatcher_error, session_lock_lost, task_cancelled, other, Result, ok, raise, Action, pure,
  throw, catch, caught, and_then, ◌>>=◌, ◌>>◌,
}
use ray_dispatcher.Layout.{remote_layout}
use ray_dispatcher.Runtime.{HostRuntime, secret_env_map}
use ray_dispatcher.Transport.{CommandResult, Transport, default}
use ray_dispatcher.Processes.{Clock}
use ray_dispatcher.Provisioning.Inventory.{Outcome, raise_if_session_lost}

-- Ray, with the tasks and the lease actor that it runs, and the local files. A reference to a task is
-- a number. The calls of the actor take a timeout, if there is one.
pub record Cluster (W : Type 0) : Type 0 where
  pub is_initialized : Action W Bool
  -- `ray.init(…)`, with the number of slots
  pub init : ℕ → Action W (Unit {0})
  pub shutdown : Action W (Unit {0})
  -- `HostLease.remote(slots, …)` and `ray.kill(actor)`
  pub start_actor : Dict ℕ → Action W (Unit {0})
  pub kill_actor : Action W (Unit {0})
  -- the thread of `_sweep_loop`: its start, and its join
  pub start_sweeper : Action W (Unit {0})
  pub join_sweeper : Action W (Unit {0})
  -- `_attempt_task.remote(job, batch_id, …)`
  pub launch : Job → Str → Dict HostRuntime → Dict RemoteHost → Action W ℕ
  pub cancel : ℕ → Action W (Unit {0})
  -- `ray.wait([ref], timeout=0)` and `ray.get(ref)`
  pub is_ready : ℕ → Action W Bool
  pub get_result : ℕ → Action W JobResult
  -- `ray.wait(pending, …)`: those that are left
  pub wait : List ℕ → ℕ → Action W (List ℕ)
  pub sweep : Option ℕ → Action W (Unit {0})
  pub quarantined_hosts : Option ℕ → Action W (List Str)
  pub orphan_paths : Str → Option ℕ → Action W (List Str)
  pub mark_reconciled : Str → Option ℕ → Action W (Unit {0})
  pub current_hosts : Option ℕ → Action W (Dict Str)
  -- `uuid.uuid4().hex`
  pub new_token : Action W Str
  -- the result file of a job: `path.exists()`, and the reading and writing of results.py
  pub result_exists : Str → Str → Action W Bool
  pub read_result : Str → Str → Action W JobResult
  pub write_result : Str → Str → JobResult → Action W (Unit {0})
  pub transport_factory : RemoteHost → Action W (Transport W)
  pub clock : Clock W

-- The object. `asked` lists the tokens of the tasks that `ray.cancel` was called
-- for, newest first.
pub record SshRay (W : Type 0) : Type 0 where
  pub owns_runtime : Bool
  pub actor : Bool
  pub outcome : Option (Outcome W)
  pub runtimes : Dict HostRuntime
  pub inv_hosts : Dict RemoteHost
  pub refs : Dict ℕ
  pub submitted : List (Str × Str)
  pub cancel_requested : List Str
  pub draining : Bool
  pub session_loss : Option Str
  pub sweep_stop : Bool
  pub sweeper : Bool
  pub asked : List Str
  pub world : W

-- `SshRayBackend(…)`
pub new_backend : {W : Type 0} → W → SshRay W
new_backend w = record {
  owns_runtime = false;
  actor = false;
  outcome = none;
  runtimes = [];
  inv_hosts = [];
  refs = [];
  submitted = [];
  cancel_requested = [];
  draining = false;
  session_loss = none;
  sweep_stop = false;
  sweeper = false;
  asked = [];
  world = w;
}

-- The result of a job that was cancelled before it could write one.
pub cancelled_job : Str → Str → JobResult
cancelled_job batch_id job_id = record {
  id = job_id;
  batch_id = batch_id;
  status = cancelled;
  returncode = none;
  duration_s = 0;
  host = none;
  output_dir = none;
  attempts = [];
  error = some (codes "cancelled");
}

-- `text.split("/", 1)`, `none` where there is no slash.
pub split_once : Str → Option (Str × Str)
split_once [] = none
split_once (c ∷ s) =
    let rest = split_once s in
    if c == slash then some ([], s) else elim rest [ none ↦ none | some (a, b) ↦ some (c ∷ a, b) ]

-- `snapshot` by batch and job, which `running_hosts` returns; a name without a slash is a ValueError.
pub by_job : Dict Str → Option (List ((Str × Str) × Str))
unfolding split_once
by_job [] = some []
by_job ((attempt_id, host) ∷ rest) = elim (split_once attempt_id) [
  | none ↦ none
  | some key ↦ elim (by_job rest) [ none ↦ none | some more ↦ some ((key, host) ∷ more) ]
]

-- `tokens.discard(token)`
pub without : Str → List Str → List Str
without token tokens = filter (λ t. not (holds (str_discrete t token))) tokens

module _ {W : Type 0} (cluster : Cluster W) where
  abbrev pub S : Type 0
  S = SshRay W

  abbrev pub call : {A : Type 0} → Action W A → Action S A
  call act s = let (r, w) = act s.world in (r, record s { world = w })

  -- `self._transport_factory(self._inv_hosts[host])`
  unfoldable pub transport_to : Option RemoteHost → Action W (Transport W)
  transport_to none = throw (other (codes "KeyError"))
  transport_to (some h) = cluster.transport_factory h

  -- What `_request_cancel` does once it has noted the token.
  pub ask : Str → ℕ → Action S (Unit {0})
  unfolding without
  ask token ref s =
      catch (call (cluster.cancel ref))
        (λ e t. (raise e, record t { cancel_requested = without token t.cancel_requested }))
        (record s { asked = token ∷ s.asked })

  -- `_request_cancel(token, ref)`
  pub request_cancel : Str → ℕ → Action S (Unit {0})
  unfolding ask
  request_cancel token ref s =
      if mem_str token s.cancel_requested
      then (ok tt, s)
      else ask token ref (record s { cancel_requested = token ∷ s.cancel_requested })

  -- Each cancel is tried, whatever the others raise.
  pub cancel_refs : Dict ℕ → Action S (Unit {0})
  unfolding request_cancel
  cancel_refs [] s = (ok tt, s)
  cancel_refs ((token, ref) ∷ refs) s = cancel_refs refs (request_cancel token ref s).1

  -- The first loss is kept.
  pub lose : Str → Option Str → Action S (Unit {0})
  unfolding cancel_refs
  lose m (some first) s = (ok tt, s)
  lose m none s = cancel_refs s.refs (record s { session_loss = some m })

  -- `_on_session_lost(error)`
  unfoldable pub on_session_lost : Str → Action S (Unit {0})
  unfolding lose
  on_session_lost m s = lose m s.session_loss s

  -- The `except` of `_fail_if_session_lost`.
  pub loss_found : Exn → Action S (Unit {0})
  unfolding on_session_lost
  loss_found (session_lock_lost m) = on_session_lost m >> throw (session_lock_lost m)
  loss_found e = throw e

  -- A loss that is known, or that the heartbeats of the outcome tell.
  pub check_loss : Option Str → Option (Outcome W) → Action S (Unit {0})
  unfolding loss_found
  check_loss (some m) o s = (raise (session_lock_lost m), s)
  check_loss none none s = (ok tt, s)
  check_loss none (some o) s = catch (call (raise_if_session_lost o)) loss_found s

  -- `_fail_if_session_lost()`
  unfoldable pub fail_if_session_lost : Action S (Unit {0})
  unfolding check_loss
  fail_if_session_lost s = check_loss s.session_loss s.outcome s

  -- The new task in the table.
  pub enter : Str → ℕ → Str → Job → Action S (Unit {0})
  enter token ref batch_id job s = (
    ok tt,
    record s { refs = put token ref s.refs; submitted = (batch_id, job.id) ∷ s.submitted },
  )

  -- The table is looked at again once the task is in it.
  pub check_again : Str → ℕ → Action S (Unit {0})
  unfolding fail_if_session_lost request_cancel
  check_again token ref = catch fail_if_session_lost (λ e. request_cancel token ref >> throw e)

  -- `submit`, from the new task on.
  pub started : Str → Job → Str → ℕ → Action S JobHandle
  unfolding enter check_again
  started batch_id job token ref = do
    enter token ref batch_id job
    check_again token ref
    pure (record { batch_id = batch_id; job_id = job.id; token = token })

  pub launched : Str → Job → Str → Action S JobHandle
  unfolding started
  launched batch_id job token s =
      (call (cluster.launch job batch_id s.runtimes s.inv_hosts) >>= started batch_id job token) s

  -- `submit`, once no loss is known, from `self._draining`.
  pub accepted : Str → Job → Bool → Action S JobHandle
  unfolding launched
  accepted batch_id job true =
      throw (dispatcher_error (codes "backend is draining; new submissions are rejected"))
  accepted batch_id job false = call cluster.new_token >>= launched batch_id job

  unfoldable pub submit : Str → Job → Action S JobHandle
  unfolding fail_if_session_lost accepted
  submit batch_id job = fail_if_session_lost >> λ s. accepted batch_id job s.draining s

  -- The result that was written, or a new one.
  pub stored : JobHandle → Bool → Action S JobResult
  stored h true = call (cluster.read_result h.batch_id h.job_id)
  stored h false =
      let result = cancelled_job h.batch_id h.job_id in
      call (cluster.write_result h.batch_id h.job_id result) >> pure result

  -- `_cancelled_result(handle)`
  pub cancelled_result : JobHandle → Action S JobResult
  unfolding stored
  cancelled_result h = call (cluster.result_exists h.batch_id h.job_id) >>= stored h

  -- `except TaskCancelledError` of `status` and `resolve`
  pub was_cancelled : JobHandle → Exn → Action S JobResult
  unfolding cancelled_result
  was_cancelled h (task_cancelled m) = cancelled_result h
  was_cancelled h e = throw e

  pub result_of : JobHandle → ℕ → Action S JobResult
  unfolding was_cancelled
  result_of h ref = catch (call (cluster.get_result ref)) (was_cancelled h)

  pub polled : JobHandle → ℕ → Bool → Action S JobStatus
  unfolding result_of
  polled h ref false = pure running
  polled h ref true = do r ← result_of h ref; pure r.status

  pub known_status : JobHandle → Option ℕ → Action S JobStatus
  unfolding polled
  known_status h none = throw (dispatcher_error (codes "unknown job handle: job " ++ h.job_id))
  known_status h (some ref) = call (cluster.is_ready ref) >>= polled h ref

  unfoldable pub status : JobHandle → Action S JobStatus
  unfolding fail_if_session_lost known_status
  status h = fail_if_session_lost >> λ s. known_status h (get h.token s.refs) s

  pub cancel_known : Str → Option ℕ → Action S (Unit {0})
  unfolding request_cancel
  cancel_known token none s = (ok tt, s)
  cancel_known token (some ref) s = request_cancel token ref s

  unfoldable pub cancel : JobHandle → Action S (Unit {0})
  unfolding cancel_known
  cancel h s = cancel_known h.token (get h.token s.refs) s

  -- `self._refs[handle.token]`; a missing key is a KeyError.
  pub known_result : JobHandle → Option ℕ → Action S JobResult
  unfolding result_of
  known_result h none = throw (other (codes "KeyError"))
  known_result h (some ref) = result_of h ref

  unfoldable pub resolve : JobHandle → Action S JobResult
  unfolding fail_if_session_lost known_result
  resolve h = fail_if_session_lost >> λ s. known_result h (get h.token s.refs) s

  pub placed : Option (List ((Str × Str) × Str)) → Action S (List ((Str × Str) × Str))
  placed none = throw (other (codes "ValueError"))
  placed (some rows) = pure rows

  pub hosts_of : Bool → Action S (List ((Str × Str) × Str))
  unfolding by_job placed
  hosts_of false = pure []
  hosts_of true = call (cluster.current_hosts none) >>= λ snapshot. placed (by_job snapshot)

  unfoldable pub running_hosts : Action S (List ((Str × Str) × Str))
  unfolding fail_if_session_lost hosts_of
  running_hosts = fail_if_session_lost >> λ s. hosts_of s.actor s
