-- ===== src/RayBackend/Task.antt =====
-- `_ActorLeaseHandle` and `_attempt_task`. The lease actor, the attempt driver, the result files and
-- the names of the exceptions' types are parameters.
pub mod Answers
use ray_dispatcher.Base.{
  ℕ, Bool, true, false, if◌then◌else◌, Option, none, some, List, [], ◌++◌, Str, codes,
}
use ray_dispatcher.Values.{Job, JobResult, failed, AttemptResult, RetryPolicy}
use ray_dispatcher.Errors.{
  Exn, no_healthy_hosts, lease_lost, keyboard_interrupt, task_cancelled, is_ray_error, is_exception,
  message, Result, ok, raise, Action, pure, throw, catch, caught, ◌>>=◌, ◌>>◌,
}
use ray_dispatcher.Pool.{Lease}
use ray_dispatcher.Runtime.{HostRuntime}
use ray_dispatcher.Retry.{Outside, Traced, Outcome, returned, raised, spent, run_job}
use ray_dispatcher.RayBackend.{cancelled_job}

-- The actor's methods, as the task calls them.
pub record Actor (W : Type 0) : Type 0 where
  pub acquire : Str → List Str → Action W Lease
  pub release : Str → Action W (Unit {0})
  pub register_pid : Str → Str → Action W (Unit {0})
  pub quarantine : Str → Action W (Unit {0})
  pub heartbeat : Str → Action W Bool

-- The handle: its two events, the token that its heartbeat thread refreshes, and the world.
pub record Handle (W : Type 0) : Type 0 where
  pub stop : Bool
  pub lost : Bool
  pub thread : Option Str
  pub world : W

module _ {W : Type 0} (actor : Actor W) where
  abbrev pub on_world : {A : Type 0} → Action W A → Action (Handle W) A
  on_world act h = let (r, w) = act h.world in (r, record h { world = w })

  -- `lease actor unavailable`
  no_actor : Exn → Action (Handle W) Lease
  no_actor e =
      if is_ray_error e
      then throw (no_healthy_hosts (codes "lease actor unavailable: " ++ message e))
      else throw e

  begin_heartbeat : Lease → Action (Handle W) Lease
  begin_heartbeat l h = (ok l, record h { stop = false; lost = false; thread = some l.token })

  pub acquire : Str → List Str → Action (Handle W) Lease
  unfolding no_actor begin_heartbeat
  acquire attempt_id exclude =
      catch (on_world (actor.acquire attempt_id exclude)) no_actor >>= begin_heartbeat

  -- A call that counts the lease as lost if the actor is not there.
  or_lost : Exn → Action (Handle W) (Unit {0})
  or_lost e h = if is_ray_error e then (ok tt, record h { lost = true }) else (raise e, h)

  pub release : Str → Action (Handle W) (Unit {0})
  unfolding or_lost
  release token h =
      catch (on_world (actor.release token)) or_lost (record h { stop = true; thread = none })

  pub register_pid : Str → Str → Action (Handle W) (Unit {0})
  register_pid token path = on_world (actor.register_pid token path)

  pub quarantine : Str → Action (Handle W) (Unit {0})
  unfolding or_lost
  quarantine host = catch (on_world (actor.quarantine host)) or_lost

  pub raise_if_lost : Action (Handle W) (Unit {0})
  raise_if_lost h =
      if h.lost
      then (raise (lease_lost (codes "lease lost: heartbeat rejected or actor unavailable")), h)
      else (ok tt, h)

  -- What the thread makes of an answer of the actor.
  answered : Result Bool → Handle W → Handle W
  answered (ok true) h = h
  answered (ok false) h = record h { lost = true; thread = none }
  answered (raise e) h =
      if is_exception e then record h { lost = true; thread = none } else record h { thread = none }

  -- One round of `_heartbeat`: it is over once `stop` is set.
  pub beat : Handle W → Handle W
  unfolding answered
  beat h = elim h.thread [
    | none ↦ h
    | some token ↦
        if h.stop
        then record h { thread = none }
        else (let (r, w) = actor.heartbeat token h.world in answered r (record h { world = w }))
  ]

-- What else `run_job` is given in the task, on the handle, and the writing of the result.
pub record Worker (W : Type 0) : Type 0 where
  pub actor : Actor W
  pub runtime_for : Str → Action W HostRuntime
  pub execute : Str → HostRuntime → ℕ → Action (Handle W) AttemptResult
  pub make_attempt_dir : ℕ → Action W (Unit {0})
  pub write_attempt_json : ℕ → AttemptResult → Action W (Unit {0})
  pub write_result_json : JobResult → Action W (Unit {0})
  -- `type(exc).__name__`
  pub type_name : Exn → Str

module _ {W : Type 0} (worker : Worker W) (job : Job) (batch_id : Str)
    (stdout_log stderr_log : ℕ → Str) (outputs_dir : Str) (policy : RetryPolicy) where
  -- The arguments of `run_job`.
  pub outside : Outside (Handle W)
  unfolding acquire release register_pid quarantine
  outside = record {
    acquire = acquire worker.actor;
    release = release worker.actor;
    register_pid = register_pid worker.actor;
    quarantine = quarantine worker.actor;
    runtime_for = λ host. on_world worker.actor (worker.runtime_for host);
    execute = worker.execute;
    make_attempt_dir = λ n. on_world worker.actor (worker.make_attempt_dir n);
    write_attempt_json = λ n r. on_world worker.actor (worker.write_attempt_json n r);
  }

  pub internal_failure : Exn → JobResult
  internal_failure e = record (cancelled_job batch_id job.id) {
    status = failed;
    error = some (codes "INTERNAL: " ++ worker.type_name e ++ codes ": " ++ message e);
  }

  -- The `except` clauses of the task: the result in place of an exception, if there is one.
  pub recovered : Exn → Option JobResult
  unfolding internal_failure
  recovered keyboard_interrupt = some (cancelled_job batch_id job.id)
  recovered (task_cancelled m) = some (cancelled_job batch_id job.id)
  recovered e = if is_exception e then some (internal_failure e) else none

  -- `write_result_json(…)` and the `return`.
  pub write : JobResult → Action (Handle W) JobResult
  write r = on_world worker.actor (worker.write_result_json r) >> pure r

  pub settled : Exn → Option JobResult → Action (Handle W) JobResult
  unfolding write
  settled e none = throw e
  settled e (some r) = write r

  -- The task, from the outcome of `run_job`; `none` stands for a `run_job` that goes on.
  pub after_run : Outcome × Traced (Handle W) → Option (Result JobResult × Handle W)
  unfolding settled recovered
  after_run (returned r, s) = some (write r s.world)
  after_run (raised e, s) = some (settled e (recovered e) s.world)
  after_run (spent, s) = none

  unfoldable pub attempt_task : W → Option (Result JobResult × Handle W)
  unfolding outside after_run
  attempt_task w = after_run (
      run_job outside job batch_id stdout_log stderr_log outputs_dir policy
        (record { stop = false; lost = false; thread = none; world = w }))
