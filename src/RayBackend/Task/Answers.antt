-- ===== src/RayBackend/Task/Answers.antt =====
-- That the task ends, and with which result.
use ray_dispatcher.Base.{ℕ, ◌<◌, ◌≡◌, refl, false, Option, none, some, Str, arith}
use ray_dispatcher.Values.{Job, JobResult, RetryPolicy}
use ray_dispatcher.Errors.{
  Exn, keyboard_interrupt, task_cancelled, Result, ok, raise, and_then, pure,
}
use ray_dispatcher.Retry.{Outcome, returned, raised, spent, run_job, Traced}
use ray_dispatcher.Retry.Identity.{IsFor, Answers, run_job-Answers}
use ray_dispatcher.RayBackend.{cancelled_job}
use ray_dispatcher.RayBackend.Task.{
  Handle, Worker, outside, internal_failure, recovered, write, settled, after_run, attempt_task,
}

module _ {W : Type 0} (worker : Worker W) (job : Job) (batch_id : Str)
    (stdout_log stderr_log : ℕ → Str) (outputs_dir : Str) (policy : RetryPolicy) where
  -- How a task may end: it returns the job's own result, which it wrote last of all, or it raises.
  abbrev pub Ends : Option (Result JobResult × Handle W) → Type 0
  Ends none = ⊥
  Ends (some (ok r, h)) =
      IsFor job batch_id r × (w : W) × (worker.write_result_json r w ≡ (ok tt, h.world))
  Ends (some (raise e, h)) = Unit

  written :
      (r : JobResult) (h : Handle W) (o : Result (Unit {0}) × W)
      → IsFor job batch_id r
      → worker.write_result_json r h.world ≡ o
      → Ends (some (and_then (o.0, record h { world = o.1 }) (λ _. pure r)))
  written r h (ok u, w) f q = (f, h.world, q)
  written r h (raise e, w) f q = tt

  write-Ends :
      (r : JobResult) (h : Handle W)
      → IsFor job batch_id r
      → Ends (some (write worker job batch_id stdout_log stderr_log outputs_dir policy r h))
  unfolding write
  write-Ends r h f = written r h (worker.write_result_json r h.world) f refl

  recovered-IsFor :
      (e : Exn) (r : JobResult)
      → recovered worker job batch_id stdout_log stderr_log outputs_dir policy e ≡ some r
      → IsFor job batch_id r
  unfolding recovered internal_failure cancelled_job
  recovered-IsFor keyboard_interrupt r q = (ground arith, ground arith)
  recovered-IsFor (task_cancelled m) r q = (ground arith, ground arith)
  recovered-IsFor _ r q = (ground arith, ground arith)

  settled-Ends :
      (e : Exn) (r : Option JobResult) (h : Handle W)
      → ((x : JobResult) → r ≡ some x → IsFor job batch_id x)
      → Ends (some (settled worker job batch_id stdout_log stderr_log outputs_dir policy e r h))
  unfolding settled
  settled-Ends e none h f = tt
  settled-Ends e (some r) h f = write-Ends r h (f r refl)

  after_run-Ends :
      (o : Outcome) (s : Traced (Handle W))
      → Answers job batch_id o
      → Ends (after_run worker job batch_id stdout_log stderr_log outputs_dir policy (o, s))
  unfolding after_run
  after_run-Ends (returned r) s a = write-Ends r s.world a
  after_run-Ends spent s a = absurd a
  after_run-Ends (raised e) s a =
      settled-Ends e (recovered worker job batch_id stdout_log stderr_log outputs_dir policy e)
        s.world (λ r q. recovered-IsFor e r q)

  -- With `max_attempts` at least 1, the task ends. If it returns a result, that is under the job's id
  -- and its batch's, whether the job ran, was cancelled or failed inside the task, and the last thing
  -- that the task did was to write that result.
  pub attempt_task-Ends :
      (w : W)
      → 0 < policy.max_attempts
      → Ends (attempt_task worker job batch_id stdout_log stderr_log outputs_dir policy w)
  unfolding attempt_task
  attempt_task-Ends w some_attempt =
      let out = outside worker job batch_id stdout_log stderr_log outputs_dir policy in
      let start : Handle W = record { stop = false; lost = false; thread = none; world = w } in
      let o = run_job out job batch_id stdout_log stderr_log outputs_dir policy start in
      after_run-Ends o.0 o.1 (
        run_job-Answers out job batch_id stdout_log stderr_log outputs_dir policy start
          some_attempt)
