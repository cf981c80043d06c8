-- ===== src/Retry/Identity.antt =====
-- That the result of `run_job` is the job's.
use ray_dispatcher.Base.{ℕ, ◌<◌, ◌≡◌, refl, inl, inr, List, Option-cases, Str}
use ray_dispatcher.Values.{AttemptResult, JobResult, Job, RetryPolicy}
use ray_dispatcher.Errors.{Exn, no_healthy_hosts}
use ray_dispatcher.Retry.{
  assemble_job_result, no_hosts_result, unsnoc, Outside, Outcome, returned, raised, spent, no_lease,
  run_job,
}
use ray_dispatcher.Retry.Rule.{Rule, give_up, run_job_ind}

-- A result under the id of a job and of a batch.
abbrev pub IsFor : Job → Str → JobResult → Type 0
IsFor job batch_id r = (r.id ≡ job.id) × (r.batch_id ≡ batch_id)

-- A run that is not still going on, with such a result if it has one.
abbrev pub Answers : Job → Str → Outcome → Type 0
Answers job batch_id (returned r) = IsFor job batch_id r
Answers job batch_id (raised e) = Unit
Answers job batch_id spent = ⊥

module _ {W : Type 0} (out : Outside W) (job : Job) (batch_id : Str)
    (stdout_log stderr_log : ℕ → Str) (outputs_dir : Str) (policy : RetryPolicy) where
  no_lease-Answers :
      (attempts : List AttemptResult) (e : Exn)
      → Answers job batch_id
          (give_up out job batch_id stdout_log stderr_log outputs_dir policy attempts e)
  unfolding no_lease no_hosts_result assemble_job_result
  no_lease-Answers attempts (no_healthy_hosts m) = elim (Option-cases (unsnoc attempts)) [
    | inl q ↦ rw (q, no_lease) tt
    | inr ((before, final), q) ↦ rw (q, no_lease) (refl, refl)
  ]
  no_lease-Answers attempts _ = tt

  answers :
      Rule out job batch_id stdout_log stderr_log outputs_dir policy
        (λ attempts tried s. Unit)
        (λ o s. Answers job batch_id o)
  unfolding assemble_job_result
  answers = record {
    unleased = λ attempts tried s e s' v q. no_lease-Answers attempts e;
    broken = λ attempts tried s l s' e s'' v q t. tt;
    stopped = λ attempts tried s l s' r s'' v q t halt few. (refl, refl);
    again = λ attempts tried s l s' r s'' v q t more. tt;
  }

  pub run_job-Answers :
      (w : W)
      → 0 < policy.max_attempts
      → Answers job batch_id (run_job out job batch_id stdout_log stderr_log outputs_dir policy w).0
  run_job-Answers w h =
      run_job_ind out job batch_id stdout_log stderr_log outputs_dir policy answers w h tt
