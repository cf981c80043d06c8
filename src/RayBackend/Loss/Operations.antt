-- ===== src/RayBackend/Loss/Operations.antt =====
-- That every operation on the table keeps what the loss of a session asks for.
use ray_dispatcher.Base.{
  ℕ, ◌≡◌, refl, sym, subst, Bool, true, false, Option, none, some, List, [], ◌∷◌, Str, get, put,
  arith, All, mem_str,
}
use ray_dispatcher.Values.{Job, JobHandle}
use ray_dispatcher.Errors.{Exn, task_cancelled, Result, ok, raise, and_then}
use ray_dispatcher.RayBackend.{
  Cluster, SshRay, call, request_cancel, on_session_lost, fail_if_session_lost, enter, check_again,
  started, launched, accepted, stored, cancel_known, submit, cancelled_job, cancelled_result,
  was_cancelled, result_of, polled, known_status, status, cancel, known_result, resolve, by_job,
  placed, hosts_of, running_hosts,
}
use ray_dispatcher.RayBackend.Loss.{
  Asked, Stable, Stable-then, Stable-catch, call-Stable, request_cancel-Stable,
  on_session_lost-Stable, fail_if_session_lost-Stable, fail_if_session_lost-ok,
}

-- The operations of the backend on its table, and the callback of a session that is lost.
pub data Event : Type 0 where
  submits : Str → Job → Event
  asks_status resolves cancels : JobHandle → Event
  lists_hosts : Event
  loses : Str → Event

module _ {W : Type 0} (cluster : Cluster W) where
  stored-Stable : (h : JobHandle) (there : Bool) → Stable (stored cluster h there)
  unfolding stored
  stored-Stable h true = call-Stable cluster (cluster.read_result h.batch_id h.job_id)
  stored-Stable h false =
      let write = cluster.write_result h.batch_id h.job_id (cancelled_job h.batch_id h.job_id) in
      Stable-then (call cluster write) _ (call-Stable cluster write) (λ _ s v. v)

  cancelled_result-Stable : (h : JobHandle) → Stable (cancelled_result cluster h)
  unfolding cancelled_result
  cancelled_result-Stable h =
      let exists = cluster.result_exists h.batch_id h.job_id in
      Stable-then (call cluster exists) (stored cluster h) (call-Stable cluster exists)
        (stored-Stable h)

  was_cancelled-Stable : (h : JobHandle) (e : Exn) → Stable (was_cancelled cluster h e)
  unfolding was_cancelled
  was_cancelled-Stable h (task_cancelled m) s v = cancelled_result-Stable h s v
  was_cancelled-Stable h _ s v = v

  result_of-Stable : (h : JobHandle) (ref : ℕ) → Stable (result_of cluster h ref)
  unfolding result_of
  result_of-Stable h ref =
      Stable-catch (call cluster (cluster.get_result ref)) (was_cancelled cluster h)
        (call-Stable cluster (cluster.get_result ref)) (was_cancelled-Stable h)

  polled-Stable : (h : JobHandle) (ref : ℕ) (ready : Bool) → Stable (polled cluster h ref ready)
  unfolding polled
  polled-Stable h ref false s v = v
  polled-Stable h ref true s v =
      Stable-then (result_of cluster h ref) _ (result_of-Stable h ref) (λ _ t u. u) s v

  known_status-Stable : (h : JobHandle) (ref : Option ℕ) → Stable (known_status cluster h ref)
  unfolding known_status
  known_status-Stable h none s v = v
  known_status-Stable h (some ref) s v =
      Stable-then (call cluster (cluster.is_ready ref)) (polled cluster h ref)
        (call-Stable cluster (cluster.is_ready ref)) (polled-Stable h ref) s v

  known_result-Stable : (h : JobHandle) (ref : Option ℕ) → Stable (known_result cluster h ref)
  unfolding known_result
  known_result-Stable h none s v = v
  known_result-Stable h (some ref) s v = result_of-Stable h ref s v

  status-Stable : (h : JobHandle) → Stable (status cluster h)
  unfolding status
  status-Stable h =
      Stable-then (fail_if_session_lost cluster) _ (fail_if_session_lost-Stable cluster)
        (λ _ s v. known_status-Stable h (get h.token s.refs) s v)

  resolve-Stable : (h : JobHandle) → Stable (resolve cluster h)
  unfolding resolve
  resolve-Stable h =
      Stable-then (fail_if_session_lost cluster) _ (fail_if_session_lost-Stable cluster)
        (λ _ s v. known_result-Stable h (get h.token s.refs) s v)

  cancel_known-Stable : (token : Str) (ref : Option ℕ) → Stable (cancel_known cluster token ref)
  unfolding cancel_known
  cancel_known-Stable token none s v = v
  cancel_known-Stable token (some ref) s v = request_cancel-Stable cluster token ref s v

  cancel-Stable : (h : JobHandle) → Stable (cancel cluster h)
  unfolding cancel
  cancel-Stable h s v = cancel_known-Stable h.token (get h.token s.refs) s v

  check_again-Stable : (token : Str) (ref : ℕ) → Stable (check_again cluster token ref)
  unfolding check_again
  check_again-Stable token ref =
      Stable-catch (fail_if_session_lost cluster) _ (fail_if_session_lost-Stable cluster) (λ e.
        Stable-then (request_cancel cluster token ref) _ (request_cancel-Stable cluster token ref)
          (λ _ s v. v))

  -- From the new task on, where no loss is known.
  started-Stable :
      (batch_id : Str) (job : Job) (token : Str) (ref : ℕ) (s : SshRay W)
      → s.session_loss ≡ none
      → Asked s
      → Asked (started cluster batch_id job token ref s).1
  unfolding started enter
  started-Stable batch_id job token ref s calm v =
      Stable-then (check_again cluster token ref) _ (check_again-Stable token ref) (λ _ t u. u)
        (record s { refs = put token ref s.refs; submitted = (batch_id, job.id) ∷ s.submitted })
        (record { owed = v.owed; lost = λ m e. ground arith })

  launched-Stable :
      (batch_id : Str) (job : Job) (token : Str) (s : SshRay W)
      → s.session_loss ≡ none
      → Asked s
      → Asked (launched cluster batch_id job token s).1
  unfolding launched
  launched-Stable batch_id job token s calm v =
      by_ref (cluster.launch job batch_id s.runtimes s.inv_hosts s.world)
    where
      by_ref :
          (o : Result ℕ × W)
          → Asked (and_then (o.0, record s { world = o.1 }) (started cluster batch_id job token)).1
      by_ref (ok ref, w) =
          started-Stable batch_id job token ref (record s { world = w }) calm
            (record { owed = v.owed; lost = v.lost })
      by_ref (raise x, w) = record { owed = v.owed; lost = v.lost }

  accepted-Stable :
      (batch_id : Str) (job : Job) (draining : Bool) (s : SshRay W)
      → s.session_loss ≡ none
      → Asked s
      → Asked (accepted cluster batch_id job draining s).1
  unfolding accepted
  accepted-Stable batch_id job true s calm v = v
  accepted-Stable batch_id job false s calm v = by_token (cluster.new_token s.world)
    where
      by_token :
          (o : Result Str × W)
          → Asked (and_then (o.0, record s { world = o.1 }) (launched cluster batch_id job)).1
      by_token (ok token, w) =
          launched-Stable batch_id job token (record s { world = w }) calm
            (record { owed = v.owed; lost = v.lost })
      by_token (raise x, w) = record { owed = v.owed; lost = v.lost }

  submit-Stable : (batch_id : Str) (job : Job) → Stable (submit cluster batch_id job)
  unfolding submit
  submit-Stable batch_id job s v =
      by_check (fail_if_session_lost cluster s) refl (fail_if_session_lost-Stable cluster s v)
    where
      by_check :
          (o : Result (Unit {0}) × SshRay W)
          → fail_if_session_lost cluster s ≡ o
          → Asked o.1
          → Asked (and_then o (λ _ t. accepted cluster batch_id job t.draining t)).1
      by_check (ok u, t) e i =
          accepted-Stable batch_id job t.draining t (fail_if_session_lost-ok cluster s t u e) i
      by_check (raise x, t) e i = i

  placed-Stable : (o : Option (List ((Str × Str) × Str))) → Stable (placed cluster o)
  unfolding placed
  placed-Stable none s v = v
  placed-Stable (some rows) s v = v

  hosts_of-Stable : (actor : Bool) → Stable (hosts_of cluster actor)
  unfolding hosts_of
  hosts_of-Stable false s v = v
  hosts_of-Stable true s v =
      Stable-then (call cluster (cluster.current_hosts none)) _
        (call-Stable cluster (cluster.current_hosts none))
        (λ snapshot. placed-Stable (by_job snapshot)) s v

  running_hosts-Stable : Stable (running_hosts cluster)
  unfolding running_hosts
  running_hosts-Stable =
      Stable-then (fail_if_session_lost cluster) _ (fail_if_session_lost-Stable cluster)
        (λ _ s v. hosts_of-Stable s.actor s v)

  pub step : SshRay W → Event → SshRay W
  unfolding submit status resolve cancel on_session_lost running_hosts
  step s (submits batch_id job) = (submit cluster batch_id job s).1
  step s (asks_status h) = (status cluster h s).1
  step s (resolves h) = (resolve cluster h s).1
  step s (cancels h) = (cancel cluster h s).1
  step s lists_hosts = (running_hosts cluster s).1
  step s (loses m) = (on_session_lost cluster m s).1

  step-Asked : (s : SshRay W) (e : Event) → Asked s → Asked (step s e)
  unfolding step
  step-Asked s (submits batch_id job) v = submit-Stable batch_id job s v
  step-Asked s (asks_status h) v = status-Stable h s v
  step-Asked s (resolves h) v = resolve-Stable h s v
  step-Asked s (cancels h) v = cancel-Stable h s v
  step-Asked s lists_hosts v = running_hosts-Stable s v
  step-Asked s (loses m) v = on_session_lost-Stable cluster m s v

  unfoldable pub run : SshRay W → List Event → SshRay W
  unfolding step
  run s [] = s
  run s (e ∷ es) = run (step s e) es

  run-keeps : (s : SshRay W) (es : List Event) → Asked s → Asked (run s es)
  unfolding run
  run-keeps s [] v = v
  run-keeps s (e ∷ es) v = run-keeps (step s e) es (step-Asked s e v)

  -- From an empty table, after any operations in any order and whatever Ray raises: every task whose
  -- cancel counts as requested had its cancel asked for, and once the loss of a session is known, so
  -- did every task in the table.
  pub run-Asked :
      (s : SshRay W) (es : List Event) → s.refs ≡ [] → s.cancel_requested ≡ [] → Asked (run s es)
  run-Asked s es no_task no_request = run-keeps s es (record {
    owed = λ t h. ground arith;
    lost = λ m e. subst (All (λ e. mem_str e.0 s.asked ≡ true)) (sym no_task) tt;
  })
