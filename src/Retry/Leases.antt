-- ===== src/Retry/Leases.antt =====
-- What `run_job` does with its leases, on every path, exceptions included.
use ray_dispatcher.Base.{
  ℕ, ◌+◌, ◌<◌, ◌≡◌, refl, sym, subst, ap, ◌∙◌, Bool-cases, ◌⊎◌, inl, inr, true, false, List, [],
  ◌∷◌, arith, Bool, length, Str, if◌then◌else◌,
}
use ray_dispatcher.Values.{AttemptResult, Job, RetryPolicy, FailureKind}
use ray_dispatcher.Errors.{
  Exn, lease_lost, cleanup_timed_out, ray_error, task_cancelled, cleanup_interrupted, catch,
  catch-ok, catch-raise, finally-state, Result, ok, raise, Action, ◌>>◌, timeout_error, os_error,
  value_error, other, transport_error, keyboard_interrupt, message,
}
use ray_dispatcher.Pool.{Lease, add_str}
use ray_dispatcher.Retry.{
  Outside, Traced, Deed, leased, released, quarantined, Outcome, acquire, release, quarantine,
  attempt, handle, failed_attempt, cancelled_attempt, interrupted_attempt, leased_attempt, run_job,
}
use ray_dispatcher.Retry.Rule.{Rule, run_job_ind}

-- The deeds of a job that holds no lease, newest first: each lease was granted with the hosts tried
-- before it excluded, and released before the next was asked for; a host is quarantined only while
-- its lease is held. The index is the hosts tried.
pub data Closed : List Str → List Deed → Type 0 where
  untouched : Closed [] []
  given_back :
      (l : Lease) {tried : List Str} {ds : List Deed}
      → Closed tried ds
      → Closed (add_str l.host tried) (released l.token ∷ leased l tried ∷ ds)
  set_aside :
      (l : Lease) {tried : List Str} {ds : List Deed}
      → Closed tried ds
      → Closed (add_str l.host tried) (released l.token ∷ quarantined l.host ∷ leased l tried ∷ ds)

module _ {W : Type 0} (out : Outside W) (job : Job) (batch_id : Str)
    (stdout_log stderr_log : ℕ → Str) (outputs_dir : Str) (policy : RetryPolicy) where
  abbrev handles : ℕ → Str → Exn → Traced W → Result AttemptResult × Traced W
  handles = handle out job batch_id stdout_log stderr_log outputs_dir policy

  abbrev attempts_on : ℕ → Lease → Traced W → Result AttemptResult × Traced W
  attempts_on = leased_attempt out job batch_id stdout_log stderr_log outputs_dir policy

  failed_attempt-deeds :
      (n : ℕ) (host : Str) (kind : FailureKind) (m : Str) (s : Traced W)
      → (failed_attempt out job batch_id stdout_log stderr_log outputs_dir policy n host kind m
          s).1.deeds
        ≡ s.deeds
  unfolding failed_attempt
  failed_attempt-deeds n host kind m s = ground arith

  cancelled_attempt-deeds :
      (n : ℕ) (host : Str) (s : Traced W)
      → (cancelled_attempt out job batch_id stdout_log stderr_log outputs_dir policy n host
          s).1.deeds
        ≡ s.deeds
  unfolding cancelled_attempt failed_attempt
  cancelled_attempt-deeds n host s = ground arith

  interrupted_attempt-deeds :
      (n : ℕ) (host : Str) (e : Exn) (s : Traced W)
      → (interrupted_attempt out job batch_id stdout_log stderr_log outputs_dir policy n host e
          s).1.deeds
        ≡ s.deeds
  unfolding interrupted_attempt
  interrupted_attempt-deeds n host (lease_lost m) s =
      ground (arith, failed_attempt-deeds n host FailureKind.host_lost m s)
  interrupted_attempt-deeds n host (transport_error m rc) s =
      ground (arith, failed_attempt-deeds n host FailureKind.ssh m s)
  interrupted_attempt-deeds n host keyboard_interrupt s =
      ground (arith, cancelled_attempt-deeds n host s)
  interrupted_attempt-deeds n host e s =
      ground (arith, failed_attempt-deeds n host FailureKind.internal (message e) s)

  abbrev quarantine_first : Str → Action (Traced W) AttemptResult → Action (Traced W) AttemptResult
  quarantine_first host act =
      quarantine out job batch_id stdout_log stderr_log outputs_dir policy host >> act

  quarantine_first-deeds :
      (host : Str) (act : Action (Traced W) AttemptResult)
      → ((s : Traced W) → (act s).1.deeds ≡ s.deeds)
      → (s : Traced W) → (quarantine_first host act s).1.deeds ≡ quarantined host ∷ s.deeds
  unfolding quarantine
  quarantine_first-deeds host act keeps s = answered (out.quarantine host s.world) refl
    where
      answered :
          (o : Result (Unit {0}) × W)
          → out.quarantine host s.world ≡ o
          → (quarantine_first host act s).1.deeds ≡ quarantined host ∷ s.deeds
      answered (ok u, w) q = rw (q, quarantine) (keeps _)
      answered (raise e, w) q = rw (q, quarantine) refl

  -- The exceptions after which the state of the host's processes is unknown.
  abbrev pub leaves_doubt : Exn → Bool
  leaves_doubt (lease_lost m) = true
  leaves_doubt (cleanup_timed_out r) = true
  leaves_doubt (cleanup_interrupted e) = true
  leaves_doubt _ = false

  -- A handler quarantines the host if there is doubt about it, and only then.
  handle-deeds :
      (n : ℕ) (host : Str) (e : Exn) (s : Traced W)
      → (handles n host e s).1.deeds
        ≡ (if leaves_doubt e then quarantined host ∷ s.deeds else s.deeds)
  unfolding handle
  handle-deeds n host (lease_lost m) s =
      quarantine_first-deeds host _ (failed_attempt-deeds n host FailureKind.host_lost m) s
  handle-deeds n host (cleanup_timed_out r) s = quarantine_first-deeds host _ (λ t. refl) s
  handle-deeds n host (cleanup_interrupted e) s =
      quarantine_first-deeds host _ (interrupted_attempt-deeds n host e) s
  handle-deeds n host keyboard_interrupt s = cancelled_attempt-deeds n host s
  handle-deeds n host (transport_error m rc) s = failed_attempt-deeds n host FailureKind.ssh m s
  handle-deeds n host (timeout_error m) s = refl
  handle-deeds n host (os_error m) s = refl
  handle-deeds n host (value_error m) s = refl
  handle-deeds n host (other m) s = refl
  handle-deeds n host (ray_error m) s = refl
  handle-deeds n host (task_cancelled m) s = refl
  handle-deeds n host e s = failed_attempt-deeds n host FailureKind.internal (message e) s

  -- The body of the `try` makes no deed of its own.
  attempt-deeds :
      (n : ℕ) (l : Lease) (s : Traced W)
      → (attempt out job batch_id stdout_log stderr_log outputs_dir policy n l s).1.deeds ≡ s.deeds
  unfolding attempt
  attempt-deeds n l s = ground arith

  release-deeds :
      (token : Str) (s : Traced W)
      → (release out job batch_id stdout_log stderr_log outputs_dir policy token s).1.deeds
        ≡ released token ∷ s.deeds
  unfolding release
  release-deeds token s = refl

  -- The attempt and its `except` clauses.
  abbrev guarded : ℕ → Lease → Action (Traced W) AttemptResult
  guarded n l =
      catch (attempt out job batch_id stdout_log stderr_log outputs_dir policy n l)
        (handles n l.host)

  guarded-deeds :
      (n : ℕ) (l : Lease) (s : Traced W)
      → ((guarded n l s).1.deeds ≡ s.deeds)
        ⊎ ((guarded n l s).1.deeds ≡ quarantined l.host ∷ s.deeds)
  guarded-deeds n l s =
      tried (attempt out job batch_id stdout_log stderr_log outputs_dir policy n l s) refl
    where
      tried :
          (o : Result AttemptResult × Traced W)
          → attempt out job batch_id stdout_log stderr_log outputs_dir policy n l s ≡ o
          → ((guarded n l s).1.deeds ≡ s.deeds)
            ⊎ ((guarded n l s).1.deeds ≡ quarantined l.host ∷ s.deeds)
      tried (ok r, t) q = inl (
          ap (λ x. x.1.deeds)
            (catch-ok (attempt out job batch_id stdout_log stderr_log outputs_dir policy n l)
              (handles n l.host) s q)
          ∙ sym (ap (λ x. x.1.deeds) q)
          ∙ attempt-deeds n l s)
      tried (raise e, t) q =
          let same : t.deeds ≡ s.deeds = sym (ap (λ x. x.1.deeds) q) ∙ attempt-deeds n l s in
          let done : (guarded n l s).1.deeds
              ≡ (if leaves_doubt e then quarantined l.host ∷ t.deeds else t.deeds) =
            ap (λ x. x.1.deeds)
              (catch-raise (attempt out job batch_id stdout_log stderr_log outputs_dir policy n l)
                (handles n l.host) s q)
            ∙ handle-deeds n l.host e t in
          elim (Bool-cases (leaves_doubt e)) [
            | inl doubt ↦ inr (ground arith)
            | inr sure ↦ inl (ground arith)
          ]

  -- The deeds of one leased attempt: it releases the lease at the end, whatever happened.
  attempt_on-deeds :
      (n : ℕ) (l : Lease) (s : Traced W)
      → ((attempts_on n l s).1.deeds ≡ released l.token ∷ s.deeds)
        ⊎ ((attempts_on n l s).1.deeds ≡ released l.token ∷ quarantined l.host ∷ s.deeds)
  unfolding leased_attempt
  attempt_on-deeds n l s =
      let finish =
        ap (λ x. x.deeds)
          (finally-state (guarded n l)
            (release out job batch_id stdout_log stderr_log outputs_dir policy l.token) s)
        ∙ release-deeds l.token (guarded n l s).1 in
      elim (guarded-deeds n l s) [
        | inl e ↦ inl (finish ∙ ap (λ ds. released l.token ∷ ds) e)
        | inr e ↦ inr (finish ∙ ap (λ ds. released l.token ∷ ds) e)
      ]

  acquire-deeds :
      (tried : List Str) (s : Traced W)
      → (o : Result Lease × Traced W)
      → acquire out job batch_id stdout_log stderr_log outputs_dir policy tried s ≡ o
      → o.1.deeds ≡ (elim o.0 [ ok l ↦ leased l tried ∷ s.deeds | raise e ↦ s.deeds ])
  unfolding acquire
  acquire-deeds tried s (ok l, t) q = ground arith
  acquire-deeds tried s (raise e, t) q = ground arith

  -- The lease books of a job at the end of a round.
  abbrev pub Balanced : Outcome → Traced W → Type 0
  Balanced o s = (tried : List Str) × Closed tried s.deeds

  round-Closed :
      (tried : List Str) (n : ℕ) (l : Lease) (s s' : Traced W)
      → Closed tried s.deeds
      → s'.deeds ≡ leased l tried ∷ s.deeds
      → Closed (add_str l.host tried) (attempts_on n l s').1.deeds
  round-Closed tried n l s s' c e = elim (attempt_on-deeds n l s') [
    | inl q ↦
        subst (Closed (add_str l.host tried)) (sym (q ∙ ap (λ ds. released l.token ∷ ds) e))
          (given_back l c)
    | inr q ↦
        subst (Closed (add_str l.host tried))
          (sym (q ∙ ap (λ ds. released l.token ∷ quarantined l.host ∷ ds) e)) (set_aside l c)
  ]

  balanced :
      Rule out job batch_id stdout_log stderr_log outputs_dir policy
        (λ attempts tried s. Closed tried s.deeds)
        Balanced
  balanced = record {
    unleased = λ attempts tried s e s' c q.
        (tried, subst (Closed tried) (sym (acquire-deeds tried s _ q)) c);
    broken = λ attempts tried s l s' e s'' c q t. (
      _,
      subst (λ x. Closed (add_str l.host tried) x.1.deeds) t
          (round-Closed tried (length attempts + 1) l s s' c (acquire-deeds tried s _ q)),
    );
    stopped = λ attempts tried s l s' r s'' c q t halt few. (
      _,
      subst (λ x. Closed (add_str l.host tried) x.1.deeds) t
          (round-Closed tried (length attempts + 1) l s s' c (acquire-deeds tried s _ q)),
    );
    again = λ attempts tried s l s' r s'' c q t more.
        subst (λ x. Closed (add_str l.host tried) x.1.deeds) t
          (round-Closed tried (length attempts + 1) l s s' c (acquire-deeds tried s _ q));
  }

  -- With `max_attempts` at least 1: whatever `run_job` ends with, each lease was granted with the
  -- hosts tried before it excluded, and was released before the next was asked for.
  pub run_job-Closed :
      (w : W)
      → 0 < policy.max_attempts
      → (tried : List Str) × Closed tried
          (run_job out job batch_id stdout_log stderr_log outputs_dir policy w).1.deeds
  run_job-Closed w h =
      run_job_ind out job batch_id stdout_log stderr_log outputs_dir policy balanced w h untouched
