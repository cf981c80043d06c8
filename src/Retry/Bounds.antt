-- ===== src/Retry/Bounds.antt =====
-- That `run_job` ends, and what its result says of the attempts.
use ray_dispatcher.Base.{
  ℕ, ◌+◌, ◌≤◌, ◌<◌, ◌≡◌, refl, subst, ◌⊎◌, inl, inr, true, false, List, [], ◌∷◌, ◌++◌, arith,
  Option-cases, length, length-append, All, All-append, Str, none, some,
}
use ray_dispatcher.Values.{AttemptResult, JobResult, Job, RetryPolicy, FailureKind}
use ray_dispatcher.Errors.{Exn, no_healthy_hosts, ok, raise}
use ray_dispatcher.Pool.{Lease, add_str}
use ray_dispatcher.Retry.{
  mem_kind, should_retry, assemble_job_result, no_hosts_result, unsnoc, Outside, Traced, Outcome,
  returned, raised, spent, has_succeeded, no_lease, stops, run_job,
}
use ray_dispatcher.Retry.Rule.{Rule, lease_to, attempt_on, give_up, stops_at, run_job_ind}

-- A failure of a kind that the policy retries.
pub record IsRetried (policy : RetryPolicy) (a : AttemptResult) : Type 0 where
  pub kind : FailureKind
  pub known : a.failure_kind ≡ some kind
  pub listed : mem_kind kind policy.retry_on ≡ true
  pub unsuccessful : has_succeeded a.status ≡ false

unsnoc-none : (attempts : List AttemptResult) → unsnoc attempts ≡ none → attempts ≡ []
unsnoc-none [] e = refl
unsnoc-none (a ∷ rest) e = elim (Option-cases (unsnoc rest)) [
  | inl q ↦ ground arith
  | inr ((ys, y), q) ↦ ground arith
]

unsnoc-some :
    (attempts : List AttemptResult) {before : List AttemptResult} {final : AttemptResult}
    → unsnoc attempts ≡ some (before, final)
    → attempts ≡ before ++ final ∷ []
unsnoc-some [] e = cc
unsnoc-some (a ∷ rest) e = elim (Option-cases (unsnoc rest)) [
  | inl q ↦ ground (arith, unsnoc-none rest q)
  | inr ((ys, y), q) ↦ ground (arith, unsnoc-some rest q)
]

All-snoc :
    (P : AttemptResult → Type 0) (before : List AttemptResult) (final : AttemptResult)
    → All P (before ++ final ∷ [])
    → All P before × P final
All-snoc P [] final h = (tt, h.0)
All-snoc P (a ∷ before) final h =
    let (rest, last) = All-snoc P before final h.1 in ((h.0, rest), last)

module _ {W : Type 0} (out : Outside W) (job : Job) (batch_id : Str)
    (stdout_log stderr_log : ℕ → Str) (outputs_dir : Str) (policy : RetryPolicy) where
  -- From a state, the attempts that were made, the hosts tried and the state that they led to: each
  -- attempt ran on a lease that was granted with the hosts before it excluded, under its number.
  pub data Ran (first : Traced W) : List AttemptResult → List Str → Traced W → Type 0 where
    no_attempt : Ran first [] [] first
    one_more :
        {attempts : List AttemptResult} {tried : List Str} {s : Traced W} (l : Lease)
        (s' : Traced W) (a : AttemptResult) (s'' : Traced W)
        → Ran first attempts tried s
        → lease_to out job batch_id stdout_log stderr_log outputs_dir policy tried s ≡ (ok l, s')
        → attempt_on out job batch_id stdout_log stderr_log outputs_dir policy
            (length attempts + 1)
            l
            s'
          ≡ (ok a, s'')
        → Ran first (attempts ++ a ∷ []) (add_str l.host tried) s''

  -- What a result says of the attempts `before` and `final`.
  pub record Tells (first last : Traced W) (r : JobResult) : Type 0 where
    pub before : List AttemptResult
    pub final : AttemptResult
    pub attempts : r.attempts ≡ before ++ final ∷ []
    -- these are the attempts that were made
    pub tried : List Str
    pub made : Traced W
    pub ran : Ran first r.attempts tried made
    pub bounded : length r.attempts ≤ policy.max_attempts
    -- every attempt but the last failed in a way that is retried
    pub retried : All (IsRetried policy) before
    -- either the last attempt settled it, or no healthy host was left for the next
    pub settled :
        ((r ≡ assemble_job_result job.id batch_id before final outputs_dir)
          × (stops_at out job batch_id stdout_log stderr_log outputs_dir policy final
                (length r.attempts)
              ≡ true)
          × (made ≡ last))
        ⊎ ((m : Str) × (r
              ≡ no_hosts_result out job batch_id stdout_log stderr_log outputs_dir policy before
                  final m)
            × (lease_to out job batch_id stdout_log stderr_log outputs_dir policy tried made
                ≡ (raise (no_healthy_hosts m), last))
            × IsRetried policy final)

  abbrev pub Ends : Traced W → Outcome → Traced W → Type 0
  Ends first (returned r) last = Tells first last r
  Ends first (raised e) last = Unit
  Ends first spent last = ⊥

  record Sofar (first : Traced W) (attempts : List AttemptResult) (tried : List Str) (s : Traced W)
      : Type 0 where
    ran : Ran first attempts tried s
    retried : All (IsRetried policy) attempts
    few : length attempts ≤ policy.max_attempts

  stops-IsRetried :
      (a : AttemptResult) (n : ℕ)
      → stops_at out job batch_id stdout_log stderr_log outputs_dir policy a n ≡ false
      → IsRetried policy a × (n < policy.max_attempts)
  unfolding stops should_retry
  stops-IsRetried a n e = elim (Option-cases a.failure_kind) [
    | inl q ↦ ground arith
    | inr (k, q) ↦ (
      record { kind = k; known = q; listed = ground arith; unsuccessful = ground arith },
      ground arith,
    )
  ]

  no_lease-Ends :
      (first : Traced W) (attempts : List AttemptResult) (tried : List Str) (s s' : Traced W)
      (e : Exn)
      → Sofar first attempts tried s
      → lease_to out job batch_id stdout_log stderr_log outputs_dir policy tried s ≡ (raise e, s')
      → Ends first (give_up out job batch_id stdout_log stderr_log outputs_dir policy attempts e) s'
  unfolding no_lease no_hosts_result assemble_job_result
  no_lease-Ends first attempts tried s s' (no_healthy_hosts m) v refused =
      elim (Option-cases (unsnoc attempts)) [
        | inl q ↦ rw (q, no_lease) tt
        | inr ((before, final), q) ↦
            let whole = unsnoc-some attempts q in
            let split =
              All-snoc (IsRetried policy) before final
                (subst (All (IsRetried policy)) whole v.retried) in
            rw (q, no_lease)
              (record {
                before = before;
                final = final;
                attempts = refl;
                tried = tried;
                made = s;
                ran = subst (λ (l : List AttemptResult). Ran first l tried s) whole v.ran;
                bounded =
                    subst (λ (l : List AttemptResult). length l ≤ policy.max_attempts) whole v.few;
                retried = split.0;
                settled = inr (m, refl, refused, split.1);
              })
      ]
  no_lease-Ends first attempts tried s s' _ v refused = tt

  ends :
      (first : Traced W)
      → Rule out job batch_id stdout_log stderr_log outputs_dir policy (Sofar first) (Ends first)
  unfolding assemble_job_result
  ends first = record {
    unleased = λ attempts tried s e s' v q. no_lease-Ends first attempts tried s s' e v q;
    broken = λ attempts tried s l s' e s'' v q t. tt;
    stopped = λ attempts tried s l s' r s'' v q t halt few. record {
      before = attempts;
      final = r;
      attempts = refl;
      tried = add_str l.host tried;
      made = s'';
      ran = one_more l s' r s'' v.ran q t;
      bounded = omega (arith, length-append attempts (r ∷ []));
      retried = v.retried;
      settled = inl (refl, rw (length-append attempts (r ∷ [])) halt, refl);
    };
    again = λ attempts tried s l s' r s'' v q t more.
        let (again, few) = stops-IsRetried r (length attempts + 1) more in
        record {
          ran = one_more l s' r s'' v.ran q t;
          retried = All-append (IsRetried policy) attempts (r ∷ []) v.retried (again, tt);
          few = omega (arith, length-append attempts (r ∷ []));
        };
  }

  -- With `max_attempts` at least 1: `run_job` ends, with a result or an exception, within so many
  -- attempts. A result lists just the attempts that were made, in order, the n-th run as attempt n on
  -- a lease that was granted with the hosts tried before excluded; each but the last failed in a way
  -- that the policy retries, and after the last there was no reason or no healthy host for another.
  pub run_job-Ends :
      (w : W)
      → 0 < policy.max_attempts
      → let o = run_job out job batch_id stdout_log stderr_log outputs_dir policy w in
        Ends (record { world = w; deeds = [] }) o.0 o.1
  run_job-Ends w h =
      run_job_ind out job batch_id stdout_log stderr_log outputs_dir policy
        (ends (record { world = w; deeds = [] })) w h
        (record { ran = no_attempt; retried = tt; few = omega arith })
