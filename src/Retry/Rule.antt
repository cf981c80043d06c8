-- ===== src/Retry/Rule.antt =====
-- An induction rule for the loop of `run_job`.
use ray_dispatcher.Base.{
  ℕ, zero, suc, ◌+◌, ◌<◌, ◌≡◌, refl, inl, inr, true, false, List, [], ◌∷◌, ◌++◌, arith, Bool-cases,
  length, length-append, Str, Bool,
}
use ray_dispatcher.Values.{AttemptResult, Job, RetryPolicy}
use ray_dispatcher.Errors.{Exn, Result, ok, raise}
use ray_dispatcher.Pool.{Lease, add_str}
use ray_dispatcher.Retry.{
  should_retry, assemble_job_result, Outside, Traced, Outcome, returned, raised, acquire,
  leased_attempt, no_lease, stops, Loop, after_attempt, after_lease, run_from, run_job,
}

module _ {W : Type 0} (out : Outside W) (job : Job) (batch_id : Str)
    (stdout_log stderr_log : ℕ → Str) (outputs_dir : Str) (policy : RetryPolicy) where
  abbrev pub lease_to : List Str → Traced W → Result Lease × Traced W
  lease_to = acquire out job batch_id stdout_log stderr_log outputs_dir policy

  abbrev pub attempt_on : ℕ → Lease → Traced W → Result AttemptResult × Traced W
  attempt_on = leased_attempt out job batch_id stdout_log stderr_log outputs_dir policy

  abbrev pub give_up : List AttemptResult → Exn → Outcome
  give_up = no_lease out job batch_id stdout_log stderr_log outputs_dir policy

  abbrev pub stops_at : AttemptResult → ℕ → Bool
  stops_at = stops out job batch_id stdout_log stderr_log outputs_dir policy

  abbrev loop : ℕ → List AttemptResult → List Str → Traced W → Outcome × Traced W
  loop = run_from out job batch_id stdout_log stderr_log outputs_dir policy

  -- What to show of an invariant `P attempts tried state` and a postcondition `Q`.
  pub record Rule (P : List AttemptResult → List Str → Traced W → Type 0)
      (Q : Outcome → Traced W → Type 0) : Type 0 where
    pub unleased :
        (attempts : List AttemptResult) (tried : List Str) (s : Traced W) (e : Exn) (s' : Traced W)
        → P attempts tried s
        → lease_to tried s ≡ (raise e, s')
        → Q (give_up attempts e) s'
    pub broken :
        (attempts : List AttemptResult) (tried : List Str) (s : Traced W) (l : Lease)
        (s' : Traced W) (e : Exn) (s'' : Traced W)
        → P attempts tried s
        → lease_to tried s ≡ (ok l, s')
        → attempt_on (length attempts + 1) l s' ≡ (raise e, s'')
        → Q (raised e) s''
    pub stopped :
        (attempts : List AttemptResult) (tried : List Str) (s : Traced W) (l : Lease)
        (s' : Traced W) (r : AttemptResult) (s'' : Traced W)
        → P attempts tried s
        → lease_to tried s ≡ (ok l, s')
        → attempt_on (length attempts + 1) l s' ≡ (ok r, s'')
        → stops_at r (length attempts + 1) ≡ true
        → length attempts < policy.max_attempts
        → Q (returned (assemble_job_result job.id batch_id attempts r outputs_dir)) s''
    pub again :
        (attempts : List AttemptResult) (tried : List Str) (s : Traced W) (l : Lease)
        (s' : Traced W) (r : AttemptResult) (s'' : Traced W)
        → P attempts tried s
        → lease_to tried s ≡ (ok l, s')
        → attempt_on (length attempts + 1) l s' ≡ (ok r, s'')
        → stops_at r (length attempts + 1) ≡ false
        → P (attempts ++ r ∷ []) (add_str l.host tried) s''

  stops-false : (r : AttemptResult) (n : ℕ) → stops_at r n ≡ false → n < policy.max_attempts
  unfolding stops should_retry
  stops-false r n e = ground arith

  module _ {P : List AttemptResult → List Str → Traced W → Type 0} {Q : Outcome → Traced W → Type 0}
      (rule : Rule P Q) where
    -- What is to show of the loop with some rounds left.
    abbrev Loops : ℕ → Type 0
    Loops rounds =
        (attempts : List AttemptResult) (tried : List Str) (s : Traced W)
        → length attempts + rounds ≡ policy.max_attempts
        → length attempts < policy.max_attempts
        → P attempts tried s
        → Q (loop rounds attempts tried s).0 (loop rounds attempts tried s).1

    module _ (more : Loop out job batch_id stdout_log stderr_log outputs_dir policy) (rounds : ℕ)
        (ih : (attempts : List AttemptResult) (tried : List Str) (s : Traced W)
          → length attempts + rounds ≡ policy.max_attempts
          → length attempts < policy.max_attempts
          → P attempts tried s
          → Q (more attempts tried s).0 (more attempts tried s).1)
        (attempts : List AttemptResult) (tried : List Str) (s : Traced W)
        (left : length attempts + suc rounds ≡ policy.max_attempts)
        (few : length attempts < policy.max_attempts) (p : P attempts tried s) where
      attempted :
          (l : Lease) (s' : Traced W)
          → lease_to tried s ≡ (ok l, s')
          → (o : Result AttemptResult × Traced W) → attempt_on (length attempts + 1) l s' ≡ o
          → let z =
              after_attempt out job batch_id stdout_log stderr_log outputs_dir policy more attempts
                tried l o in
            Q z.0 z.1
      unfolding after_attempt
      attempted l s' q (raise x, s'') t = rule.broken attempts tried s l s' x s'' p q t
      attempted l s' q (ok r, s'') t = elim (Bool-cases (stops_at r (length attempts + 1))) [
        | inl halt ↦
            rw (halt, after_attempt) (rule.stopped attempts tried s l s' r s'' p q t halt few)
        | inr on ↦
            rw (on, after_attempt)
              (ih (attempts ++ r ∷ []) (add_str l.host tried) s''
                (omega (arith, length-append attempts (r ∷ [])))
                (omega
                  (arith, length-append attempts (r ∷ []), stops-false r (length attempts + 1) on))
                (rule.again attempts tried s l s' r s'' p q t on))
      ]

      acquired :
          (o : Result Lease × Traced W)
          → lease_to tried s ≡ o
          → let z =
              after_lease out job batch_id stdout_log stderr_log outputs_dir policy more attempts
                tried o in
            Q z.0 z.1
      unfolding after_lease
      acquired (raise x, s') q = rule.unleased attempts tried s x s' p q
      acquired (ok l, s') q = attempted l s' q (attempt_on (length attempts + 1) l s') refl

    run_from_ind : (rounds : ℕ) → Loops rounds
    unfolding run_from
    run_from_ind zero attempts tried s e lt p = absurd (omega arith)
    run_from_ind (suc rounds) attempts tried s e lt p =
        acquired (loop rounds) rounds (run_from_ind rounds) attempts tried s e lt p
          (lease_to tried s) refl

    pub run_job_ind :
        (w : W)
        → 0 < policy.max_attempts
        → P [] [] (record { world = w; deeds = [] })
        → let r = run_job out job batch_id stdout_log stderr_log outputs_dir policy w in Q r.0 r.1
    unfolding run_job
    run_job_ind w h p = run_from_ind policy.max_attempts [] [] _ (omega arith) h p
