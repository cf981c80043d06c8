-- ===== src/Attempt/Driver/Verdict.antt =====
-- What the result of an attempt says.
use ray_dispatcher.Base.{
  ℕ, ℤ, is_zero, ◌≡◌, refl, ap, ◌∙◌, subst, inl, inr, Bool, true, false, if◌then◌else◌, null,
  Bool-cases, Option-cases, Option, none, some, [], ◌∷◌, arith, Str, codes,
}
use ray_dispatcher.Values.{Job, AttemptResult, succeeded, failed, timed_out, FailureKind}
use ray_dispatcher.Errors.{Result, ok, and_then-ok, Action, pure, throw, cleanup_timed_out}
use ray_dispatcher.Layout.{RunPaths, result, stdout, stderr, runner, run_paths, env_venv}
use ray_dispatcher.Runtime.{HostRuntime}
use ray_dispatcher.Attempt.{Machine, Collected, checked, run_checked}
use ray_dispatcher.Attempt.Driver.Outputs.{AreThere, IsMissing, Gathers, collect-Gathers}
use ray_dispatcher.Transport.{CommandResult, default}
use ray_dispatcher.Attempt.Driver.{
  classify, try_pull, collect, read_result, publish_success, conclude, time_out, timeout_result,
  after_runner, execute_attempt, Ended, in_time, overdue, uncleaned, prepare, invoke,
}

classify-bad :
    (rc : ℤ) (problem : Option Str) (c : Collected)
    → is_zero rc ≡ false
    → classify rc problem c ≡ (failed, some FailureKind.command)
unfolding classify
classify-bad rc problem c bad = rw bad refl

classify-problem :
    (rc : ℤ) (problem : Option Str) (c : Collected) (text : Str)
    → is_zero rc ≡ true
    → problem ≡ some text
    → classify rc problem c ≡ (failed, some FailureKind.collection)
unfolding classify
classify-problem rc problem c text fine p = rw (fine, p) refl

classify-whole :
    (rc : ℤ) (problem : Option Str) (c : Collected)
    → is_zero rc ≡ true
    → problem ≡ none
    → null c.missing_required ≡ true
    → classify rc problem c ≡ (succeeded, none)
unfolding classify
classify-whole rc problem c fine p whole = rw (fine, p, whole) refl

classify-missing :
    (rc : ℤ) (problem : Option Str) (c : Collected)
    → is_zero rc ≡ true
    → problem ≡ none
    → null c.missing_required ≡ false
    → classify rc problem c ≡ (failed, some FailureKind.output_missing)
unfolding classify
classify-missing rc problem c fine p missing = rw (fine, p, missing) refl

module _ {W : Type 0} (m : Machine W) (rounds : ℕ) (job : Job) (run : RunPaths) (attempt : ℕ) where
  -- The return code that the runner's result gives, as it was read from the host.
  abbrev pub Returned : ℤ → Type 0
  Returned c =
      (r : CommandResult) × (before : W) × (after : W) × (duration : ℕ) × (m.transport.run
          (codes "cat" ∷ result run ∷ []) default before
        ≡ (ok r, after))
      × (m.read_result r.stdout ≡ some (c, duration))

  -- What a result may say: the command returned 0 and each required output was there; it failed; it
  -- returned 0, but the outputs were not collected, or a required one was not there; or it timed out.
  pub data Verdict (a : AttemptResult) : Type 0 where
    success :
        (c : ℤ)
        → Returned c
        → a.returncode ≡ some c
        → is_zero c ≡ true
        → AreThere m rounds attempt job.outputs
        → a.status ≡ succeeded
        → a.failure_kind ≡ none
        → a.error ≡ none
        → Verdict a
    failure :
        (c : ℤ)
        → Returned c
        → a.returncode ≡ some c
        → is_zero c ≡ false
        → a.status ≡ failed
        → a.failure_kind ≡ some FailureKind.command
        → Verdict a
    uncollected :
        (c : ℤ) (text : Str)
        → Returned c
        → a.returncode ≡ some c
        → is_zero c ≡ true
        → a.status ≡ failed
        → a.failure_kind ≡ some FailureKind.collection
        → a.error ≡ some text
        → Verdict a
    incomplete :
        (c : ℤ)
        → Returned c
        → a.returncode ≡ some c
        → is_zero c ≡ true
        → IsMissing m rounds attempt job.outputs
        → a.status ≡ failed
        → a.failure_kind ≡ some FailureKind.output_missing
        → a.error ≡ none
        → Verdict a
    late :
        a.returncode ≡ none
        → a.status ≡ timed_out
        → a.failure_kind ≡ some FailureKind.timeout
        → Verdict a

  -- A result that is classified as the driver classifies it.
  classify-Verdict :
      (a : AttemptResult) (rc : ℤ) (problem : Option Str) (c : Collected)
      → Returned rc
      → (problem ≡ none → Gathers m rounds attempt job.outputs c)
      → a.returncode ≡ some rc
      → a.status ≡ (classify rc problem c).0
      → a.failure_kind ≡ (classify rc problem c).1
      → a.error ≡ problem
      → Verdict a
  classify-Verdict a rc problem c read gathered r s k e = elim (Bool-cases (is_zero rc)) [
    | inr bad ↦
        failure rc read r bad (s ∙ ap (λ x. x.0) (classify-bad rc problem c bad))
          (k ∙ ap (λ x. x.1) (classify-bad rc problem c bad))
    | inl fine ↦ elim (Option-cases problem) [
      | inr (text, p) ↦
          let q = classify-problem rc problem c text fine p in
          uncollected rc text read r fine (s ∙ ap (λ x. x.0) q) (k ∙ ap (λ x. x.1) q) (e ∙ p)
      | inl p ↦ elim (Bool-cases (null c.missing_required)) [
        | inl whole ↦
            let q = classify-whole rc problem c fine p whole in
            success rc read r fine ((gathered p).whole whole) (s ∙ ap (λ x. x.0) q)
              (k ∙ ap (λ x. x.1) q) (e ∙ p)
        | inr missing ↦
            let q = classify-missing rc problem c fine p missing in
            incomplete rc read r fine ((gathered p).partial missing) (s ∙ ap (λ x. x.0) q)
              (k ∙ ap (λ x. x.1) q) (e ∙ p)
      ]
    ]
  ]

  same_result :
      {a b : AttemptResult} {w v : W}
      → Path (Result (Option AttemptResult) × W) (ok (some a), w) (ok (some b), v)
      → a ≡ b
  same_result e = ground arith

  run_checked-Returned :
      (r : CommandResult) (x : ℤ × ℕ) (w v u : W)
      → run_checked m rounds (codes "cat" ∷ result run ∷ []) (codes "read result") false w
        ≡ (ok r, v)
      → read_result m rounds r v ≡ (ok x, u)
      → Returned x.0
  unfolding run_checked checked read_result
  run_checked-Returned r x w v u e k =
      let (s, a, ran, p) =
        and_then-ok (m.transport.run (codes "cat" ∷ result run ∷ []) default w)
          (checked m rounds (codes "read result")) e in
      elim (Bool-cases (is_zero s.returncode)) [
        | inr bad ↦ ground arith
        | inl fine ↦
            let same : (s ≡ r) × (a ≡ v) = ground arith in
            elim (Option-cases (m.read_result r.stdout)) [
              | inl q ↦ ground arith
              | inr (y, q) ↦ (
                r,
                w,
                v,
                x.1,
                ran ∙ ap (λ z. (ok z, a)) same.0 ∙ ap (λ z. (ok r, z)) same.1,
                ground arith,
              )
            ]
      ]

  conclude-Verdict :
      (runtime : HostRuntime) (stdout_log stderr_log : Str) (a : AttemptResult) (w v : W)
      → conclude m rounds runtime job run attempt stdout_log stderr_log w ≡ (ok (some a), v)
      → Verdict a
  unfolding conclude
  conclude-Verdict runtime stdout_log stderr_log a w v e =
      let (r, w1, ran, e1) =
        and_then-ok
          (run_checked m rounds (codes "cat" ∷ result run ∷ []) (codes "read result") false w) _
          e in
      let (x, w2, known, e2) = and_then-ok (read_result m rounds r w1) _ e1 in
      let (u, w3, _, e3) = and_then-ok (m.make_staging attempt w2) _ e2 in
      let (y, w4, got, e4) =
        and_then-ok (collect m rounds attempt run stdout_log stderr_log job.outputs w3) _ e3 in
      let (z, w5, _, e5) =
        and_then-ok (publish_success m rounds (classify x.0 y.1 y.0).0 attempt w4) _ e4 in
      let (q, w6, _, e6) =
        and_then-ok (m.write_attempt_json attempt _ y.0.missing_optional w5) _ e5 in
      subst Verdict (same_result e6) (
        classify-Verdict _ x.0 y.1 y.0 (run_checked-Returned r x w w1 w2 ran known)
          (λ none_wrong.
            collect-Gathers m rounds attempt run stdout_log stderr_log job.outputs y.0 w3 w4
              (got ∙ ap (λ z. (ok (y.0, z), w4)) none_wrong))
          refl refl refl refl)

  time_out-Verdict :
      (cleaned : Bool) (host : Str) (timeout : Option ℕ) (stdout_log stderr_log : Str)
      (a : AttemptResult) (w v : W)
      → time_out m rounds cleaned run
          (timeout_result m rounds attempt host timeout stdout_log stderr_log)
          w
        ≡ (ok (some a), v)
      → Verdict a
  unfolding time_out
  time_out-Verdict cleaned host timeout stdout_log stderr_log a w v e =
      let r = timeout_result m rounds attempt host timeout stdout_log stderr_log in
      let (x, w1, _, e1) = and_then-ok (try_pull m rounds (stdout run) stdout_log w) _ e in
      let (y, w2, _, e2) = and_then-ok (try_pull m rounds (stderr run) stderr_log w1) _ e1 in
      let (z, w3, _, e3) = and_then-ok (m.write_attempt_json attempt r [] w2) _ e2 in
      kept cleaned r w3 (late refl refl refl) e3
    where
      kept :
          (cleaned : Bool) (r : AttemptResult) (s : W)
          → Verdict r
          → (if cleaned then pure (some r) else throw (cleanup_timed_out r)) s ≡ (ok (some a), v)
          → Verdict a
      kept true r s d q = subst Verdict (same_result q) d
      kept false r s d q = ground arith

-- The result of `execute_attempt` is a success only if the runner's result, as it was read from the
-- host, gave 0 and each required output was there when its place was looked at. Otherwise it says that
-- the command failed, that the outputs were not collected, that a required one was missing, and then one
-- was not there, or that the attempt timed out.
pub execute_attempt-Verdict :
    {W : Type 0} (m : Machine W) (rounds : ℕ) (runtime : HostRuntime) (job : Job) (batch_id : Str)
    (attempt : ℕ) (stdout_log stderr_log : Str) (check : Option (Action W (Unit {0})))
    (a : AttemptResult) (w v : W)
    → execute_attempt m rounds runtime job batch_id attempt stdout_log stderr_log check w
      ≡ (ok (some a), v)
    → Verdict m rounds job (run_paths runtime.layout batch_id job.id attempt) attempt a
unfolding execute_attempt
execute_attempt-Verdict {W = W} m rounds runtime job batch_id attempt stdout_log stderr_log check a
      w v e =
    let run = run_paths runtime.layout batch_id job.id attempt in
    let env_path = env_venv runtime.layout runtime.environment_digest in
    let (x, w1, _, e1) = and_then-ok (prepare m rounds runtime job run env_path attempt w) _ e in
    let (o, w2, _, e2) =
      and_then-ok
        (invoke m rounds (runner runtime.layout runtime.runner_digest) run job.timeout_s check w1) _
        e1 in
    after o w2 e2
  where
    after :
        (o : Option Ended) (s : W)
        → after_runner m rounds runtime job
            (run_paths runtime.layout batch_id job.id attempt)
            attempt
            stdout_log
            stderr_log
            o
            s
          ≡ (ok (some a), v)
        → Verdict m rounds job (run_paths runtime.layout batch_id job.id attempt) attempt a
    after none s q = ground arith
    after (some in_time) s q =
        conclude-Verdict m rounds job (run_paths runtime.layout batch_id job.id attempt) attempt
          runtime stdout_log stderr_log a s v q
    after (some overdue) s q =
        time_out-Verdict m rounds job (run_paths runtime.layout batch_id job.id attempt) attempt
          true runtime.host job.timeout_s stdout_log stderr_log a s v q
    after (some uncleaned) s q =
        time_out-Verdict m rounds job (run_paths runtime.layout batch_id job.id attempt) attempt
          false runtime.host job.timeout_s stdout_log stderr_log a s v q
