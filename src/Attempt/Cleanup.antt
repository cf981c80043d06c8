-- ===== src/Attempt/Cleanup.antt =====
-- What `_invoke_runner` leaves behind when it reports a timeout.
use ray_dispatcher.Base.{
  ℕ, ◌≡◌, ◌≢◌, refl, sym, ap, ◌∙◌, subst, ◌⊎◌, inl, inr, Bool, true, false, Bool-cases, Option,
  none, some, List, [], ◌∷◌, arith, Str, codes, zero, suc,
}
use ray_dispatcher.Errors.{
  Result, ok, raise, and_then, and_then-ok, caught, Action, Exn, timeout_error,
}
use ray_dispatcher.Layout.{RunPaths, pid, manifest}
use ray_dispatcher.Processes.{kill_remote_pgid}
use ray_dispatcher.Processes.Recorded.{Recorded, kill_remote_pgid-Recorded}
use ray_dispatcher.Attempt.{
  Machine, supervise, supervised, joined, lease_check, is_due, after_kill, cleaned_up, interrupt,
  invoke_runner, deadline_of, resolved, run_checked,
}

module _ {W : Type 0} (m : Machine W) (rounds : ℕ) where
  supervised_lem :
      (check : Option (Action W (Unit {0}))) (w v : W)
      → supervised m rounds check w ≢ (ok (some true), v)
  unfolding supervised
  supervised_lem check w v e = reported (m.errors w) refl
    where
      reported : (es : List Exn) → m.errors w ≡ es → ⊥
      reported (x ∷ xs) q = let z = rw (q, supervised) at e in ground arith
      reported [] q =
          let (u, s, _, p) =
            and_then-ok (lease_check m rounds check w) (λ _ s. (ok (some false), s))
              (rw (q, supervised) at e) in
          ground arith

  joined_lem :
      (more : Action W (Option Bool)) (deadline : Option ℕ) (w v : W)
      → ((s : W) → more s ≢ (ok (some true), v))
      → joined m rounds more deadline w ≢ (ok (some true), v)
  unfolding joined
  joined_lem more deadline w v ih e = elim (Bool-cases (is_due m rounds deadline w)) [
    | inl due ↦ let z = rw due at e in ground arith
    | inr early ↦ ih _ (rw early at e)
  ]

  supervise_lem :
      (n : ℕ) (check : Option (Action W (Unit {0}))) (deadline : Option ℕ) (w v : W)
      → supervise m rounds n check deadline w ≢ (ok (some true), v)
  unfolding supervise
  supervise_lem zero check deadline w v e = elim (Bool-cases (m.alive w)) [
    | inl on ↦ let z = rw on at e in ground arith
    | inr off ↦ supervised_lem check w v (rw off at e)
  ]
  supervise_lem (suc n) check deadline w v e =
      let more = supervise m rounds n check deadline in
      elim (Bool-cases (m.alive w)) [
        | inl on ↦
            let (u, s, _, p) =
              and_then-ok (lease_check m rounds check w) (λ _. joined m rounds more deadline)
                (rw on at e) in
            joined_lem more deadline s v (λ r. supervise_lem n check deadline r v) p
        | inr off ↦ supervised_lem check w v (rw off at e)
      ]

  -- The group that the pid file names was confirmed to be gone, and the worker has ended since.
  pub record CleanedUp (run : RunPaths) (v : W) : Type 0 where
    pub before : W
    pub after : W
    pub killed : Recorded m.transport m.clock m.read_pgid (pid run) before after
    pub ended :
        ((m.started after ≡ false) × (v ≡ after)) ⊎ ((v ≡ m.join 50 after) × (m.alive v ≡ false))

  after_kill-CleanedUp :
      (run : RunPaths) (x : Exn) (o : Option Bool) (w s v : W)
      → kill_remote_pgid m.transport m.clock rounds m.read_pgid 1000 50 (pid run) 50 5 w ≡ (ok o, s)
      → after_kill m rounds x o s ≡ (ok (some true), v)
      → CleanedUp run v
  unfolding after_kill cleaned_up
  after_kill-CleanedUp run x none w s v k e = ground arith
  after_kill-CleanedUp run x (some false) w s v k e = ground arith
  after_kill-CleanedUp run x (some true) w s v k e = elim (Bool-cases (m.started s)) [
    | inr never ↦ record {
      before = recorded.0;
      after = s;
      killed = recorded.1;
      ended = inl (never, resolved_end x s (rw never at e));
    }
    | inl begun ↦ elim (Bool-cases (m.alive (m.join 50 s))) [
      | inl on ↦ let z = rw (begun, on) at e in ground arith
      | inr off ↦
          let q = resolved_end x (m.join 50 s) (rw (begun, off) at e) in
          record {
            before = recorded.0;
            after = s;
            killed = recorded.1;
            ended = inr (q, subst (λ r. m.alive r ≡ false) (sym q) off);
          }
    ]
  ]
    where
      recorded : (before : W) × Recorded m.transport m.clock m.read_pgid (pid run) before s
      recorded =
          kill_remote_pgid-Recorded m.transport m.clock m.read_pgid rounds 1000 50 (pid run) 50 5 w
            s k

      resolved_end : (x : Exn) (s : W) → resolved m rounds x s ≡ (ok (some true), v) → v ≡ s
      resolved_end (timeout_error text) s q = sym (ap (λ z. z.1) q)
      resolved_end y s q = ground arith

  -- When `_invoke_runner` reports a timeout, the pid file was read, a `kill -0` of the group that it
  -- names then found no such group, and after it the worker thread has ended, or was never started.
  pub invoke_runner-CleanedUp :
      (runner_path : Str) (run : RunPaths) (timeout : Option ℕ)
      (check : Option (Action W (Unit {0}))) (w v : W)
      → invoke_runner m rounds runner_path run timeout check w ≡ (ok (some true), v)
      → CleanedUp run v
  unfolding invoke_runner interrupt
  invoke_runner-CleanedUp runner_path run timeout check w v e =
      let command =
        run_checked m rounds (codes "python3" ∷ runner_path ∷ manifest run ∷ [])
          (codes "invoke runner") true in
      let deadline = deadline_of m rounds timeout w in
      tried (and_then (m.start command w) (λ _. supervise m rounds rounds check deadline)) refl
    where
      tried :
          (o : Result (Option Bool) × W)
          → and_then
              (m.start
                (run_checked m rounds
                  (codes "python3" ∷ runner_path ∷ manifest run ∷ [])
                  (codes "invoke runner")
                  true)
                w)
              (λ _. supervise m rounds rounds check (deadline_of m rounds timeout w))
            ≡ o
          → CleanedUp run v
      tried (ok r, s) q =
          let (u, s', _, p) = and_then-ok (m.start _ w) _ q in
          absurd (
            supervise_lem rounds check (deadline_of m rounds timeout w) s' v
              (p ∙ sym (ap (λ z. caught z (interrupt m rounds run)) q) ∙ e))
      tried (raise x, s) q =
          let (o, s', k, p) =
            and_then-ok
              (kill_remote_pgid m.transport m.clock rounds m.read_pgid 1000 50 (pid run) 50 5 s)
              (after_kill m rounds x) (sym (ap (λ z. caught z (interrupt m rounds run)) q) ∙ e) in
          after_kill-CleanedUp run x o s s' v k p
