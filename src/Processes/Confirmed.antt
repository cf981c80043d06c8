-- ===== src/Processes/Confirmed.antt =====
-- That a process group counts as gone only after a probe said so.
use ray_dispatcher.Base.{
  ℕ, zero, suc, ◌≡◌, refl, ap, ◌∙◌, subst, Bool, true, false, not, Option, none, some, List, [],
  ◌∷◌, arith, ℤ, is_zero, ltb, leb, Bool-cases, inl, inr, ◌-◌, Str, codes, decimal, ◌++◌,
}
use ray_dispatcher.Errors.{Result, ok, and_then-ok, Action}
use ray_dispatcher.Transport.{CommandResult, Transport, Timeout, default, seconds}
use ray_dispatcher.Processes.{
  Clock, signal_argv, command, kill, gone, waited, wait_gone, finally_kill, last_pause, grace_end,
  after_term, terminate_process_group,
}

module _ {W : Type 0} (t : Transport W) (clock : Clock W) where
  -- The last thing that happened is a `kill -0` of this group, and the group was not there.
  pub record Confirmed (pgid : ℕ) (w : W) : Type 0 where
    pub timeout : Timeout
    pub before : W
    pub result : CommandResult
    pub ran :
        t.run (codes "kill" ∷ codes "-0" ∷ (codes "-" ++ decimal pgid) ∷ []) timeout before
        ≡ (ok result, w)
    pub missing : is_zero result.returncode ≡ false

  command-ran :
      (deadline : Option ℕ) (argv : List Str) (w v : W) (r : CommandResult)
      → command t clock deadline argv w ≡ (ok r, v)
      → (timeout : Timeout) × (t.run argv timeout w ≡ (ok r, v))
  unfolding command
  command-ran none argv w v r e = (default, e)
  command-ran (some d) argv w v r e = elim (Bool-cases (leb d (clock.now w))) [
    | inl late ↦ ground arith
    | inr soon ↦ (seconds (d - clock.now w), rw soon at e)
  ]

  gone-Confirmed :
      (deadline : Option ℕ) (pgid : ℕ) (w v : W)
      → gone t clock deadline pgid w ≡ (ok true, v)
      → Confirmed pgid v
  unfolding gone kill signal_argv
  gone-Confirmed deadline pgid w v e =
      let (r, s, q, p) =
        and_then-ok (command t clock deadline (signal_argv (codes "-0") pgid) w) _ e in
      let (timeout, ran) = command-ran deadline _ w s r q in
      record {
        timeout = timeout;
        before = w;
        result = r;
        ran = ran ∙ ap (λ x. (ok r, x.1)) p;
        missing = negated r.returncode (ap (λ x. x.0) p);
      }
    where
      negated : (c : ℤ) → Path (Result Bool) (ok (not (is_zero c))) (ok true) → is_zero c ≡ false
      negated c q = ground arith

  same_end : {A : Type 0} {a b : A} {w v : W} → Path (Result A × W) (ok a, w) (ok b, v) → w ≡ v
  same_end e = ap (λ x. x.1) e

  waited-Confirmed :
      (more : Action W (Option Bool)) (pgid : ℕ)
      → ((w v : W) → more w ≡ (ok (some true), v) → Confirmed pgid v)
      → (deadline : Option ℕ) (limit poll : ℕ) (over : Bool) (w s v : W)
      → gone t clock deadline pgid w ≡ (ok over, s)
      → waited t clock more limit poll over s ≡ (ok (some true), v)
      → Confirmed pgid v
  unfolding waited
  waited-Confirmed more pgid ih deadline limit poll true w s v q p =
      subst (Confirmed pgid) (same_end p) (gone-Confirmed deadline pgid w s q)
  waited-Confirmed more pgid ih deadline limit poll false w s v q p = ih _ v p

  wait_gone-Confirmed :
      (rounds : ℕ) (deadline : Option ℕ) (pgid poll limit : ℕ) (w v : W)
      → wait_gone t clock rounds deadline pgid poll limit w ≡ (ok (some true), v)
      → Confirmed pgid v
  unfolding wait_gone
  wait_gone-Confirmed zero deadline pgid poll limit w v e = ground arith
  wait_gone-Confirmed (suc rounds) deadline pgid poll limit w v e =
      let more = wait_gone t clock rounds deadline pgid poll limit in
      elim (Bool-cases (ltb (clock.now w) limit)) [
        | inr late ↦ ground arith
        | inl soon ↦
            let (over, s, q, p) =
              and_then-ok (gone t clock deadline pgid w) (waited t clock more limit poll)
                (rw soon at e) in
            waited-Confirmed more pgid (wait_gone-Confirmed rounds deadline pgid poll limit)
              deadline limit poll over w s v q p
      ]

  bare :
      (over : Bool) (z v : W)
      → Path (Result (Option Bool) × W) (ok (some over), z) (ok (some true), v)
      → Path (Result Bool × W) (ok over, z) (ok true, v)
  bare over z v e = ground arith

  finally_kill-Confirmed :
      (deadline : Option ℕ) (pgid poll : ℕ) (o : Option Bool) (s v : W)
      → (o ≡ some true → Confirmed pgid s)
      → finally_kill t clock deadline pgid poll o s ≡ (ok (some true), v)
      → Confirmed pgid v
  unfolding finally_kill
  finally_kill-Confirmed deadline pgid poll none s v c e = ground arith
  finally_kill-Confirmed deadline pgid poll (some true) s v c e =
      subst (Confirmed pgid) (same_end e) (c refl)
  finally_kill-Confirmed deadline pgid poll (some false) s v c e =
      let (r, a, _, p) = and_then-ok (kill t clock deadline (codes "-KILL") pgid s) _ e in
      let (u, b, _, p') = and_then-ok (last_pause t clock deadline poll a) _ p in
      let (over, z, q, p'') = and_then-ok (gone t clock deadline pgid b) _ p' in
      gone-Confirmed deadline pgid b v (q ∙ bare over z v p'')

  after_term-Confirmed :
      (rounds : ℕ) (deadline : Option ℕ) (pgid grace poll : ℕ) (over : Bool) (w s v : W)
      → gone t clock deadline pgid w ≡ (ok over, s)
      → after_term t clock rounds deadline pgid grace poll over s ≡ (ok (some true), v)
      → Confirmed pgid v
  unfolding after_term
  after_term-Confirmed rounds deadline pgid grace poll true w s v q e =
      subst (Confirmed pgid) (same_end e) (gone-Confirmed deadline pgid w s q)
  after_term-Confirmed rounds deadline pgid grace poll false w s v q e =
      let limit = grace_end t clock deadline grace poll s in
      let (o, a, p, e') =
        and_then-ok (wait_gone t clock rounds deadline pgid poll limit s)
          (finally_kill t clock deadline pgid poll) e in
      finally_kill-Confirmed deadline pgid poll o a v
        (λ z.
          wait_gone-Confirmed rounds deadline pgid poll limit s a
            (subst (λ x. wait_gone t clock rounds deadline pgid poll limit s ≡ (ok x, a)) z p))
        e'

  -- `terminate_process_group` returns True only right after a `kill -0` of the group it was given that
  -- found no such group.
  pub terminate_process_group-Confirmed :
      (rounds : ℕ) (deadline : Option ℕ) (pgid grace poll : ℕ) (w v : W)
      → terminate_process_group t clock rounds deadline pgid grace poll w ≡ (ok (some true), v)
      → Confirmed pgid v
  unfolding terminate_process_group
  terminate_process_group-Confirmed rounds deadline pgid grace poll w v e =
      let (r, a, _, p) = and_then-ok (kill t clock deadline (codes "-TERM") pgid w) _ e in
      let (over, b, q, p') = and_then-ok (gone t clock deadline pgid a) _ p in
      after_term-Confirmed rounds deadline pgid grace poll over a b v q p'
