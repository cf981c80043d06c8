-- ===== src/Processes/Timely.antt =====
-- That terminate_process_group ends.
use ray_dispatcher.Base.{
  ℕ, zero, suc, ◌+◌, ◌-◌, ◌≤◌, ◌<◌, ◌≡◌, ◌≢◌, refl, min, Bool, true, false, Option, none, some,
  arith, ltb, Bool-cases, inl, inr, List, Str, codes, ap, subst,
}
use ray_dispatcher.Errors.{Result, ok, and_then-ok, Action}
use ray_dispatcher.Transport.{Transport, Timeout, default, seconds}
use ray_dispatcher.Processes.{
  Clock, signal_argv, kill, gone, command, waited, wait_gone, finally_kill, last_pause, grace_end,
  after_term, terminate_process_group,
}

-- A clock that never goes back, and that a sleep puts on by at least its length.
pub record Runs {W : Type 0} (t : Transport W) (clock : Clock W) : Type 0 where
  pub forward :
      (argv : List Str) (timeout : Timeout) (w : W)
      → clock.now w ≤ clock.now (t.run argv timeout w).1
  pub sleeps : (n : ℕ) (w : W) → clock.now w + n ≤ clock.now (clock.sleep n w)

module _ {W : Type 0} (t : Transport W) (clock : Clock W) (f : Runs t clock) where
  gone-forward :
      (deadline : Option ℕ) (pgid : ℕ) (w : W)
      → clock.now w ≤ clock.now (gone t clock deadline pgid w).1
  unfolding gone kill command
  gone-forward none pgid w = ground (arith, f.forward (signal_argv (codes "-0") pgid) default w)
  gone-forward (some d) pgid w =
      ground (arith, f.forward (signal_argv (codes "-0") pgid) (seconds (d - clock.now w)) w)

  waited_lem :
      (more : Action W (Option Bool)) (limit poll rounds : ℕ)
      → 0 < poll
      → ((w v : W) → limit - clock.now w ≤ rounds → more w ≢ (ok none, v))
      → (over : Bool) (s v : W) → limit - clock.now s ≤ suc rounds
      → waited t clock more limit poll over s ≢ (ok none, v)
  unfolding waited
  waited_lem more limit poll rounds pos ih true s v le e = ground arith
  waited_lem more limit poll rounds pos ih false s v le e =
      ih _ v (omega (arith, f.sleeps (min poll (limit - clock.now s)) s)) e

  wait_gone_lem :
      (rounds : ℕ) (deadline : Option ℕ) (pgid poll limit : ℕ)
      → 0 < poll
      → (w v : W) → limit - clock.now w ≤ rounds
      → wait_gone t clock rounds deadline pgid poll limit w ≢ (ok none, v)
  unfolding wait_gone
  wait_gone_lem zero deadline pgid poll limit pos w v le e = ground arith
  wait_gone_lem (suc rounds) deadline pgid poll limit pos w v le e =
      let more = wait_gone t clock rounds deadline pgid poll limit in
      elim (Bool-cases (ltb (clock.now w) limit)) [
        | inr late ↦ ground arith
        | inl soon ↦
            let (over, s, q, p) =
              and_then-ok (gone t clock deadline pgid w) (waited t clock more limit poll)
                (rw soon at e) in
            waited_lem more limit poll rounds pos
              (wait_gone_lem rounds deadline pgid poll limit pos) over s v (later s q) p
      ]
    where
      later :
          {over : Bool} (s : W)
          → gone t clock deadline pgid w ≡ (ok over, s)
          → limit - clock.now s ≤ suc rounds
      later s q =
          let same = ap (λ x. clock.now x.1) q in omega (arith, gone-forward deadline pgid w)

  finally_kill_lem :
      (deadline : Option ℕ) (pgid poll : ℕ) (o : Option Bool) (s v : W)
      → o ≢ none
      → finally_kill t clock deadline pgid poll o s ≢ (ok none, v)
  unfolding finally_kill
  finally_kill_lem deadline pgid poll none s v ne e = ne refl
  finally_kill_lem deadline pgid poll (some true) s v ne e = ground arith
  finally_kill_lem deadline pgid poll (some false) s v ne e =
      let (r, a, _, p) = and_then-ok (kill t clock deadline (codes "-KILL") pgid s) _ e in
      let (u, b, _, p') = and_then-ok (last_pause t clock deadline poll a) _ p in
      let (over, z, q, p'') = and_then-ok (gone t clock deadline pgid b) _ p' in ended over z v p''
    where
      ended :
          (over : Bool) (z v : W)
          → Path (Result (Option Bool) × W) (ok (some over), z) (ok none, v)
          → ⊥
      ended over z v q = ground arith

  after_term_lem :
      (rounds : ℕ) (deadline : Option ℕ) (pgid grace poll : ℕ) (over : Bool) (s v : W)
      → 0 < poll
      → grace ≤ rounds
      → after_term t clock rounds deadline pgid grace poll over s ≢ (ok none, v)
  unfolding after_term grace_end
  after_term_lem rounds deadline pgid grace poll true s v pos le e = ground arith
  after_term_lem rounds deadline pgid grace poll false s v pos le e =
      let limit = grace_end t clock deadline grace poll s in
      let (o, a, p, e') =
        and_then-ok (wait_gone t clock rounds deadline pgid poll limit s)
          (finally_kill t clock deadline pgid poll) e in
      finally_kill_lem deadline pgid poll o a v
        (λ z.
          wait_gone_lem rounds deadline pgid poll limit pos s a (within deadline)
            (subst (λ x. wait_gone t clock rounds deadline pgid poll limit s ≡ (ok x, a)) z p))
        e'
    where
      within : (dl : Option ℕ) → grace_end t clock dl grace poll s - clock.now s ≤ rounds
      within none = ground arith
      within (some d) = ground arith

  -- On a clock that goes on, `terminate_process_group` ends, with an answer or an exception, when it
  -- is given a round for each unit of the grace period and the poll is not zero.
  pub terminate_process_group-ends :
      (rounds : ℕ) (deadline : Option ℕ) (pgid grace poll : ℕ) (w v : W)
      → 0 < poll
      → grace ≤ rounds
      → terminate_process_group t clock rounds deadline pgid grace poll w ≢ (ok none, v)
  unfolding terminate_process_group
  terminate_process_group-ends rounds deadline pgid grace poll w v pos le e =
      let (r, a, _, p) = and_then-ok (kill t clock deadline (codes "-TERM") pgid w) _ e in
      let (over, b, q, p') = and_then-ok (gone t clock deadline pgid a) _ p in
      after_term_lem rounds deadline pgid grace poll over b v pos le p'
