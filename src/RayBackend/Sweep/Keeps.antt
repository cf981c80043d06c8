-- ===== src/RayBackend/Sweep/Keeps.antt =====
-- What a drain leaves alone: the runtime, the actor and the sessions.
use ray_dispatcher.Base.{
  ℕ, zero, suc, ◌-◌, ◌+◌, map, leb, inl, inr, Bool, true, false, Option, some, List, [], ◌∷◌, Str,
  Dict, Bool-cases,
}
use ray_dispatcher.Processes.{Reader}
use ray_dispatcher.RayBackend.{Cluster, call, request_cancel}
use ray_dispatcher.RayBackend.Sweep.{
  left_of, drained, nap, end_round, look, after_sweep, with_actor, after_wait, sweep_actor, swept,
  sweep_once, drain_loop, cancel_pending, drain_jobs, Loop,
}
use ray_dispatcher.RayBackend.Held.{Held-refl, Holds, Holds-then, call-Holds, request_cancel-Holds}

module _ {W : Type 0} (cluster : Cluster W) (read : Reader) (grace poll rounds tick : ℕ) where
  cancel_pending-Holds :
      (refs : Dict ℕ) → Holds (cancel_pending cluster read grace poll rounds tick refs)
  unfolding cancel_pending
  cancel_pending-Holds [] s = Held-refl s
  cancel_pending-Holds ((token, ref) ∷ refs) s =
      Holds-then (request_cancel cluster token ref) _ (request_cancel-Holds cluster token ref)
        (λ _. cancel_pending-Holds refs) s

  -- A round of the loop, from what follows it.
  abbrev Goes : Loop cluster read grace poll rounds tick → Type 0
  Goes more = (ps : List ℕ) → Holds (more ps)

  end_round-Holds :
      (more : Loop cluster read grace poll rounds tick) (deadline : ℕ) (ps : List ℕ)
      (active : Dict Str) (hosts : List Str)
      → Goes more
      → Holds (end_round cluster read grace poll rounds tick more deadline ps active hosts)
  unfolding end_round
  end_round-Holds more deadline ps active hosts ih s =
      elim (Bool-cases (drained cluster read grace poll rounds tick ps active hosts)) [
        | inl over ↦ rw over (Held-refl s)
        | inr goes_on ↦ rw goes_on (
            Holds-then (call cluster (nap cluster read grace poll rounds tick deadline))
              (λ _. more ps) (call-Holds cluster (nap cluster read grace poll rounds tick deadline))
              (λ _. ih ps) s)
      ]

  look-Holds :
      (more : Loop cluster read grace poll rounds tick) (deadline : ℕ) (ps : List ℕ)
      (active : Dict Str)
      → Goes more
      → Holds (look cluster read grace poll rounds tick more deadline ps active)
  unfolding look
  look-Holds more deadline ps active ih s =
      elim (Bool-cases (leb deadline (cluster.clock.now s.world))) [
        | inl late ↦ rw late (ih ps s)
        | inr soon ↦
            let ask_hosts =
              cluster.quarantined_hosts (some (deadline - cluster.clock.now s.world)) in
            rw soon (
              Holds-then (call cluster ask_hosts)
                (end_round cluster read grace poll rounds tick more deadline ps active)
                (call-Holds cluster ask_hosts)
                (λ hosts. end_round-Holds more deadline ps active hosts ih) s)
      ]

  after_sweep-Holds :
      (more : Loop cluster read grace poll rounds tick) (deadline : ℕ) (ps : List ℕ)
      → Goes more
      → Holds (after_sweep cluster read grace poll rounds tick more deadline ps)
  unfolding after_sweep
  after_sweep-Holds more deadline ps ih s =
      elim (Bool-cases (leb deadline (cluster.clock.now s.world))) [
        | inl late ↦ rw late (ih ps s)
        | inr soon ↦
            let ask_hosts = cluster.current_hosts (some (deadline - cluster.clock.now s.world)) in
            rw soon (
              Holds-then (call cluster ask_hosts)
                (look cluster read grace poll rounds tick more deadline ps)
                (call-Holds cluster ask_hosts) (λ active. look-Holds more deadline ps active ih) s)
      ]

  swept-Holds :
      (deadline : Option ℕ) (actor : Bool)
      → Holds (swept cluster read grace poll rounds tick deadline actor)
  unfolding swept
  swept-Holds deadline false s = Held-refl s
  swept-Holds deadline true s =
      call-Holds cluster (sweep_actor cluster read grace poll rounds tick s.inv_hosts deadline) s

  with_actor-Holds :
      (more : Loop cluster read grace poll rounds tick) (deadline : ℕ) (ps : List ℕ) (actor : Bool)
      → Goes more
      → Holds (with_actor cluster read grace poll rounds tick more deadline ps actor)
  unfolding with_actor sweep_once
  with_actor-Holds more deadline ps true ih s =
      Holds-then (sweep_once cluster read grace poll rounds tick (some deadline))
        (λ _. after_sweep cluster read grace poll rounds tick more deadline ps)
        (λ t. swept-Holds (some deadline) t.actor t) (λ _. after_sweep-Holds more deadline ps ih) s
  with_actor-Holds more deadline [] false ih s = Held-refl s
  with_actor-Holds more deadline (r ∷ rs) false ih s = Held-refl s

  drain_loop-Holds :
      (n deadline : ℕ) → Goes (drain_loop cluster read grace poll rounds tick n deadline)
  unfolding drain_loop after_wait
  drain_loop-Holds zero deadline ps s = Held-refl s
  drain_loop-Holds (suc n) deadline ps s =
      elim (Bool-cases (leb deadline (cluster.clock.now s.world))) [
        | inl late ↦ rw late (Held-refl s)
        | inr soon ↦
            let more = drain_loop cluster read grace poll rounds tick n deadline in
            let wait = left_of cluster read grace poll rounds tick ps deadline in
            rw soon (
              Holds-then (call cluster wait)
                (after_wait cluster read grace poll rounds tick more deadline)
                (call-Holds cluster wait)
                (λ left t.
                  with_actor-Holds more deadline left t.actor (drain_loop-Holds n deadline) t)
                s)
      ]

  pub drain_jobs-Holds :
      (timeout n : ℕ) → Holds (drain_jobs cluster read grace poll rounds tick timeout n)
  unfolding drain_jobs
  drain_jobs-Holds timeout n s =
      Holds-then (cancel_pending cluster read grace poll rounds tick s.refs) _
        (cancel_pending-Holds s.refs)
        (λ _. drain_loop-Holds n (cluster.clock.now s.world + timeout) (map (λ e. e.1) s.refs)) s
