-- ===== src/RayBackend/Sweep/Drained.antt =====
-- That `_drain_jobs` returns only when nothing is left.
use ray_dispatcher.Base.{
  ℕ, zero, suc, ◌+◌, ◌-◌, leb, min, ◌==◌, Elem, ◌≡◌, ◌⊎◌, refl, sym, ap, ◌∙◌, subst, inl, inr, Bool,
  true, false, ◌&&◌, null, some, List, [], ◌∷◌, map, Str, Dict, arith, Bool-cases,
}
use ray_dispatcher.Errors.{ok, Action, and_then-ok}
use ray_dispatcher.Processes.{Reader}
use ray_dispatcher.RayBackend.{Cluster, SshRay, call}
use ray_dispatcher.RayBackend.Sweep.{
  left_of, drained, nap, end_round, look, after_sweep, with_actor, after_wait, sweep_once,
  drain_loop, cancel_pending, drain_jobs, Loop,
}

module _ {W : Type 0} (cluster : Cluster W) where
  -- The last thing that was seen: no lease is current, and after it no host is quarantined.
  pub record Empty (w : W) : Type 0 where
    pub timeout : ℕ
    pub later : ℕ
    pub before : W
    pub between : W
    pub none_active : cluster.current_hosts (some timeout) before ≡ (ok [], between)
    pub none_quarantined : cluster.quarantined_hosts (some later) between ≡ (ok [], w)

Elem_dec : (r : ℕ) (xs : List ℕ) → Elem r xs ⊎ (Elem r xs → ⊥)
Elem_dec r [] = inr (λ m. m)
Elem_dec r (x ∷ xs) = elim (Bool-cases (x == r)) [
  | inl same ↦ inl (inl (ground arith))
  | inr other ↦ elim (Elem_dec r xs) [
    | inl m ↦ inl (inr m)
    | inr n ↦ inr (λ m. elim m [ inl e ↦ ground arith | inr k ↦ n k ])
  ]
]

module _ {W : Type 0} (cluster : Cluster W) where
  -- A task that was waited for, and was not among those that were left.
  pub record Settled (ref : ℕ) : Type 0 where
    pub tasks : List ℕ
    pub timeout : ℕ
    pub before : W
    pub left : List ℕ
    pub after : W
    pub waited : cluster.wait tasks timeout before ≡ (ok left, after)
    pub asked : Elem ref tasks
    pub over : Elem ref left → ⊥

module _ {W : Type 0} (cluster : Cluster W) (read : Reader) (grace poll rounds tick : ℕ)
    (refs : List ℕ) where
  -- Nothing is left: each task was waited for until it was over, and either the actor saw no
  -- lease and no quarantined host, or there is no actor.
  pub record Drained (s : SshRay W) : Type 0 where
    pub settled : (r : ℕ) → Elem r refs → Settled cluster r
    pub empty : Empty cluster s.world ⊎ (s.actor ≡ false)

  all_null :
      (ps : List ℕ) (d : Dict Str) (hs : List Str)
      → (null ps && null d && null hs) ≡ true
      → (ps ≡ []) × (d ≡ []) × (hs ≡ [])
  all_null [] [] [] h = (refl, refl, refl)
  all_null [] [] (x ∷ hs) h = ground arith
  all_null [] (x ∷ d) hs h = ground arith
  all_null (x ∷ ps) d hs h = ground arith

  call-ok :
      {A : Type 0} (act : Action W A) (s t : SshRay W) (a : A)
      → call cluster act s ≡ (ok a, t)
      → act s.world ≡ (ok a, t.world)
  call-ok act s t a e = ground arith

  -- Each task is still pending, or it is over.
  abbrev Covers : List ℕ → Type 0
  Covers ps = (r : ℕ) → Elem r refs → Elem r ps ⊎ Settled cluster r

  left_of-Covers :
      (ps left : List ℕ) (deadline : ℕ) (w v : W)
      → Covers ps
      → left_of cluster read grace poll rounds tick ps deadline w ≡ (ok left, v)
      → Covers left
  unfolding left_of
  left_of-Covers [] left deadline w v covers e r m = elim (covers r m) [
    | inl none_there ↦ absurd none_there
    | inr over ↦ inr over
  ]
  left_of-Covers (p ∷ ps) left deadline w v covers e r m = elim (covers r m) [
    | inr over ↦ inr over
    | inl pending ↦ elim (Elem_dec r left) [
      | inl still ↦ inl still
      | inr gone ↦ inr (record {
        tasks = p ∷ ps;
        timeout = min tick (deadline - cluster.clock.now w);
        before = w;
        left = left;
        after = v;
        waited = e;
        asked = pending;
        over = gone;
      })
    ]
  ]

  all_over : (ps : List ℕ) → Covers ps → ps ≡ [] → (r : ℕ) → Elem r refs → Settled cluster r
  all_over [] covers e r m = elim (covers r m) [
    | inl none_there ↦ absurd none_there
    | inr over ↦ over
  ]
  all_over (p ∷ ps) covers e r m = ground arith

  -- A loop that returns only when nothing is left.
  abbrev Drains : Loop cluster read grace poll rounds tick → Type 0
  Drains more = (ps : List ℕ) (s t : SshRay W) → Covers ps → more ps s ≡ (ok true, t) → Drained t

  end_round-Drained :
      (more : Loop cluster read grace poll rounds tick) (deadline : ℕ) (pending : List ℕ)
      (active : Dict Str) (quarantined : List Str) (k l : ℕ) (w v : W) (s t : SshRay W)
      → Drains more
      → Covers pending
      → cluster.current_hosts (some k) w ≡ (ok active, v)
      → cluster.quarantined_hosts (some l) v ≡ (ok quarantined, s.world)
      → end_round cluster read grace poll rounds tick more deadline pending active quarantined s
        ≡ (ok true, t)
      → Drained t
  unfolding end_round drained
  end_round-Drained more deadline pending active quarantined k l w v s t ih waited c q e =
      elim (Bool-cases (null pending && null active && null quarantined)) [
        | inl over ↦
            let (no_task, no_lease, no_host) = all_null pending active quarantined over in
            let same : s ≡ t = ap (λ x. x.1) (rw over at e) in
            subst (Drained) same (record {
              settled = all_over pending waited no_task;
              empty = inl (record {
                timeout = k;
                later = l;
                before = w;
                between = v;
                none_active = c ∙ ap (λ x. (ok x, v)) no_lease;
                none_quarantined = q ∙ ap (λ x. (ok x, s.world)) no_host;
              });
            })
        | inr goes_on ↦
            let (u, a, _, p) =
              and_then-ok (call cluster (nap cluster read grace poll rounds tick deadline) s)
                (λ _. more pending) (rw goes_on at e) in
            ih pending a t waited p
      ]

  look-Drained :
      (more : Loop cluster read grace poll rounds tick) (deadline : ℕ) (pending : List ℕ)
      (active : Dict Str) (k : ℕ) (w : W) (s t : SshRay W)
      → Drains more
      → Covers pending
      → cluster.current_hosts (some k) w ≡ (ok active, s.world)
      → look cluster read grace poll rounds tick more deadline pending active s ≡ (ok true, t)
      → Drained t
  unfolding look
  look-Drained more deadline pending active k w s t ih waited c e =
      elim (Bool-cases (leb deadline (cluster.clock.now s.world))) [
        | inl late ↦ ih pending s t waited (rw late at e)
        | inr soon ↦
            let l = deadline - cluster.clock.now s.world in
            let (hosts, a, q, p) =
              and_then-ok (call cluster (cluster.quarantined_hosts (some l)) s)
                (end_round cluster read grace poll rounds tick more deadline pending active)
                (rw soon at e) in
            end_round-Drained more deadline pending active hosts k l w s.world a t ih waited c
              (call-ok (cluster.quarantined_hosts (some l)) s a hosts q) p
      ]

  after_sweep-Drained :
      (more : Loop cluster read grace poll rounds tick) (deadline : ℕ) (pending : List ℕ)
      (s t : SshRay W)
      → Drains more
      → Covers pending
      → after_sweep cluster read grace poll rounds tick more deadline pending s ≡ (ok true, t)
      → Drained t
  unfolding after_sweep
  after_sweep-Drained more deadline pending s t ih waited e =
      elim (Bool-cases (leb deadline (cluster.clock.now s.world))) [
        | inl late ↦ ih pending s t waited (rw late at e)
        | inr soon ↦
            let k = deadline - cluster.clock.now s.world in
            let (active, a, q, p) =
              and_then-ok (call cluster (cluster.current_hosts (some k)) s)
                (look cluster read grace poll rounds tick more deadline pending) (rw soon at e) in
            look-Drained more deadline pending active k s.world a t ih waited
              (call-ok (cluster.current_hosts (some k)) s a active q) p
      ]

  with_actor-Drained :
      (more : Loop cluster read grace poll rounds tick) (deadline : ℕ) (pending : List ℕ)
      (actor : Bool) (s t : SshRay W)
      → Drains more
      → Covers pending
      → s.actor ≡ actor
      → with_actor cluster read grace poll rounds tick more deadline pending actor s ≡ (ok true, t)
      → Drained t
  unfolding with_actor
  with_actor-Drained more deadline pending true s t ih waited there e =
      let (u, a, _, p) =
        and_then-ok (sweep_once cluster read grace poll rounds tick (some deadline) s)
          (λ _. after_sweep cluster read grace poll rounds tick more deadline pending) e in
      after_sweep-Drained more deadline pending a t ih waited p
  with_actor-Drained more deadline [] false s t ih waited there e = record {
    settled = all_over [] waited refl;
    empty = inr (sym (ap (λ x. x.1.actor) e) ∙ there);
  }
  with_actor-Drained more deadline (r ∷ rs) false s t ih waited there e = ground arith

  drain_loop-Drained :
      (n deadline : ℕ) → Drains (drain_loop cluster read grace poll rounds tick n deadline)
  unfolding drain_loop after_wait
  drain_loop-Drained zero deadline ps s t covers e = ground arith
  drain_loop-Drained (suc n) deadline ps s t covers e =
      elim (Bool-cases (leb deadline (cluster.clock.now s.world))) [
        | inl late ↦ ground arith
        | inr soon ↦
            let more = drain_loop cluster read grace poll rounds tick n deadline in
            let wait = left_of cluster read grace poll rounds tick ps deadline in
            let (left, a, q, p) =
              and_then-ok (call cluster wait s)
                (after_wait cluster read grace poll rounds tick more deadline) (rw soon at e) in
            with_actor-Drained more deadline left a.actor a t (drain_loop-Drained n deadline)
              (left_of-Covers ps left deadline s.world a.world covers (call-ok wait s a left q))
              refl p
      ]

-- `_drain_jobs` returns only when each task was waited for until it was over and, unless there is no
-- actor, the actor then said that no lease is current and after it that no host is quarantined.
pub drain_jobs-Drained :
    {W : Type 0} (cluster : Cluster W) (read : Reader) (grace poll rounds tick timeout n : ℕ)
    (s t : SshRay W)
    → drain_jobs cluster read grace poll rounds tick timeout n s ≡ (ok true, t)
    → Drained cluster read grace poll rounds tick (map (λ x. x.1) s.refs) t
unfolding drain_jobs
drain_jobs-Drained cluster read grace poll rounds tick timeout n s t e =
    let (u, a, _, p) =
      and_then-ok (cancel_pending cluster read grace poll rounds tick s.refs s) _ e in
    drain_loop-Drained cluster read grace poll rounds tick (map (λ x. x.1) s.refs) n
      (cluster.clock.now s.world + timeout) (map (λ x. x.1) s.refs) a t (λ r m. inl m) p
