-- ===== src/Dispatcher/Polling.antt =====
-- That `as_completed` ends, and that it resolves every handle once.
use ray_dispatcher.Base.{
  ℕ, suc, zero, ◌+◌, ◌-◌, ◌≤◌, ◌<◌, ◌≡◌, refl, ◌≢◌, ◌∙◌, inl, inr, Bool, true, some, Option, List,
  [], ◌∷◌, ◌++◌, All, arith, map, Str, Bool-cases,
}
use ray_dispatcher.Values.{JobHandle, JobResult, JobStatus}
use ray_dispatcher.Errors.{Result, ok}
use ray_dispatcher.Dispatcher.{
  Backend, Dispatcher, is_terminal, count_str, poll, as_completed, after_poll,
}

-- A backend that, for the handles it knows and while its state is good, answers, resolves a handle to a
-- result of its job, stays good, and whose jobs are all done after a number of pauses, which only gets
-- less. Of other handles, and of other states (a session is lost), nothing is asked.
pub record Finishes {W : Type 0} (backend : Backend W) (left : W → ℕ) (Known : JobHandle → Type 0)
    (Good : W → Type 0) : Type 0 where
  pub tells :
      (h : JobHandle) (w : W)
      → Known h
      → Good w
      → (st : JobStatus) × (v : W) × (backend.status h w ≡ (ok st, v))
        × (left v ≤ left w)
        × (left w ≡ 0 → is_terminal st ≡ true)
        × Good v
  pub resolves :
      (h : JobHandle) (w : W)
      → Known h
      → Good w
      → (r : JobResult) × (v : W) × (backend.resolve h w ≡ (ok r, v))
        × (left v ≤ left w)
        × (r.id ≡ h.job_id)
        × Good v
  pub waits :
      (w : W) → Good w → (v : W) × (backend.sleep w ≡ (ok tt, v)) × (left v ≤ left w - 1) × Good v

-- How many results, and how many handles, are of a job.
abbrev pub results_of : Str → List JobResult → ℕ
results_of k rs = count_str k (map (λ (r : JobResult). r.id) rs)

abbrev pub handles_of : Str → List JobHandle → ℕ
handles_of k hs = count_str k (map (λ (h : JobHandle). h.job_id) hs)

results_of-append :
    (k : Str) (rs ss : List JobResult) → results_of k (rs ++ ss) ≡ results_of k rs + results_of k ss
results_of-append k [] ss = omega arith
results_of-append k (r ∷ rs) ss = ground (arith, results_of-append k rs ss)

module _ {W : Type 0} (backend : Backend W) (raise_on_failure require_all_hosts : Bool)
    (left : W → ℕ) (Known : JobHandle → Type 0) (Good : W → Type 0)
    (f : Finishes backend left Known Good) where
  -- A pass over some handles: none is lost, and none is left when no pause is to come.
  record Passes (hs : List JobHandle) (d : Dispatcher W)
      (o : Result (List JobResult × List JobHandle) × Dispatcher W) : Type 0 where
    yields : List JobResult
    rest : List JobHandle
    after : Dispatcher W
    done : o ≡ (ok (yields, rest), after)
    closer : left after.world ≤ left d.world
    split : (k : Str) → results_of k yields + handles_of k rest ≡ handles_of k hs
    last : left d.world ≡ 0 → rest ≡ []
    known : All Known rest
    good : Good after.world

  poll-Passes :
      (hs : List JobHandle) (d : Dispatcher W)
      → All Known hs
      → Good d.world
      → Passes hs d (poll backend raise_on_failure require_all_hosts hs d)
  unfolding poll
  poll-Passes [] d k g = record {
    yields = [];
    rest = [];
    after = d;
    done = refl;
    closer = omega arith;
    split = λ k. omega arith;
    last = λ z. refl;
    known = tt;
    good = g;
  }
  poll-Passes (h ∷ hs) d known good =
      let (st, v, e, le, final, fine) = f.tells h d.world known.0 good in
      elim (Bool-cases (is_terminal st)) [
        | inl over ↦
            let (r, u, g, le', same, well) = f.resolves h v known.0 fine in
            let p = poll-Passes hs (record d { world = u }) known.1 well in
            record {
              yields = r ∷ p.yields;
              rest = p.rest;
              after = p.after;
              done = rw (e, over, g, p.done) refl;
              closer = omega (arith, p.closer);
              split = λ k. ground (arith, p.split k);
              last = λ z. p.last (omega arith);
              known = p.known;
              good = p.good;
            }
        | inr on ↦
            let p = poll-Passes hs (record d { world = v }) known.1 fine in
            record {
              yields = p.yields;
              rest = h ∷ p.rest;
              after = p.after;
              done = rw (e, on, p.done) refl;
              closer = omega (arith, p.closer);
              split = λ k. ground (arith, p.split k);
              last = λ z. ground (arith, final z);
              known = (known.0, p.known);
              good = p.good;
            }
      ]

  -- What `as_completed` yields: for each id, as many results as handles.
  pub record Resolves (hs : List JobHandle) (o : Result (Option (List JobResult)) × Dispatcher W)
      : Type 0 where
    pub results : List JobResult
    pub after : Dispatcher W
    pub done : o ≡ (ok (some results), after)
    pub each : (k : Str) → results_of k results ≡ handles_of k hs

  after_poll-Resolves :
      (more : List JobHandle → Dispatcher W → Result (Option (List JobResult)) × Dispatcher W)
      (n : ℕ)
      → ((hs : List JobHandle) (d : Dispatcher W)
          → All Known hs
          → Good d.world
          → left d.world < n
          → Resolves hs (more hs d))
      → (hs : List JobHandle) (rs : List JobResult) (rest : List JobHandle) (d : Dispatcher W)
      → All Known rest
      → Good d.world
      → left d.world ≤ n
      → (rest ≢ [] → 0 < n)
      → ((k : Str) → results_of k rs + handles_of k rest ≡ handles_of k hs)
      → Resolves hs (after_poll backend raise_on_failure require_all_hosts more (rs, rest) d)
  unfolding after_poll
  after_poll-Resolves more n ih hs rs [] d known good le ready split = record {
    results = rs;
    after = d;
    done = refl;
    each = λ k. omega (arith, split k);
  }
  after_poll-Resolves more n ih hs rs (h ∷ rest) d known good le ready split =
      let (v, e, less, well) = f.waits d.world good in
      let some_left : 0 < n = ready (λ q. cc) in
      let r = ih (h ∷ rest) (record d { world = v }) known well (omega arith) in
      record {
        results = rs ++ r.results;
        after = r.after;
        done = rw (e, r.done) refl;
        each = λ k. results_of-append k rs r.results ∙ omega (arith, r.each k, split k);
      }

  positive : (n m : ℕ) (rest : List JobHandle) → m < suc n → (m ≡ 0 → rest ≡ []) → rest ≢ [] → 0 < n
  positive zero m rest lt last ne = absurd (ne (last (omega arith)))
  positive (suc n) m rest lt last ne = omega arith

  -- Over a backend that knows the handles, is in a good state and stays so, and whose jobs all end: with
  -- more passes than pauses until they do, `as_completed` ends and yields, for each job id, exactly as
  -- many results as it was given handles.
  pub as_completed-Resolves :
      (passes : ℕ) (hs : List JobHandle) (d : Dispatcher W)
      → All Known hs
      → Good d.world
      → left d.world < passes
      → Resolves hs (as_completed backend raise_on_failure require_all_hosts passes hs d)
  unfolding as_completed
  as_completed-Resolves zero hs d known good lt = absurd (omega arith)
  as_completed-Resolves (suc n) [] d known good lt = record {
    results = [];
    after = d;
    done = refl;
    each = λ k. refl;
  }
  as_completed-Resolves (suc n) (h ∷ hs) d known good lt =
      let p = poll-Passes (h ∷ hs) d known good in
      let more = as_completed backend raise_on_failure require_all_hosts n in
      let r =
        after_poll-Resolves more n (as_completed-Resolves n) (h ∷ hs) p.yields p.rest p.after
          p.known p.good (omega (arith, p.closer)) (positive n (left d.world) p.rest lt p.last)
          p.split in
      rw p.done r
