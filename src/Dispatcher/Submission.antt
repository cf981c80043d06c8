-- ===== src/Dispatcher/Submission.antt =====
-- What `submit` leaves behind, whether it ends well or not.
use ray_dispatcher.Base.{
  ◌≡◌, refl, sym, ap, ◌∙◌, ◌⊎◌, inl, inr, Bool, none, some, Option, List, [], ◌∷◌, ◌++◌, append-nil,
  append_assoc, arith, length, Str,
}
use ray_dispatcher.Values.{Job, JobHandle}
use ray_dispatcher.Errors.{Exn, Result, ok, raise}
use ray_dispatcher.Dispatcher.{
  Backend, Call, submitted, cancelled, Dispatcher, after_submit, submit_loop, cancel_all, settle,
  submit_each,
}

-- The calls that submit some handles in order, the newest first, on top of others.
abbrev pub submits : List JobHandle → List Call → List Call
submits [] cs = cs
submits (h ∷ hs) cs = submits hs (submitted h ∷ cs)

abbrev pub cancels : List JobHandle → List Call → List Call
cancels [] cs = cs
cancels (h ∷ hs) cs = cancels hs (cancelled h ∷ cs)

module _ {W : Type 0} (backend : Backend W) (raise_on_failure require_all_hosts : Bool) where
  -- The handles are the answers of the backend's `submit` to the first jobs, in order, each under the
  -- batch id, and each call in the state that the one before left.
  abbrev pub AreHanded : Str → List Job → W → List JobHandle → Type 0
  AreHanded batch jobs w [] = Unit
  AreHanded batch [] w (h ∷ hs) = ⊥
  AreHanded batch (j ∷ js) w (h ∷ hs) =
      (v : W) × (backend.submit batch j w ≡ (ok h, v)) × AreHanded batch js v hs

  -- The loop of `submit` from a state: it submitted the handles `new`, in order.
  record Loops (batch : Str) (jobs : List Job) (handles : List JobHandle) (d : Dispatcher W)
      (o : (List JobHandle × Option Exn) × Dispatcher W) : Type 0 where
    new : List JobHandle
    kept : o.0.0 ≡ handles ++ new
    tracked : o.1.outstanding ≡ d.outstanding ++ new
    called : o.1.calls ≡ submits new d.calls
    handed : AreHanded batch jobs d.world new
    full : o.0.1 ≡ none → length new ≡ length jobs

  after_submit-Loops :
      (more : List JobHandle → Dispatcher W → (List JobHandle × Option Exn) × Dispatcher W)
      (batch : Str) (j : Job) (js : List Job)
      → ((handles : List JobHandle) (d : Dispatcher W) → Loops batch js handles d (more handles d))
      → (handles : List JobHandle) (d : Dispatcher W) (r : Result JobHandle) (w : W)
      → backend.submit batch j d.world ≡ (r, w)
      → Loops batch (j ∷ js) handles d (
          after_submit backend raise_on_failure require_all_hosts more handles
            (r, record d { world = w }))
  unfolding after_submit
  after_submit-Loops more batch j js ih handles d (ok h) w q =
      let next : Dispatcher W = record d {
        world = w;
        outstanding = d.outstanding ++ h ∷ [];
        calls = submitted h ∷ d.calls;
      } in
      let rest = ih (handles ++ h ∷ []) next in
      record {
        new = h ∷ rest.new;
        kept = rest.kept ∙ append_assoc handles (h ∷ []) rest.new;
        tracked = rest.tracked ∙ append_assoc d.outstanding (h ∷ []) rest.new;
        called = rest.called;
        handed = (w, q, rest.handed);
        full = λ e. omega (arith, rest.full e);
      }
  after_submit-Loops more batch j js ih handles d (raise x) w q = record {
    new = [];
    kept = sym (append-nil handles);
    tracked = sym (append-nil d.outstanding);
    called = refl;
    handed = tt;
    full = λ e. cc;
  }

  submit_loop-Loops :
      (batch : Str) (jobs : List Job) (handles : List JobHandle) (d : Dispatcher W)
      → Loops batch jobs handles d
          (submit_loop backend raise_on_failure require_all_hosts batch jobs handles d)
  unfolding submit_loop
  submit_loop-Loops batch [] handles d = record {
    new = [];
    kept = sym (append-nil handles);
    tracked = sym (append-nil d.outstanding);
    called = refl;
    handed = tt;
    full = λ e. refl;
  }
  submit_loop-Loops batch (j ∷ js) handles d =
      let (r, w) = backend.submit batch j d.world in
      after_submit-Loops (submit_loop backend raise_on_failure require_all_hosts batch js) batch j
        js (submit_loop-Loops batch js) handles d r w refl

  cancel_all_lem :
      (hs : List JobHandle) (d : Dispatcher W)
      → let e = cancel_all backend raise_on_failure require_all_hosts hs d in
        (e.calls ≡ cancels hs d.calls) × (e.outstanding ≡ d.outstanding)
  unfolding cancel_all
  cancel_all_lem [] d = (refl, refl)
  cancel_all_lem (h ∷ hs) d = cancel_all_lem hs _

  -- What a submission of some jobs leaves behind.
  pub record Submits (batch : Str) (jobs : List Job) (d : Dispatcher W)
      (o : Result (List JobHandle) × Dispatcher W) : Type 0 where
    pub new : List JobHandle
    pub tracked : o.1.outstanding ≡ d.outstanding ++ new
    pub handed : AreHanded batch jobs d.world new
    -- every job was submitted, or every submitted one was cancelled
    pub settled :
        ((o.0 ≡ ok new) × (length new ≡ length jobs) × (o.1.calls ≡ submits new d.calls))
        ⊎ ((x : Exn) × (o.0 ≡ raise x) × (o.1.calls ≡ cancels new (submits new d.calls)))

  settle-Submits :
      (batch : Str) (jobs : List Job) (d : Dispatcher W)
      (o : (List JobHandle × Option Exn) × Dispatcher W)
      → Loops batch jobs [] d o
      → Submits batch jobs d (settle backend raise_on_failure require_all_hosts o)
  unfolding settle
  settle-Submits batch jobs d ((hs, none), e) l = record {
    new = l.new;
    tracked = l.tracked;
    handed = l.handed;
    settled = inl (ap ok l.kept, l.full refl, l.called);
  }
  settle-Submits batch jobs d ((hs, some x), e) l =
      let done = cancel_all_lem hs e in
      record {
        new = l.new;
        tracked = done.1 ∙ l.tracked;
        handed = l.handed;
        settled =
            inr
              (x, refl, done.0 ∙ ap (λ z. cancels z e.calls) l.kept ∙ ap (cancels l.new) l.called);
      }

  -- `submit` in its `try`: the handles are the backend's answers to the jobs, submitted in order under
  -- the batch id. It returns one for each job; or it raises, after a cancel of every handle that it had
  -- submitted. All stay among the outstanding.
  pub submit_each-Submits :
      (batch : Str) (jobs : List Job) (d : Dispatcher W)
      → Submits batch jobs d (submit_each backend raise_on_failure require_all_hosts batch jobs d)
  unfolding submit_each
  submit_each-Submits batch jobs d =
      settle-Submits batch jobs d _ (submit_loop-Loops batch jobs [] d)
