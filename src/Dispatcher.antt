-- ===== src/Dispatcher.antt =====
-- src/it/unimib/data/nanofaas/ray_dispatcher/dispatcher.py over an ExecutionBackend, the protocol of
-- backends/base.py.
pub mod Submission
pub mod Duplicates
pub mod Results
pub mod Polling
pub mod Closing
use ray_dispatcher.Base.{
  ℕ, zero, suc, ltb, Bool, true, false, not, ◌&&◌, if◌then◌else◌, holds, length, null, filter, any,
  Option, none, some, List, [], ◌∷◌, ◌++◌, map, Str, codes, str_discrete, sort_strs, join, Dict,
  get, put,
}
use ray_dispatcher.Values.{
  Job, JobHandle, JobResult, JobStatus, pending, running, HostProvisioningResult,
  ProvisioningReport,
}
use ray_dispatcher.Errors.{
  Exn, dispatcher_error, model_validation, provisioning_error, batch_exists, batch_failed, other,
  is_exception, Result, ok, raise, Action, pure, throw, catch, ◌>>=◌, ◌>>◌, and_then,
}
use ray_dispatcher.Retry.{has_succeeded}
use ray_dispatcher.Names.{is_valid_job_id}

-- The backend, for one inventory and one project, with the rest that a dispatcher calls: the batch
-- id factory, the claim of a batch directory (false if it exists) and the pause between polls.
pub record Backend (W : Type 0) : Type 0 where
  pub setup : Bool → Action W ProvisioningReport
  pub submit : Str → Job → Action W JobHandle
  pub status : JobHandle → Action W JobStatus
  pub cancel : JobHandle → Action W (Unit {0})
  pub resolve : JobHandle → Action W JobResult
  pub teardown : Bool → Action W (Unit {0})
  pub new_batch_id : Action W Str
  pub claim : Str → Action W Bool
  pub sleep : Action W (Unit {0})

-- The calls of a backend that change its jobs, newest first.
pub data Call : Type 0 where
  submitted : JobHandle → Call
  cancelled : JobHandle → Call
  torn_down : Bool → Call

pub record Dispatcher (W : Type 0) : Type 0 where
  pub setup_done : Bool
  pub setup_report : Option ProvisioningReport
  pub outstanding : List JobHandle
  pub world : W
  pub calls : List Call

-- `Dispatcher(…)`
pub new_dispatcher : {W : Type 0} → W → Dispatcher W
new_dispatcher w = record {
  setup_done = false;
  setup_report = none;
  outstanding = [];
  world = w;
  calls = [];
}

abbrev pub is_terminal : JobStatus → Bool
is_terminal pending = false
is_terminal running = false
is_terminal _ = true

abbrev pub count_str : Str → List Str → ℕ
count_str i [] = 0
count_str i (j ∷ js) = if holds (str_discrete j i) then suc (count_str i js) else count_str i js

-- The ids that occur more than once.
unfoldable pub dupes : List Str → List Str
dupes ids = filter (λ i. ltb 1 (count_str i ids)) ids

pub by_id : List JobResult → Dict JobResult → Dict JobResult
by_id [] d = d
by_id (r ∷ rs) d = by_id rs (put r.id r d)

-- `[results_by_id[job.id] for job in jobs]`; `none` is a KeyError.
pub ordered : Dict JobResult → List Job → Option (List JobResult)
ordered d [] = some []
ordered d (j ∷ js) = elim (get j.id d) [
  | none ↦ none
  | some r ↦ elim (ordered d js) [ none ↦ none | some rs ↦ some (r ∷ rs) ]
]

-- `batch_id` is given and no identifier.
abbrev pub bad_batch_id : Option Str → Bool
bad_batch_id none = false
bad_batch_id (some b) = not (is_valid_job_id b)

module _ {W : Type 0} (backend : Backend W) (raise_on_failure require_all_hosts : Bool) where
  abbrev pub S : Type 0
  S = Dispatcher W

  -- A call that changes no job.
  abbrev pub call : {A : Type 0} → Action W A → Action S A
  call act d = let (r, w) = act d.world in (r, record d { world = w })

  note : Call → Action S (Unit {0})
  note c d = (ok tt, record d { calls = c ∷ d.calls })

  -- `self._backend.cancel(handle)`
  pub cancel : JobHandle → Action S (Unit {0})
  unfolding note
  cancel h = do note (cancelled h); call (backend.cancel h)

  provisioned : ProvisioningReport → Action S (Option ProvisioningReport)
  provisioned report =
      if require_all_hosts
        && not (null (filter (λ (h : HostProvisioningResult). not h.succeeded) report))
      then throw (provisioning_error (codes "host(s) failed provisioning"))
      else λ d. (ok (some report), record d { setup_done = true; setup_report = some report })

  pub setup : Bool → Action S (Option ProvisioningReport)
  unfolding provisioned
  setup force d = elim d.setup_done [
    | true ↦
        if force
        then (raise (dispatcher_error (codes "setup(force=True) rejected")), d)
        else (ok d.setup_report, d)
    | false ↦ (call (backend.setup force) >>= provisioned) d
  ]

  -- What the loop of `submit` does after one `self._backend.submit(…)`; it returns the handles and the
  -- exception that ended it, if any.
  pub after_submit :
      (List JobHandle → S → (List JobHandle × Option Exn) × S)
      → List JobHandle
      → Result JobHandle × S
      → (List JobHandle × Option Exn) × S
  after_submit more handles (ok h, d) =
      more (handles ++ h ∷ [])
        (record d { outstanding = d.outstanding ++ h ∷ []; calls = submitted h ∷ d.calls })
  after_submit more handles (raise e, d) = ((handles, some e), d)

  pub submit_loop : Str → List Job → List JobHandle → S → (List JobHandle × Option Exn) × S
  unfolding after_submit
  submit_loop batch [] handles d = ((handles, none), d)
  submit_loop batch (j ∷ js) handles d =
      after_submit (submit_loop batch js) handles (call (backend.submit batch j) d)

  -- Each cancel is tried, whatever the others raise.
  pub cancel_all : List JobHandle → S → S
  unfolding cancel
  cancel_all [] d = d
  cancel_all (h ∷ hs) d = cancel_all hs (cancel h d).1

  pub settle : (List JobHandle × Option Exn) × S → Result (List JobHandle) × S
  unfolding cancel_all
  settle ((handles, none), d) = (ok handles, d)
  settle ((handles, some e), d) = (raise e, cancel_all handles d)

  -- The `try` of `submit`.
  pub submit_each : Str → List Job → Action S (List JobHandle)
  unfolding submit_loop settle
  submit_each batch jobs d = settle (submit_loop batch jobs [] d)

  pub claimed : Str → List Job → Action S (List JobHandle)
  unfolding submit_each
  claimed batch jobs = do
    new ← call (backend.claim batch)
    if new then submit_each batch jobs else throw (batch_exists batch)

  pub chosen : Option Str → Action S Str
  chosen none = call backend.new_batch_id
  chosen (some b) = pure b

  unfoldable pub submit : List Job → Option Str → Action S (List JobHandle)
  unfolding dupes setup chosen claimed
  submit jobs batch_id =
      if not (null (dupes (map (λ (j : Job). j.id) jobs)))
      then throw (model_validation (codes "duplicate job id(s) in batch"))
      else if bad_batch_id batch_id
      then throw (model_validation (codes "invalid batch_id"))
      else do setup false; batch ← chosen batch_id; claimed batch jobs

  -- What a pass of `as_completed` does with a handle, from whether it is done.
  pub polled :
      JobHandle
      → Action S (List JobResult × List JobHandle)
      → Bool
      → Action S (List JobResult × List JobHandle)
  polled h rest true = do r ← call (backend.resolve h); (rs, left) ← rest; pure (r ∷ rs, left)
  polled h rest false = do (rs, left) ← rest; pure (rs, h ∷ left)

  -- A pass of `as_completed`: the results of the handles that are done, and the other handles.
  pub poll : List JobHandle → Action S (List JobResult × List JobHandle)
  unfolding polled
  poll [] = pure ([], [])
  poll (h ∷ hs) = do st ← call (backend.status h); polled h (poll hs) (is_terminal st)

  -- What `as_completed` does after a pass.
  pub after_poll :
      (List JobHandle → Action S (Option (List JobResult)))
      → List JobResult × List JobHandle
      → Action S (Option (List JobResult))
  after_poll more (rs, []) = pure (some rs)
  after_poll more (rs, k ∷ ks) = do
    call backend.sleep
    later ← more (k ∷ ks)
    pure (elim later [ none ↦ none | some ss ↦ some (rs ++ ss) ])

  -- What `as_completed` yields, in order; `none` if it still polls after the given passes.
  unfoldable pub as_completed : ℕ → List JobHandle → Action S (Option (List JobResult))
  unfolding poll after_poll
  as_completed passes [] = pure (some [])
  as_completed zero (h ∷ hs) = pure none
  as_completed (suc passes) (h ∷ hs) = poll (h ∷ hs) >>= after_poll (as_completed passes)

  -- The end of `run`.
  pub finish : List Job → List JobResult → Action S (List JobResult)
  unfolding by_id ordered
  finish jobs results = elim (ordered (by_id results []) jobs) [
    | none ↦ throw (other (codes "KeyError"))
    | some rs ↦
        if raise_on_failure && any (λ (r : JobResult). not (has_succeeded r.status)) rs
        then throw (batch_failed (codes "batch failed"))
        else pure rs
  ]

  pub finished : List Job → Option (List JobResult) → Action S (Option (List JobResult))
  unfolding finish
  finished jobs none = pure none
  finished jobs (some rs) = do all ← finish jobs rs; pure (some all)

  -- `run`, `none` if it still polls after the given passes.
  unfoldable pub run : ℕ → List Job → Option Str → Action S (Option (List JobResult))
  unfolding submit as_completed finished
  run passes jobs batch_id = do
    handles ← submit jobs batch_id
    results ← as_completed passes handles
    finished jobs results

  -- `[h for h in handles if self._backend.status(h) not in _TERMINAL]`
  unfoldable pub active : List JobHandle → Action S (List JobHandle)
  active [] = pure []
  active (h ∷ hs) =
      let rest = active hs in
      do st ← call (backend.status h); more ← rest; pure (if is_terminal st then more else h ∷ more)

  -- The cancels of `teardown`: one that raises an `Exception` is passed over, another ends it.
  pub cancel_each : List JobHandle → Action S (Unit {0})
  unfolding cancel
  cancel_each [] = pure tt
  cancel_each (h ∷ hs) =
      let rest = cancel_each hs in
      catch (cancel h) (λ e. if is_exception e then pure tt else throw e) >> rest

  pub cleared : Action S (Unit {0})
  cleared d = (ok tt, record d { outstanding = []; setup_done = false; setup_report = none })

  pub tear_down : Bool → Action S (Unit {0})
  unfolding cancel_each note cleared
  tear_down purge d =
      (do cancel_each d.outstanding; note (torn_down purge); call (backend.teardown purge); cleared)
        d

  -- What follows the test of `teardown(purge=True)` for active jobs.
  pub tear_down_idle : Bool → List JobHandle → Action S (Unit {0})
  unfolding tear_down
  tear_down_idle purge busy =
      if null busy
      then tear_down purge
      else throw (dispatcher_error (codes "teardown(purge=True) rejected"))

  unfoldable pub teardown : Bool → Action S (Unit {0})
  unfolding active tear_down_idle
  teardown purge d =
      if purge && not (null d.outstanding)
      then (active d.outstanding >>= tear_down_idle purge) d
      else tear_down purge d

  -- `__exit__`, with the exception in flight.
  unfoldable pub exit : Option Exn → Action S (Unit {0})
  unfolding teardown
  exit in_flight = catch (teardown false) (λ e.
      if is_exception e then (elim in_flight [ none ↦ throw e | some x ↦ pure tt ]) else throw e)
