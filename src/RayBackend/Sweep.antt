-- ===== src/RayBackend/Sweep.antt =====
-- `_sweep_once` and `_drain_jobs`.
pub mod Drained
pub mod Readmission
pub mod Keeps
use ray_dispatcher.Base.{
  ℕ, zero, suc, ◌+◌, ◌-◌, min, leb, Bool, true, false, not, ◌&&◌, if◌then◌else◌, null, Option, none,
  some, List, [], ◌∷◌, map, Str, codes, Dict, get,
}
use ray_dispatcher.Values.{RemoteHost}
use ray_dispatcher.Errors.{
  dispatcher_error, other, is_exception, raise, ok, Action, pure, throw, catch, ◌>>=◌, ◌>>◌,
}
use ray_dispatcher.Transport.{Transport}
use ray_dispatcher.Processes.{Clock, Reader, reconcile_host}
use ray_dispatcher.RayBackend.{Cluster, SshRay, S, call, request_cancel, transport_to}

module _ {W : Type 0} (cluster : Cluster W) (read : Reader) (grace poll rounds tick : ℕ) where
  -- `get(ref)` of `_sweep_once`: within what is left until the deadline, if there is one.
  pub within : {A : Type 0} → (Option ℕ → Action W A) → Option ℕ → Action W A
  within act none w = act none w
  within act (some deadline) w =
      if leb deadline (cluster.clock.now w)
      then (raise (dispatcher_error (codes "cleanup deadline expired")), w)
      else act (some (deadline - cluster.clock.now w)) w

  -- `all(reconcile_host(transport, p, …) for p in pid_paths)`: the first that is not confirmed ends it.
  -- A grace period that outlasts the rounds counts as not confirmed.
  pub after_one : Action W Bool → Option Bool → Action W Bool
  after_one rest (some true) = rest
  after_one rest _ = pure false

  pub all_reconciled : Transport W → Option ℕ → List Str → Action W Bool
  unfolding after_one reconcile_host
  all_reconciled t deadline [] = pure true
  all_reconciled t deadline (p ∷ ps) =
      reconcile_host t cluster.clock read rounds deadline grace poll p
      >>= after_one (all_reconciled t deadline ps)

  -- `bool(pid_paths) and all(…)` under its `except Exception`.
  unfoldable pub is_clean : Transport W → Option ℕ → List Str → Action W Bool
  unfolding all_reconciled
  is_clean t deadline [] = pure false
  is_clean t deadline (p ∷ ps) =
      catch (all_reconciled t deadline (p ∷ ps))
        (λ e. if is_exception e then pure false else throw e)

  -- A host is admitted again if it is clean.
  pub readmit : Str → Option ℕ → Bool → Action W (Unit {0})
  unfolding within
  readmit host deadline true = within (cluster.mark_reconciled host) deadline
  readmit host deadline false = pure tt

  -- One quarantined host.
  unfoldable pub sweep_host : Dict RemoteHost → Option ℕ → Str → Action W (Unit {0})
  unfolding within is_clean readmit
  sweep_host hosts deadline host = do
    paths ← within (cluster.orphan_paths host) deadline
    t ← transport_to cluster (get host hosts)
    clean ← is_clean t deadline paths
    readmit host deadline clean

  pub sweep_each : Dict RemoteHost → Option ℕ → List Str → Action W (Unit {0})
  unfolding sweep_host
  sweep_each hosts deadline [] = pure tt
  sweep_each hosts deadline (h ∷ hs) = sweep_host hosts deadline h >> sweep_each hosts deadline hs

  -- `_sweep_once(deadline_s=…)` with an actor.
  pub sweep_actor : Dict RemoteHost → Option ℕ → Action W (Unit {0})
  unfolding within sweep_each
  sweep_actor hosts deadline = do
    within cluster.sweep deadline
    quarantined ← within cluster.quarantined_hosts deadline
    sweep_each hosts deadline quarantined

  pub swept : Option ℕ → Bool → Action (SshRay W) (Unit {0})
  unfolding sweep_actor
  swept deadline false s = (ok tt, s)
  swept deadline true s = call cluster (sweep_actor s.inv_hosts deadline) s

  unfoldable pub sweep_once : Option ℕ → Action (SshRay W) (Unit {0})
  unfolding swept
  sweep_once deadline s = swept deadline s.actor s

  -- A round of `_sweep_loop` after its wait; whether the loop goes on.
  pub sweep_round : Action (SshRay W) Bool
  unfolding sweep_once
  sweep_round =
      catch (sweep_once none >> pure true)
        (λ e s. if is_exception e then (ok (not s.sweep_stop), s) else (raise e, s))

  -- The refs whose cancel `_drain_jobs` asks for.
  pub cancel_pending : Dict ℕ → Action (SshRay W) (Unit {0})
  cancel_pending [] = pure tt
  cancel_pending ((token, ref) ∷ refs) = request_cancel cluster token ref >> cancel_pending refs

  -- The tasks that are left.
  pub left_of : List ℕ → ℕ → Action W (List ℕ)
  left_of [] deadline w = (ok [], w)
  left_of (r ∷ rs) deadline w = cluster.wait (r ∷ rs) (min tick (deadline - cluster.clock.now w)) w

  -- What a round of `_drain_jobs` found: it is over, or it goes on.
  pub drained : List ℕ → Dict Str → List Str → Bool
  drained pending active quarantined = null pending && null active && null quarantined

  -- The loop as it goes on, from the tasks that are pending.
  abbrev pub Loop : Type 0
  Loop = List ℕ → Action (SshRay W) Bool

  pub nap : ℕ → Action W (Unit {0})
  nap deadline w = (ok tt, cluster.clock.sleep (min tick (deadline - cluster.clock.now w)) w)

  -- The end of a round, from what is quarantined.
  pub end_round : Loop → ℕ → List ℕ → Dict Str → List Str → Action (SshRay W) Bool
  unfolding drained nap
  end_round more deadline pending active quarantined =
      if drained pending active quarantined
      then pure true
      else call cluster (nap deadline) >> more pending

  -- A round from the sweep on. The reads of the clock between the calls are the deadline's tests.
  pub look : Loop → ℕ → List ℕ → Dict Str → Action (SshRay W) Bool
  unfolding end_round
  look more deadline pending active s =
      let late = more pending s in
      if leb deadline (cluster.clock.now s.world)
      then late
      else (call cluster (cluster.quarantined_hosts (some (deadline - cluster.clock.now s.world)))
            >>= end_round more deadline pending active)
          s

  pub after_sweep : Loop → ℕ → List ℕ → Action (SshRay W) Bool
  unfolding look
  after_sweep more deadline pending s =
      let late = more pending s in
      if leb deadline (cluster.clock.now s.world)
      then late
      else (call cluster (cluster.current_hosts (some (deadline - cluster.clock.now s.world)))
            >>= look more deadline pending)
          s

  -- A round once the tasks that are left are known, from whether there is an actor.
  pub with_actor : Loop → ℕ → List ℕ → Bool → Action (SshRay W) Bool
  unfolding sweep_once after_sweep
  with_actor more deadline pending true =
      sweep_once (some deadline) >> after_sweep more deadline pending
  with_actor more deadline [] false = pure true
  with_actor more deadline (r ∷ rs) false =
      throw (dispatcher_error (codes "cannot drain jobs without lease actor"))

  pub after_wait : Loop → ℕ → List ℕ → Action (SshRay W) Bool
  unfolding with_actor
  after_wait more deadline pending s = with_actor more deadline pending s.actor s

  -- The `while True`, for at most the rounds given; `false` if it goes on after them.
  pub drain_loop : ℕ → ℕ → Loop
  unfolding left_of after_wait
  drain_loop zero deadline pending s = (ok false, s)
  drain_loop (suc n) deadline pending s =
      let more = drain_loop n deadline in
      if leb deadline (cluster.clock.now s.world)
      then (
        raise (dispatcher_error (codes "remote cleanup not confirmed; session locks retained")),
        s,
      )
      else (call cluster (left_of pending deadline) >>= after_wait more deadline) s

  -- `_drain_jobs()`, with its timeout.
  unfoldable pub drain_jobs : ℕ → ℕ → Action (SshRay W) Bool
  unfolding cancel_pending drain_loop
  drain_jobs timeout n s =
      let deadline = cluster.clock.now s.world + timeout in
      (cancel_pending s.refs >> drain_loop n deadline (map (λ e. e.1) s.refs)) s
