-- ===== src/RayBackend/Teardown.antt =====
-- `_purge_remote_state` and `teardown`.
pub mod Ends
use ray_dispatcher.Base.{
  ℕ, Bool, true, false, ◌&&◌, ◌||◌, if◌then◌else◌, null, Option, none, some, List, [], ◌∷◌, ◌++◌,
  map, Str, codes, ◌/s◌, join, is_zero, strip, str_le, ltb, holds, str_discrete, Dict, get,
}
use ray_dispatcher.Values.{RemoteHost}
use ray_dispatcher.Errors.{
  Exn, dispatcher_error, other, is_exception, is_ray_error, message, Result, ok, raise, Action,
  pure, throw, catch, caught, ◌>>=◌, ◌>>◌,
}
use ray_dispatcher.Runtime.{HostRuntime}
use ray_dispatcher.Transport.{CommandResult, Transport, default}
use ray_dispatcher.Processes.{Reader}
use ray_dispatcher.Provisioning.Inventory.{Outcome, release_all}
use ray_dispatcher.RayBackend.{Cluster, SshRay, S, call, fail_if_session_lost, transport_to}
use ray_dispatcher.RayBackend.Sweep.{drain_jobs}

-- The order of pairs of texts.
pair_le : Str × Str → Str × Str → Bool
pair_le (a, b) (c, d) = if holds (str_discrete a c) then str_le b d else str_le a c

insert_pair : Str × Str → List (Str × Str) → List (Str × Str)
unfolding pair_le
insert_pair x [] = x ∷ []
insert_pair x (y ∷ ys) = if pair_le x y then x ∷ y ∷ ys else y ∷ insert_pair x ys

-- `sorted` of the set that a list has; a pair is listed once.
pub sort_pairs : List (Str × Str) → List (Str × Str)
unfolding insert_pair
sort_pairs [] = []
sort_pairs (x ∷ xs) = insert_pair x (sort_pairs xs)

-- The paths of one host that a purge removes.
pub purge_paths : HostRuntime → List (Str × Str) → List Str
purge_paths runtime submitted =
    runtime.layout.project
    ∷ runtime.layout.secrets
    ∷ map (λ (x : Str × Str). runtime.layout.runs /s x.0 /s x.1) submitted

module _ {W : Type 0} (cluster : Cluster W) (read : Reader) (grace poll rounds tick : ℕ)
    (drain_timeout drain_rounds : ℕ) where
  -- What a host's `rm` adds to the errors.
  purge_answer : Str → CommandResult → List Str
  purge_answer name r =
      if is_zero r.returncode
      then []
      else (let detail = strip r.stderr in
          (name ++ codes ": " ++ (if null detail then strip r.stdout else detail)) ∷ [])

  purge_host : Dict RemoteHost → List (Str × Str) → Str → HostRuntime → Action W (List Str)
  unfolding purge_answer purge_paths
  purge_host hosts submitted name runtime = do
    t ← transport_to cluster (get name hosts)
    r ← t.run (codes "rm" ∷ codes "-rf" ∷ purge_paths runtime submitted) default
    pure (purge_answer name r)

  -- `_purge_remote_state()`: an `Exception` on one host does not keep the others from being purged.
  pub purge_each : Dict RemoteHost → List (Str × Str) → Dict HostRuntime → Action W (List Str)
  unfolding purge_host
  purge_each hosts submitted [] = pure []
  purge_each hosts submitted ((name, runtime) ∷ rest) = do
    errors ←
        catch (purge_host hosts submitted name runtime)
          (λ e. if is_exception e then pure ((name ++ codes ": " ++ message e) ∷ []) else throw e)
    more ← purge_each hosts submitted rest
    pure (errors ++ more)

  pub purge_state : Action (SshRay W) (List Str)
  unfolding purge_each sort_pairs
  purge_state s = call cluster (purge_each s.inv_hosts (sort_pairs s.submitted) s.runtimes) s

  -- The exceptions of the cleanup: the first one is kept.
  pub first_of : Option Exn → Result (Unit {0}) → Option Exn
  first_of none (raise e) = some e
  first_of kept r = kept

  -- A step that is tried, with the first exception so far.
  pub kept : Option Exn → Action W (Unit {0}) → W → Option Exn × W
  unfolding first_of
  kept before act w = let (r, v) = act w in (first_of before r, v)

  pub kill_if : Bool → W → Option Exn × W
  unfolding kept
  kill_if false w = (none, w)
  kill_if true w = kept none cluster.kill_actor w

  pub kill_actor : Action (SshRay W) (Option Exn)
  unfolding kill_if
  kill_actor s =
      let (e, w) = kill_if s.actor s.world in (ok e, record s { actor = false; world = w })

  pub release_if : Option Exn → Option (Outcome W) → W → Option Exn × W
  unfolding kept release_all
  release_if before none w = (before, w)
  release_if before (some o) w = kept before (release_all o.sessions) w

  pub release_sessions : Option Exn → Action (SshRay W) (Option Exn)
  unfolding release_if
  release_sessions before s =
      let (e, w) = release_if before s.outcome s.world in
      (ok e, record s { outcome = none; world = w })

  pub purged : Bool → Action (SshRay W) (List Str)
  unfolding purge_state
  purged true s = purge_state s
  purged false s = (ok [], s)

  pub last_release : Option Exn → List Str → Action (SshRay W) (Option Exn × List Str)
  unfolding release_sessions
  last_release e errors = do f ← release_sessions e; pure (f, errors)

  -- The inner `try` of the cleanup.
  pub clean_up : Bool → Action (SshRay W) (Option Exn × List Str)
  unfolding kill_actor purged last_release
  clean_up purge = do e ← kill_actor; errors ← purged purge; last_release e errors

  pub shut_if : Option Exn → Bool → W → Option Exn × W
  unfolding kept
  shut_if before false w = (before, w)
  shut_if before true w = kept before cluster.shutdown w

  -- The end of the cleanup: `ray.shutdown()`, and the reset of the object.
  pub reset : Option Exn → SshRay W → Option Exn × SshRay W
  unfolding shut_if
  reset before s =
      let (e, w) = shut_if before s.owns_runtime s.world in
      (
        e,
        record s {
          owns_runtime = false;
          runtimes = [];
          inv_hosts = [];
          refs = [];
          submitted = [];
          cancel_requested = [];
          world = w;
        },
      )

  pub verdict : Option Exn → List Str → Result (Unit {0})
  verdict (some e) errors = raise e
  verdict none [] = ok tt
  verdict none (e ∷ es) =
      raise (dispatcher_error (codes "remote purge failed: " ++ join (codes "; ") (e ∷ es)))

  -- What the cleanup came to: an exception of a purge that is no `Exception` passes through.
  pub cleaned : Result (Option Exn × List Str) × SshRay W → Result (Unit {0}) × SshRay W
  unfolding reset verdict
  cleaned (ok (e, errors), s) = let (f, t) = reset e s in (verdict f errors, t)
  cleaned (raise x, s) = let (f, t) = reset none s in (raise x, t)

  pub join_if : Bool → Action (SshRay W) (Unit {0})
  join_if false s = (ok tt, s)
  join_if true s =
      (call cluster cluster.join_sweeper >> λ u. (ok tt, record u { sweeper = false })) s

  pub stop_sweeper : Action (SshRay W) (Unit {0})
  unfolding join_if
  stop_sweeper s = join_if s.sweeper (record s { sweep_stop = true })

  -- `teardown` once the jobs are drained.
  pub finish : Bool → Action (SshRay W) (Unit {0})
  unfolding stop_sweeper clean_up cleaned
  finish purge = stop_sweeper >> λ s. cleaned (clean_up purge s)

  -- The exception that `_drain_jobs` raised.
  pub not_drained : Exn → Action (SshRay W) Bool
  not_drained e =
      if is_ray_error e
      then throw (dispatcher_error (codes "remote cleanup not confirmed: " ++ message e))
      else throw e

  -- A purge looks at the sessions first.
  pub checked : Bool → Action (SshRay W) (Unit {0})
  checked true = fail_if_session_lost cluster
  checked false = pure tt

  pub after_drain : Bool → Bool → Action (SshRay W) (Option (Unit {0}))
  unfolding checked finish
  after_drain purge false = pure none
  after_drain purge true = do checked purge; finish purge; pure (some tt)

  -- `teardown(purge=purge)`, `none` if it still drains after the given rounds.
  unfoldable pub teardown : Bool → Action (SshRay W) (Option (Unit {0}))
  unfolding drain_jobs not_drained after_drain
  teardown purge s =
      (catch (drain_jobs cluster read grace poll rounds tick drain_timeout drain_rounds) not_drained
          >>= after_drain purge)
        (record s { draining = true })
