-- ===== src/Provisioning.antt =====
-- HostProvisioner.provision, ProvisioningOutcome and provision, of
-- src/it/unimib/data/nanofaas/ray_dispatcher/provisioning.py.
pub mod Host
pub mod Inventory
use ray_dispatcher.Base.{
  ◌+◌, ◌==◌, Bool, true, false, not, ◌&&◌, if◌then◌else◌, null, length, filter, Option, none, some,
  List, [], ◌∷◌, ◌++◌, map, Str, codes, join, Dict, get, put, decimal,
}
use ray_dispatcher.Values.{RemoteHost, Project, HostProvisioningResult, ProvisioningReport}
use ray_dispatcher.Errors.{
  Exn, dispatcher_error, configuration_error, provisioning_error, host_in_use, no_healthy_hosts,
  other, is_exception, message, Result, ok, raise, Action, pure, throw, catch, caught, and_then,
  ◌>>=◌, ◌>>◌,
}
use ray_dispatcher.Layout.{RemoteLayout}
use ray_dispatcher.HostSetup.{Provisioner, resolve_layout, preflight}
use ray_dispatcher.HostSetup.Tools.{install_uv, install_python}
use ray_dispatcher.HostSetup.Publish.{sync_source, publish_env, install_runner}
use ray_dispatcher.HostSetup.Secrets.{copy_secrets, post_setup}

-- A SessionLock and its HeartbeatThread.
pub record Session (W : Type 0) : Type 0 where
  pub acquire : Action W (Unit {0})
  pub release : Action W (Unit {0})
  pub start : Action W (Unit {0})
  pub stop : Action W (Unit {0})
  pub raise_if_failed : Action W (Unit {0})
  pub set_failure_callback : Action W (Unit {0})

-- What `provision` of one host reads in its handler: the digests so far, and the world.
pub record Progress (W : Type 0) : Type 0 where
  pub source_dig : Option Str
  pub env_dig : Option Str
  pub world : W

-- A result, with the session of a host that is healthy.
abbrev pub Provisioned : Type 0 → Type 0
Provisioned W = HostProvisioningResult × Option (Session W)

-- A failed HostProvisioningResult.
pub failed_result : Str → Option Str → Option Str → Str → HostProvisioningResult
failed_result host source_dig env_dig error = record {
  host = host;
  succeeded = false;
  source_digest = source_dig;
  environment_digest = env_dig;
  error = some error;
}

-- A step of the cleanup after which `errors` has its message, if it raised an `Exception`.
pub tried : {W : Type 0} → Str → Action W (Unit {0}) → List Str → Action W (List Str)
tried what act errors =
    catch (act >> pure errors)
      (λ e. if is_exception e then pure (errors ++ (what ++ message e) ∷ []) else throw e)

module _ {W : Type 0} (self : Provisioner W) (session : Session W) where
  abbrev pub call : {A : Type 0} → Action W A → Action (Progress W) A
  call act p = let (r, w) = act p.world in (r, record p { world = w })

  -- A step of the `try`, and the look at the heartbeat after it.
  pub checkpoint : Action (Progress W) (Unit {0})
  checkpoint = call session.raise_if_failed

  pub set_source : Str → Action (Progress W) (Unit {0})
  set_source d p = (ok tt, record p { source_dig = some d })

  pub set_env : Str → Action (Progress W) (Unit {0})
  set_env d p = (ok tt, record p { env_dig = some d })

  -- The body of the `try`, from where the environment is published.
  unfoldable pub last_steps : RemoteLayout → Str → Action (Progress W) (Unit {0})
  unfolding checkpoint set_env
  last_steps lo uv = do
    env ← call (publish_env self lo uv)
    set_env env
    checkpoint
    call (install_runner self lo)
    checkpoint
    call (copy_secrets self lo)
    checkpoint
    call (post_setup self lo env)
    checkpoint

  -- The body of the `try`.
  pub steps : Action (Progress W) (Unit {0})
  unfolding checkpoint set_source
  steps = do
    lo ← call (resolve_layout self)
    checkpoint
    call (preflight self lo)
    checkpoint
    uv ← call (install_uv self lo)
    checkpoint
    call (install_python self uv)
    checkpoint
    source ← call (sync_source self lo)
    set_source source
    checkpoint
    last_steps lo uv

  -- The error of a failed step, with those of the cleanup.
  with_cleanup : Str → List Str → Str
  with_cleanup error [] = error
  with_cleanup error (e ∷ es) = error ++ codes "; cleanup failed: " ++ join (codes "; ") (e ∷ es)

  -- The `except Exception`: the heartbeat is stopped before the lock is released, and both are tried.
  pub clean_up : Exn → Option Str → Option Str → Action W (Provisioned W)
  unfolding tried with_cleanup failed_result
  clean_up e source_dig env_dig = do
    first ← tried (codes "heartbeat stop failed: ") session.stop []
    errors ← tried (codes "session lock release failed: ") session.release first
    pure (failed_result self.host.host source_dig env_dig (with_cleanup (message e) errors), none)

  -- What follows the `try`, from how its body ended.
  pub conclude : Result (Unit {0}) × Progress W → Result (Provisioned W) × W
  unfolding clean_up
  conclude (ok u, p) = (
    ok (
      record {
        host = self.host.host;
        succeeded = true;
        source_digest = p.source_dig;
        environment_digest = p.env_dig;
        error = none;
      },
      some session,
    ),
    p.world,
  )
  conclude (raise e, p) =
      if is_exception e then clean_up e p.source_dig p.env_dig p.world else (raise e, p.world)

  -- From the lock on.
  pub locked : Action W (Provisioned W)
  unfolding steps conclude
  locked = session.start >> λ w.
      conclude (steps (record { source_dig = none; env_dig = none; world = w }))

  -- The exception that `lock.acquire()` raised.
  pub not_locked : Exn → Action W (Provisioned W)
  not_locked (host_in_use m) = pure (failed_result self.host.host none none m, none)
  not_locked e = throw e

  pub after_acquire : Result (Unit {0}) × W → Result (Provisioned W) × W
  unfolding locked not_locked
  after_acquire (ok u, w) = locked w
  after_acquire (raise e, w) = not_locked e w

  -- `HostProvisioner.provision()`
  unfoldable pub provision_host : Action W (Provisioned W)
  unfolding after_acquire
  provision_host w = after_acquire (session.acquire w)
