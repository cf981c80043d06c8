-- ===== src/RayBackend/Setup.antt =====
-- `setup` and `_build_runtime`.
pub mod Rollback
use ray_dispatcher.Base.{
  ℕ, zero, ◌+◌, Bool, true, false, ◌||◌, if◌then◌else◌, filter, Option, none, some, List, [], ◌∷◌,
  Str, codes, Dict, get, put, strip,
}
use ray_dispatcher.Values.{RemoteHost, Project, HostProvisioningResult, ProvisioningReport}
use ray_dispatcher.Errors.{
  Exn, ray_conflict, other, Result, ok, raise, Action, pure, throw, catch, caught, ◌>>=◌, ◌>>◌,
}
use ray_dispatcher.Layout.{remote_layout}
use ray_dispatcher.Runtime.{HostRuntime, secret_env_map}
use ray_dispatcher.Transport.{Transport, default}
use ray_dispatcher.Provisioning.Inventory.{
  Outcome, Provider, provision, healthy, raise_if_session_lost, set_session_loss_callback,
  release_all,
}
use ray_dispatcher.RayBackend.{Cluster, SshRay, S, call, fail_if_session_lost}

-- `{h.host: h for h in inventory.hosts}`
pub by_host : List RemoteHost → Dict RemoteHost → Dict RemoteHost
by_host [] d = d
by_host (h ∷ hs) d = by_host hs (put h.host h d)

-- `{h.host: h for h in outcome.report.hosts if h.succeeded}`
pub results_by_host : ProvisioningReport → Dict HostProvisioningResult → Dict HostProvisioningResult
results_by_host [] d = d
results_by_host (r ∷ rs) d = results_by_host rs (put r.host r d)

-- `{name: inv_hosts[name].slots for name in healthy}`; `none` is a KeyError.
pub slots_of : Dict RemoteHost → Dict HostProvisioningResult → Option (Dict ℕ)
slots_of hosts [] = some []
slots_of hosts ((name, r) ∷ rest) = elim (get name hosts) [
  | none ↦ none
  | some h ↦ elim (slots_of hosts rest) [ none ↦ none | some more ↦ some ((name, h.slots) ∷ more) ]
]

pub total : Dict ℕ → ℕ
total [] = zero
total ((name, n) ∷ rest) = n + total rest

module _ {W : Type 0} (cluster : Cluster W) (project : Project) (runner_path : Str) where
  -- `_build_runtime`, from the home directory that the host printed.
  runtime_with : HostProvisioningResult → Str → Str → Action W HostRuntime
  runtime_with r runner_dig home = elim r.environment_digest [
    | none ↦ throw (other (codes "AssertionError"))
    | some env_dig ↦
        let layout = remote_layout home project.project_id in
        pure (record {
          host = r.host;
          layout = layout;
          environment_digest = env_dig;
          runner_digest = runner_dig;
          project_path = project.path;
          secret_env = secret_env_map project layout;
        })
  ]

  pub build_runtime : HostProvisioningResult → Str → Option RemoteHost → Action W HostRuntime
  unfolding runtime_with
  build_runtime r runner_dig none = throw (other (codes "KeyError"))
  build_runtime r runner_dig (some host) = do
    t ← cluster.transport_factory host
    answer ← t.run (codes "sh" ∷ codes "-c" ∷ codes "printf %s \"$HOME\"" ∷ []) default
    runtime_with r runner_dig (strip answer.stdout)

  unfoldable pub build_runtimes :
      Dict RemoteHost → Str → Dict HostProvisioningResult → Action W (Dict HostRuntime)
  unfolding build_runtime
  build_runtimes hosts runner_dig [] = pure []
  build_runtimes hosts runner_dig ((name, r) ∷ rest) = do
    one ← build_runtime r runner_dig (get name hosts)
    more ← build_runtimes hosts runner_dig rest
    pure ((name, one) ∷ more)

module _ {W : Type 0} (cluster : Cluster W) (provider : Provider W) (project : Project)
    (runner_path : Str) (require_all_hosts : Bool) (min_disk_mb : ℕ) (hosts : List RemoteHost) where
  set_hosts : Dict RemoteHost → Action (SshRay W) (Unit {0})
  set_hosts d s = (ok tt, record s { inv_hosts = d })

  set_runtimes : Dict HostRuntime → Action (SshRay W) (Unit {0})
  set_runtimes d s = (ok tt, record s { runtimes = d })

  own_runtime : Action (SshRay W) (Unit {0})
  own_runtime s = (ok tt, record s { owns_runtime = true })

  have_actor : Action (SshRay W) (Unit {0})
  have_actor s = (ok tt, record s { actor = true; sweep_stop = false })

  have_sweeper : Action (SshRay W) (Unit {0})
  have_sweeper s = (ok tt, record s { sweeper = true })

  -- The slots of the healthy hosts.
  pub known_slots : Option (Dict ℕ) → Action (SshRay W) (Dict ℕ)
  known_slots none = throw (other (codes "KeyError"))
  known_slots (some slots) = pure slots

  -- The start of Ray, the actor and the sweeper.
  pub start : Dict ℕ → Action (SshRay W) (Unit {0})
  unfolding own_runtime have_actor have_sweeper total
  start slots = do
    call cluster (cluster.init (total slots))
    own_runtime
    call cluster (cluster.start_actor slots)
    have_actor
    have_sweeper
    call cluster cluster.start_sweeper

  -- The body of the `try`.
  pub set_up : Outcome W → Action (SshRay W) ProvisioningReport
  unfolding set_hosts set_runtimes known_slots start slots_of by_host results_by_host build_runtimes
  set_up o =
      let inv_hosts = by_host hosts [] in
      let well = results_by_host (healthy o.report) [] in
      do
        call cluster (set_session_loss_callback o)
        call cluster (raise_if_session_lost o)
        runner_dig ← call cluster (provider.local.runner_digest runner_path)
        slots ← known_slots (slots_of inv_hosts well)
        set_hosts inv_hosts
        runtimes ←
            call cluster (build_runtimes cluster project runner_path inv_hosts runner_dig well)
        set_runtimes runtimes
        fail_if_session_lost cluster
        start slots
        fail_if_session_lost cluster
        pure o.report

  -- A step of the rollback: what it raises is passed over.
  pub ignored : Action W (Unit {0}) → Action (SshRay W) (Unit {0})
  ignored act s = (ok tt, record s { world = (act s.world).1 })

  pub stop_actor : Action (SshRay W) (Unit {0})
  stop_actor s = (
    ok tt,
    record s {
      sweep_stop = true;
      actor = false;
      world = if s.actor then (cluster.kill_actor s.world).1 else s.world;
    },
  )

  pub drop_outcome : Outcome W → Action (SshRay W) (Unit {0})
  unfolding ignored release_all
  drop_outcome o = ignored (release_all o.sessions) >> λ s. (ok tt, record s { outcome = none })

  pub shut_down : Action W (Unit {0})
  shut_down = do there ← cluster.is_initialized; (if there then cluster.shutdown else pure tt)

  pub drop_runtime : Action (SshRay W) (Unit {0})
  unfolding shut_down
  drop_runtime s = (
    ok tt,
    record s {
      owns_runtime = false;
      runtimes = [];
      inv_hosts = [];
      world = if s.owns_runtime then (cluster.shutdown s.world).1 else (shut_down s.world).1;
    },
  )

  -- The `except BaseException`.
  pub roll_back : Outcome W → Exn → Action (SshRay W) ProvisioningReport
  unfolding stop_actor drop_outcome drop_runtime
  roll_back o e = do stop_actor; drop_outcome o; drop_runtime; throw e

  -- The rest of `setup`, once the hosts are provisioned.
  pub provisioned : Outcome W → Action (SshRay W) ProvisioningReport
  unfolding set_up roll_back
  provisioned o s = catch (set_up o) (roll_back o) (record s { outcome = some o })

  pub fresh_setup : Bool → Action (SshRay W) ProvisioningReport
  unfolding provisioned provision
  fresh_setup force s =
      (call cluster
            (provision provider project runner_path force require_all_hosts min_disk_mb hosts none)
          >>= provisioned)
        (record s { draining = false; session_loss = none })

  -- From whether Ray is initialized.
  pub begun : Bool → Bool → Action (SshRay W) ProvisioningReport
  unfolding fresh_setup
  begun force true = throw (ray_conflict (codes "a Ray runtime is already initialized"))
  begun force false = fresh_setup force

  -- `setup(inventory, project, force=force)`
  unfoldable pub setup : Bool → Action (SshRay W) ProvisioningReport
  unfolding begun
  setup force = call cluster cluster.is_initialized >>= begun force
