-- ===== src/Provisioning/Inventory.antt =====
-- ProvisioningOutcome and `provision` over an inventory.
pub mod Release
pub mod Report
use ray_dispatcher.Base.{
  ℕ, ◌==◌, Bool, true, false, not, ◌&&◌, if◌then◌else◌, null, length, filter, Option, none, some,
  List, [], ◌∷◌, ◌++◌, Str, codes, join, Dict, get, put, decimal,
}
use ray_dispatcher.Values.{RemoteHost, Project, HostProvisioningResult, ProvisioningReport}
use ray_dispatcher.Errors.{
  dispatcher_error, configuration_error, provisioning_error, no_healthy_hosts, other, is_exception,
  message, Action, pure, throw, catch, ◌>>=◌, ◌>>◌,
}
use ray_dispatcher.Transport.{Transport}
use ray_dispatcher.HostSetup.{Local, Provisioner}
use ray_dispatcher.Provisioning.{Session, Provisioned, failed_result, tried, provision_host}

-- The sessions are under the labels of their hosts.
pub record Outcome (W : Type 0) : Type 0 where
  pub report : ProvisioningReport
  pub sessions : Dict (Session W)

-- `_label(host)`
unfoldable pub label : RemoteHost → Str
unfolding decimal
label host = host.user ++ codes "@" ++ host.host ++ codes ":" ++ decimal host.port

abbrev pub healthy : ProvisioningReport → ProvisioningReport
healthy report = filter (λ (r : HostProvisioningResult). r.succeeded) report

module _ {W : Type 0} where
  -- The heartbeats in turn, up to the first that failed.
  pub look_each : Dict (Session W) → Action W (Unit {0})
  look_each [] = pure tt
  look_each ((host, s) ∷ rest) = s.raise_if_failed >> look_each rest

  unfoldable pub raise_if_session_lost : Outcome W → Action W (Unit {0})
  unfolding look_each
  raise_if_session_lost o = look_each o.sessions

  set_each : Dict (Session W) → Action W (Unit {0})
  set_each [] = pure tt
  set_each ((host, s) ∷ rest) = s.set_failure_callback >> set_each rest

  unfoldable pub set_session_loss_callback : Outcome W → Action W (Unit {0})
  unfolding set_each
  set_session_loss_callback o = set_each o.sessions

  pub stop_each : Dict (Session W) → List Str → Action W (List Str)
  unfolding tried
  stop_each [] errors = pure errors
  stop_each ((host, s) ∷ rest) errors =
      tried (host ++ codes " heartbeat stop failed: ") s.stop errors >>= stop_each rest

  pub release_each : Dict (Session W) → List Str → Action W (List Str)
  unfolding tried
  release_each [] errors = pure errors
  release_each ((host, s) ∷ rest) errors =
      tried (host ++ codes " release failed: ") s.release errors >>= release_each rest

  pub report_errors : List Str → Action W (Unit {0})
  report_errors [] = pure tt
  report_errors (e ∷ es) =
      throw (dispatcher_error (codes "session cleanup failed: " ++ join (codes "; ") (e ∷ es)))

  -- `release_all()`; the outcome has no sessions afterwards.
  unfoldable pub release_all : Dict (Session W) → Action W (Unit {0})
  unfolding stop_each release_each report_errors
  release_all sessions = stop_each sessions [] >>= release_each sessions >>= report_errors

  -- The end of `provision`: `hosts` is how many the inventory has.
  unfoldable pub accept : Bool → ℕ → Outcome W → Action W (Outcome W)
  unfolding release_all
  accept require_all_hosts hosts o =
      if require_all_hosts && not (length (healthy o.report) == hosts)
      then release_all o.sessions
        >> throw (provisioning_error (codes "require_all_hosts=True: not every host provisioned"))
      else if null (healthy o.report)
      then release_all o.sessions
        >> throw (no_healthy_hosts (codes "no host provisioned successfully"))
      else pure o

module _ {W : Type 0} where
  -- `results`, filled in the order of the futures
  pub filed : List (RemoteHost × Provisioned W) → Dict (Provisioned W) → Dict (Provisioned W)
  unfolding label
  filed [] d = d
  filed ((host, r) ∷ rs) d = filed rs (put (label host) r d)

  -- A session, if there is one, under the label of its host.
  keep_live : RemoteHost → Option (Session W) → Dict (Session W) → Dict (Session W)
  unfolding label
  keep_live host none sessions = sessions
  keep_live host (some s) sessions = put (label host) s sessions

  -- The report and the live sessions, in the order of the inventory; `none` is a KeyError.
  pub gathered :
      Dict (Provisioned W)
      → List RemoteHost
      → Dict (Session W)
      → Option (ProvisioningReport × Dict (Session W))
  unfolding label keep_live
  gathered results [] sessions = some ([], sessions)
  gathered results (host ∷ hosts) sessions = elim (get (label host) results) [
    | none ↦ none
    | some (r, live) ↦ elim (gathered results hosts (keep_live host live sessions)) [
      | none ↦ none
      | some (rs, all) ↦ some (r ∷ rs, all)
    ]
  ]

-- What `provision` calls: the files of the project, `secrets.token_hex`, the transports, SessionLock
-- and HeartbeatThread for a transport and a session id, and the thread pool that does the work for
-- each host.
pub record Provider (W : Type 0) : Type 0 where
  pub is_file : Str → Str → Action W Bool
  pub token_hex : Action W Str
  pub factory : RemoteHost → Action W (Transport W)
  pub session_for : Transport W → Str → Session W
  pub pool :
      List RemoteHost
      → (RemoteHost → Action W (Provisioned W))
      → Action W (List (RemoteHost × Provisioned W))
  pub local : Local W

module _ {W : Type 0} (provider : Provider W) (project : Project) (runner_path : Str)
    (force require_all_hosts : Bool) (min_disk_mb : ℕ) where
  pub provisioner : RemoteHost → Transport W → Provisioner W
  provisioner host t = record {
    local = provider.local;
    transport = t;
    project = project;
    host = host;
    runner_path = runner_path;
    force = force;
    min_disk_mb = min_disk_mb;
  }

  -- The `try` of `work`.
  pub try_host : Str → RemoteHost → Action W (Provisioned W)
  unfolding provisioner provision_host
  try_host sid host = do
    t ← provider.factory host
    provision_host (provisioner host t) (provider.session_for t sid)

  -- `work(host)`
  pub work : Str → RemoteHost → Action W (Provisioned W)
  unfolding failed_result try_host
  work sid host = catch (try_host sid host) (λ e.
      if is_exception e
      then pure (failed_result host.host none none (message e), none)
      else throw e)

  pub outcome_of : List RemoteHost → List (RemoteHost × Provisioned W) → Action W (Outcome W)
  unfolding filed gathered accept
  outcome_of hosts results = elim (gathered (filed results []) hosts []) [
    | none ↦ throw (other (codes "KeyError"))
    | some (report, sessions) ↦
        accept require_all_hosts (length hosts) (record { report = report; sessions = sessions })
  ]

  -- The test for one file of the project.
  pub needs_file : Str → Action W (Unit {0})
  needs_file name = do
    there ← provider.is_file project.path name
    (if there
        then pure tt
        else throw (
            configuration_error
              (codes "project at " ++ project.path ++ codes " is missing " ++ name)))

  -- `session_id or secrets.token_hex(16)`
  pub session_of : Option Str → Action W Str
  session_of none = provider.token_hex
  session_of (some sid) = if null sid then provider.token_hex else pure sid

  unfoldable pub provision : List RemoteHost → Option Str → Action W (Outcome W)
  unfolding provisioner needs_file session_of work outcome_of
  provision hosts session_id = do
    needs_file (codes "pyproject.toml")
    needs_file (codes "uv.lock")
    sid ← session_of session_id
    results ← provider.pool hosts (work sid)
    outcome_of hosts results
