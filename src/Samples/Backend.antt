-- ===== src/Samples/Backend.antt =====
-- The Ray backend, with a Ray whose state is the clock.
use ray_dispatcher.Base.{
  ℕ, ◌+◌, refl, pos, true, false, none, some, List, [], ◌∷◌, codes, str_discrete, arith, strip,
  split, decimal,
}
use ray_dispatcher.Values.{JobHandle}
use ray_dispatcher.Errors.{ray_error, ok, raise, Action}
use ray_dispatcher.Shell.{write_remote_file}
use ray_dispatcher.Processes.{signal_argv, reconcile_host}
use ray_dispatcher.HostSetup.{resolve_layout, preflight}
use ray_dispatcher.HostSetup.Tools.{install_uv, install_python}
use ray_dispatcher.HostSetup.Publish.{sync_source, publish_env, install_runner}
use ray_dispatcher.HostSetup.Secrets.{copy_secrets, post_setup}
use ray_dispatcher.Provisioning.{provision_host, last_steps}
use ray_dispatcher.Provisioning.Inventory.{
  label, accept, provision, release_all, set_session_loss_callback, raise_if_session_lost,
}
use ray_dispatcher.RayBackend.{transport_to, Cluster, SshRay, cancelled_job, fail_if_session_lost}
use ray_dispatcher.RayBackend.Loss.{Asked}
use ray_dispatcher.RayBackend.Loss.Operations.{Event, submits, asks_status, loses, run, run-Asked}
use ray_dispatcher.RayBackend.Setup.{setup, build_runtimes}
use ray_dispatcher.RayBackend.Setup.Rollback.{IsIdle, Ends as SetupEnds, setup-Ends}
use ray_dispatcher.RayBackend.Sweep.{is_clean, sweep_host}
use ray_dispatcher.RayBackend.Sweep.Readmission.{Swept, sweep_host-Swept}
use ray_dispatcher.RayBackend.Teardown.Ends.{Ends}
use ray_dispatcher.RayBackend.Task.{Worker, attempt_task}
use ray_dispatcher.RayBackend.Task.Answers.{Ends as TaskEnds, attempt_task-Ends}
use ray_dispatcher.Samples.Hosts.{clock}
use ray_dispatcher.Samples.Hosts.{host as remote_host}
use ray_dispatcher.Samples.Provision.{provider, project, host, outcome}
use ray_dispatcher.Samples.Rest.{job, policy, runtime, log}

abbrev quiet : Action ℕ (Unit {0})
quiet n = (ok tt, n)

-- A Ray that cannot be started, and whose tasks never end.
abbrev cluster : Cluster ℕ
cluster = record {
  is_initialized = λ n. (ok false, n);
  init = λ slots n. (raise (ray_error (codes "no memory")), n);
  shutdown = quiet;
  start_actor = λ slots. quiet;
  kill_actor = quiet;
  start_sweeper = quiet;
  join_sweeper = quiet;
  launch = λ j b rs hs n. (ok n, n + 1);
  cancel = λ ref. quiet;
  is_ready = λ ref n. (ok false, n);
  get_result = λ ref n. (ok (cancelled_job (codes "b") (codes "j")), n);
  wait = λ refs timeout n. (ok refs, n);
  sweep = λ timeout. quiet;
  quarantined_hosts = λ timeout n. (ok [], n);
  orphan_paths = λ h timeout n. (ok [], n);
  mark_reconciled = λ h timeout. quiet;
  current_hosts = λ timeout n. (ok [], n);
  new_token = λ n. (ok (codes "t"), n);
  result_exists = λ b j n. (ok false, n);
  read_result = λ b j n. (ok (cancelled_job b j), n);
  write_result = λ b j r. quiet;
  transport_factory = λ h n. (ok remote_host, n);
  clock = clock;
}

abbrev idle : SshRay ℕ
idle = record {
  owns_runtime = false;
  actor = false;
  outcome = none;
  runtimes = [];
  inv_hosts = [];
  refs = [];
  submitted = [];
  cancel_requested = [];
  draining = false;
  session_loss = none;
  sweep_stop = false;
  sweeper = false;
  asked = [];
  world = 0;
}

-- A backend that is set up, with one session.
abbrev ready : SshRay ℕ
ready = record idle { owns_runtime = true; actor = true; outcome = some outcome; sweeper = true }

abbrev handle : JobHandle
handle = record { batch_id = codes "b"; job_id = codes "j"; token = codes "t" }

abbrev events : List Event
events =
    submits (codes "b") job
    ∷ asks_status handle
    ∷ loses (codes "stolen")
    ∷ submits (codes "b") job
    ∷ []

run-Asked_example : Asked (run cluster ready events)
run-Asked_example = run-Asked cluster ready events refl refl

idle-IsIdle : IsIdle idle
idle-IsIdle = record {
  owns_runtime = refl;
  actor = refl;
  outcome = refl;
  runtimes = refl;
  inv_hosts = refl;
}

setup-Ends_example :
    SetupEnds cluster provider project
      (codes "/r")
      false
      0
      (host ∷ [])
      false
      (setup cluster provider project (codes "/r") false 0 (host ∷ []) false idle).1
unfolding setup provision provision_host last_steps resolve_layout preflight install_uv
    install_python sync_source publish_env install_runner copy_secrets post_setup write_remote_file
    strip split str_discrete label decimal accept release_all set_session_loss_callback
    raise_if_session_lost build_runtimes fail_if_session_lost
setup-Ends_example =
    setup-Ends cluster provider project (codes "/r") false 0 (host ∷ []) false
      (ray_error (codes "no memory")) idle
      (setup cluster provider project (codes "/r") false 0 (host ∷ []) false idle).1 idle-IsIdle
      refl

-- A host with a pid file, which is admitted again.
abbrev orphaned : Cluster ℕ
orphaned = record cluster {
  orphan_paths = λ h timeout n. (ok (codes "/p" ∷ []), n);
  mark_reconciled = λ h timeout n. (ok tt, n + 1);
}

sweep_host-Swept_example :
    Swept orphaned (λ text. some (pos 42)) 20 1 5 1 ((codes "a", host) ∷ []) none (codes "a") 0 1
unfolding sweep_host transport_to is_clean reconcile_host signal_argv str_discrete
sweep_host-Swept_example =
    sweep_host-Swept orphaned (λ text. some (pos 42)) 20 1 5 1 ((codes "a", host) ∷ []) none
      (codes "a") 0 1 refl

abbrev worker : Worker ℕ
worker = record {
  actor = record {
    acquire = λ attempt_id exclude n. (raise (ray_error (codes "actor died")), n);
    release = λ token. quiet;
    register_pid = λ token path. quiet;
    quarantine = λ h. quiet;
    heartbeat = λ token n. (ok true, n);
  };
  runtime_for = λ h n. (ok runtime, n);
  execute = λ h r k s. (raise (ray_error (codes "none")), s);
  make_attempt_dir = λ k. quiet;
  write_attempt_json = λ k r. quiet;
  write_result_json = λ r. quiet;
  type_name = λ e. codes "RayError";
}

attempt_task-Ends_example :
    TaskEnds worker job
      (codes "b")
      log
      log
      (codes "out")
      policy
      (attempt_task worker job (codes "b") log log (codes "out") policy 0)
attempt_task-Ends_example =
    attempt_task-Ends worker job (codes "b") log log (codes "out") policy 0 (omega arith)
