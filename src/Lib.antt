-- ===== src/Lib.antt =====
-- ray-dispatcher: a Python library that runs batches of jobs on remote hosts over SSH, with Ray tasks
-- that supervise them. Paths below are under src/it/unimib/data/nanofaas/ray_dispatcher/.
--
-- The parts and how they interact. A Dispatcher submits jobs to a backend, SshRayBackend, whose
-- setup provisions the hosts, holds a session lock on each and starts Ray; for each job it runs
-- `run_job` in a task. `run_job` leases a slot of a host from the lease service
-- (a LeasePool behind an asyncio.Condition), executes one attempt on it over a Transport, releases the
-- lease and retries as the policy says. A worker refreshes its lease by heartbeats; a sweeper
-- quarantines the hosts whose leases run out. On each host a session lock keeps other sessions out.
--
-- Which file models which part:
--   Base, Base/*      numbers, lists, text (a list of character codes) and dicts, and their lemmas
--   Values            models.py: the value objects
--   Errors            errors.py: exceptions as values; actions that may raise, `try` and `finally`
--   Paths, Paths/*    paths.py: normalize_relative, with posixpath.normpath
--   Layout            provisioning.py: RunPaths, RemoteLayout
--   Runtime           scheduling.py: HostRuntime, secret_env_map
--   Transport         ssh.py: CommandResult and the Transport protocol
--   Pool, Pool/*      scheduling.py: Lease, LeasePool
--   Service, Service/*  scheduling.py: LeaseService
--   Retry, Retry/*    scheduling.py: should_retry, assemble_job_result, run_job
--   Locking, Locking/*  locking.py: the lock script, SessionLock, HeartbeatThread
--   Shell             ssh.py: write_remote_file, with shlex.quote
--   Ssh, Ssh/*        ssh.py: SshTransport over Fabric and rsync, and how a shell reads its commands
--   Processes, Processes/*  ssh.py: terminate_process_group; scheduling.py: reconcile_host, _kill_remote_pgid
--   Attempt, Attempt/*  scheduling.py: _invoke_runner, execute_attempt; results.py: collect_outputs
--   Names             models.py: the identifiers
--   Validation, Validation/*  models.py: the checks of `__post_init__`
--   Digests, Digests/*  digests.py: which bytes enter a digest
--   HostSetup, HostSetup/*  provisioning.py: the steps of HostProvisioner on one host
--   Provisioning, Provisioning/*  provisioning.py: HostProvisioner.provision, ProvisioningOutcome, provision
--   RayBackend        backends/ssh_ray.py: SshRayBackend, its job table and the loss of a session
--   RayBackend/Sweep  _sweep_once, _drain_jobs; RayBackend/Setup: setup; RayBackend/Teardown: teardown
--   RayBackend/Task   _ActorLeaseHandle, _attempt_task
--   Dispatcher, Dispatcher/*  dispatcher.py: Dispatcher, over the protocol of backends/base.py
--   Samples/*         runs on small inputs, and each theorem at one of them
--
-- The state of a class is a record and a method a function from the state (and the time and the token
-- that its factories give) to the new state and the answer. Code that raises is an action that returns a
-- result and a state, which outlives the exception. Code outside the repository (SSH, the file system,
-- the clock, Ray) is a record of operations on a state of its own, any state at all.
--
-- Bounds. The loop of `run_job` has `max_attempts` rounds as its fuel; that these suffice is proved. The
-- loops that poll (terminate_process_group, _kill_remote_pgid, _invoke_runner, as_completed, _drain_jobs) take a number
-- of rounds and answer `none` when these are up; for terminate_process_group and as_completed it is proved
-- how many are enough, while the others wait on a thread, a file or a clock that may never change. All other
-- loops are structural. Times and durations are natural numbers of one fixed unit in place of
-- floats; slots and counts are natural numbers, which Python's integers without a bound are here.
--
-- The provisioning of the hosts runs in a thread pool, which is a parameter: what is used of it is that
-- every future has what its work returned. The loss of a session comes in between two operations of the
-- backend.
--
-- Not modelled: the remote runner, the result files, SshConfig.from_host, Inventory.from_yaml, the checks of
-- SshRayBackend's constructor, and the resolution of symbolic links.
pub mod Base
pub mod Values
pub mod Errors
pub mod HostSetup
pub mod Provisioning
pub mod RayBackend
pub mod Digests
pub mod Validation
pub mod Layout
pub mod Runtime
pub mod Transport
pub mod Paths
pub mod Pool
pub mod Service
pub mod Retry
pub mod Locking
pub mod Names
pub mod Dispatcher
pub mod Shell
pub mod Ssh
pub mod Processes
pub mod Attempt
pub mod Samples
