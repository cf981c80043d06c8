-- ===== src/Attempt/Driver.antt =====
-- execute_attempt and collect_outputs, over the parts of an attempt.
pub mod Verdict
pub mod Outputs
use ray_dispatcher.Base.{
  ℕ, ℤ, pos, negsuc, is_zero, Bool, true, false, not, ◌&&◌, ◌||◌, if◌then◌else◌, null, Option, none,
  some, get_or, List, [], ◌∷◌, ◌++◌, ◌==◌, Str, codes, ◌/s◌,
}
use ray_dispatcher.Values.{
  Job, InputSpec, OutputSpec, AttemptResult, JobStatus, succeeded, failed, timed_out, FailureKind,
}
use ray_dispatcher.Errors.{
  Exn, transport_error, timeout_error, value_error, cleanup_timed_out, cleanup_interrupted, message,
  Result, ok, raise, Action, pure, throw, catch, ◌>>=◌, ◌>>◌,
}
use ray_dispatcher.Transport.{CommandResult, default}
use ray_dispatcher.Layout.{
  RunPaths, run_root, venv, manifest, stdout, stderr, result, run_paths, env_venv, runner,
}
use ray_dispatcher.Runtime.{HostRuntime}
use ray_dispatcher.Paths.{starts_with}
use ray_dispatcher.Shell.{quote, write_remote_file}
use ray_dispatcher.Attempt.{
  build_runner_manifest, dirname, Collected, nothing_collected, Machine, run_checked, invoke_runner,
}

-- rsync's 23 and 24, for a file that is not there; 23 stands for other errors too.
pub is_absence : Option ℤ → Bool
is_absence (some (pos n)) = n == 23 || n == 24
is_absence _ = false

-- `spec.destination or spec.source`
pub local_name : OutputSpec → Str
local_name spec = elim spec.destination [
  | none ↦ spec.source
  | some d ↦ if null d then spec.source else d
]

-- The classification of an attempt whose runner ended.
pub classify : ℤ → Option Str → Collected → JobStatus × Option FailureKind
classify returncode problem c =
    if not (is_zero returncode) then (failed, some FailureKind.command) else elim problem [
      | some p ↦ (failed, some FailureKind.collection)
      | none ↦
          if not (null c.missing_required)
          then (failed, some FailureKind.output_missing)
          else (succeeded, none)
    ]

-- How the runner ended: in time, timed out, or timed out with no confirmed cleanup.
pub data Ended : Type 0 where
  in_time overdue uncleaned : Ended

abbrev pub ended : Option Bool → Option Ended
ended none = none
ended (some true) = some overdue
ended (some false) = some in_time

module _ {W : Type 0} (m : Machine W) (rounds : ℕ) where
  -- The `except` of a pull: it is passed over if the file is not there on the host either.
  pub pull_failed : Str → Exn → Action W (Unit {0})
  unfolding is_absence
  pull_failed remote (transport_error text rc) =
      if is_absence rc
      then m.transport.run (codes "test" ∷ codes "-e" ∷ remote ∷ []) default
        >>= (λ r. if is_zero r.returncode then throw (transport_error text rc) else pure tt)
      else throw (transport_error text rc)
  pull_failed remote e = throw e

  pub lift : {A : Type 0} → Result A → Action W A
  lift r w = (r, w)

  -- Where an output belongs after its pull.
  pub sort_output : OutputSpec → Str → Collected → Action W Collected
  unfolding local_name
  sort_output spec dest c w =
      let rel = local_name spec in
      (
        ok (
            if m.is_there dest w
            then record c { present = c.present ++ rel ∷ [] }
            else if spec.required
            then record c { missing_required = c.missing_required ++ rel ∷ [] }
            else record c { missing_optional = c.missing_optional ++ rel ∷ [] }),
        w,
      )

  -- `collect_outputs`, from what was collected before.
  pub collect_outputs : ℕ → Str → List OutputSpec → Collected → Action W Collected
  unfolding local_name pull_failed sort_output lift
  collect_outputs attempt run_dir [] c = pure c
  collect_outputs attempt run_dir (spec ∷ specs) c = do
    dest ← lift (m.ensure_within attempt (local_name spec))
    m.make_parent dest
    catch (m.transport.pull (run_dir /s spec.source) dest) (pull_failed (run_dir /s spec.source))
    next ← sort_output spec dest c
    collect_outputs attempt run_dir specs next

  pub push_inputs : HostRuntime → RunPaths → List InputSpec → Action W (Unit {0})
  unfolding run_checked
  push_inputs runtime run [] = pure tt
  push_inputs runtime run (i ∷ is) =
      let dest = run_root run /s i.destination in
      let source =
        if starts_with (codes "/") i.source
        then i.source
        else m.join_project runtime.project_path i.source in
      do
        run_checked m rounds
            (codes "sh" ∷ codes "-c" ∷ (codes "mkdir -p " ++ quote (dirname dest)) ∷ [])
            (codes "input dir") false
        m.transport.push source dest false [] none
        push_inputs runtime run is

  -- A pull of a log that may not be there.
  pub try_pull : Str → Str → Action W (Unit {0})
  try_pull remote dest =
      catch (m.transport.pull remote dest)
        (λ e. elim e [ transport_error text rc ↦ pure tt | x ↦ throw x ])

  -- The logs and the outputs, or the text of the TransportError that ended their collection.
  pub collect : ℕ → RunPaths → Str → Str → List OutputSpec → Action W (Collected × Option Str)
  unfolding collect_outputs
  collect attempt run stdout_log stderr_log outputs =
      catch
        (do
          m.transport.pull (stdout run) stdout_log
          m.transport.pull (stderr run) stderr_log
          c ← collect_outputs attempt (run_root run) outputs nothing_collected
          pure (c, none))
        (λ e. elim e [
          | transport_error text rc ↦ pure (nothing_collected, some text)
          | x ↦ throw x
        ])

  -- The remote run directory with the source and the inputs, and the runner's manifest.
  pub prepare : HostRuntime → Job → RunPaths → Str → ℕ → Action W (Unit {0})
  unfolding run_checked push_inputs
  prepare runtime job run env_path attempt = do
    m.create_attempt_dir attempt
    run_checked m rounds
        (codes "sh"
          ∷ codes "-c"
          ∷ (codes "mkdir -p "
              ++ quote (dirname run.base)
              ++ codes " && mkdir "
              ++ quote run.base
              ++ codes " && mkdir "
              ++ quote (run_root run))
          ∷ [])
        (codes "create run dir") false
    run_checked m rounds
        (codes "sh"
          ∷ codes "-c"
          ∷ (codes "rsync -a "
              ++ quote runtime.layout.source
              ++ codes "/ "
              ++ quote (run_root run)
              ++ codes "/ && ln -s "
              ++ quote env_path
              ++ codes " "
              ++ quote (venv run))
          ∷ [])
        (codes "copy source") false
    push_inputs runtime run job.inputs
    write_remote_file m.transport (manifest run)
        (m.dump (build_runner_manifest job env_path run runtime.secret_env)) none

  -- The `except _HostCleanupError` around `_invoke_runner`.
  pub not_cleaned : Exn → Action W (Option Ended)
  not_cleaned (cleanup_interrupted (timeout_error text)) = pure (some uncleaned)
  not_cleaned e = throw e

  pub invoke : Str → RunPaths → Option ℕ → Option (Action W (Unit {0})) → Action W (Option Ended)
  unfolding not_cleaned invoke_runner
  invoke runner_path run timeout check =
      catch (invoke_runner m rounds runner_path run timeout check >>= (λ o. pure (ended o)))
        not_cleaned

  -- The result of an attempt that timed out.
  abbrev pub timeout_result : ℕ → Str → Option ℕ → Str → Str → AttemptResult
  timeout_result attempt host timeout stdout_log stderr_log = record {
    number = attempt;
    host = host;
    status = timed_out;
    returncode = none;
    duration_s = get_or timeout 0;
    stdout_log = stdout_log;
    stderr_log = stderr_log;
    failure_kind = some FailureKind.timeout;
    error = some (codes "job timed out");
  }

  -- A timeout, with the exception that is raised if the cleanup was not confirmed.
  pub time_out : Bool → RunPaths → AttemptResult → Action W (Option AttemptResult)
  unfolding try_pull
  time_out cleaned run r = do
    try_pull (stdout run) r.stdout_log
    try_pull (stderr run) r.stderr_log
    m.write_attempt_json r.number r []
    if cleaned then pure (some r) else throw (cleanup_timed_out r)

  -- The runner's result, where the source reads it.
  pub read_result : CommandResult → Action W (ℤ × ℕ)
  read_result r = elim (m.read_result r.stdout) [
    | none ↦ throw (value_error (codes "invalid runner result"))
    | some x ↦ pure x
  ]

  pub publish_success : JobStatus → ℕ → Action W (Unit {0})
  publish_success succeeded attempt = m.publish attempt
  publish_success _ attempt = pure tt

  -- The end of an attempt whose runner ended in time.
  pub conclude : HostRuntime → Job → RunPaths → ℕ → Str → Str → Action W (Option AttemptResult)
  unfolding run_checked read_result collect classify publish_success
  conclude runtime job run attempt stdout_log stderr_log = do
    r ← run_checked m rounds (codes "cat" ∷ result run ∷ []) (codes "read result") false
    (returncode, duration) ← read_result r
    m.make_staging attempt
    (c, problem) ← collect attempt run stdout_log stderr_log job.outputs
    let (status, kind) = classify returncode problem c
    publish_success status attempt
    let a : AttemptResult = record {
      number = attempt;
      host = runtime.host;
      status = status;
      returncode = some returncode;
      duration_s = duration;
      stdout_log = stdout_log;
      stderr_log = stderr_log;
      failure_kind = kind;
      error = problem;
    }
    m.write_attempt_json attempt a c.missing_optional
    pure (some a)

  -- What follows `_invoke_runner`.
  pub after_runner :
      HostRuntime → Job → RunPaths → ℕ → Str → Str → Option Ended → Action W (Option AttemptResult)
  unfolding time_out conclude
  after_runner runtime job run attempt stdout_log stderr_log none = pure none
  after_runner runtime job run attempt stdout_log stderr_log (some in_time) =
      conclude runtime job run attempt stdout_log stderr_log
  after_runner runtime job run attempt stdout_log stderr_log (some overdue) =
      time_out true run (timeout_result attempt runtime.host job.timeout_s stdout_log stderr_log)
  after_runner runtime job run attempt stdout_log stderr_log (some uncleaned) =
      time_out false run (timeout_result attempt runtime.host job.timeout_s stdout_log stderr_log)

  -- `execute_attempt`; `none` if a loop goes on after the given rounds.
  unfoldable pub execute_attempt :
      HostRuntime
      → Job
      → Str
      → ℕ
      → Str
      → Str
      → Option (Action W (Unit {0}))
      → Action W (Option AttemptResult)
  unfolding prepare invoke after_runner
  execute_attempt runtime job batch_id attempt stdout_log stderr_log check =
      let run = run_paths runtime.layout batch_id job.id attempt in
      let env_path = env_venv runtime.layout runtime.environment_digest in
      do
        prepare runtime job run env_path attempt
        o ← invoke (runner runtime.layout runtime.runner_digest) run job.timeout_s check
        after_runner runtime job run attempt stdout_log stderr_log o
