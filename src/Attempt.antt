-- ===== src/Attempt.antt =====
-- The attempt driver of src/it/unimib/data/nanofaas/ray_dispatcher/scheduling.py:
-- build_runner_manifest, `_run_checked`, `_invoke_runner`, execute_attempt; and collect_outputs of
-- results.py.
pub mod Driver
pub mod Cleanup
use ray_dispatcher.Base.{
  ℕ, zero, suc, ◌+◌, ◌-◌, min, leb, ℤ, is_zero, is_space, strip, Bool, true, false, not, ◌&&◌,
  if◌then◌else◌, null, all, Option, none, some, get_or, List, [], ◌∷◌, ◌++◌, ◌==◌, Str, codes,
  slash, ◌/s◌, Dict, pos, negsuc,
}
use ray_dispatcher.Values.{
  Job, InputSpec, OutputSpec, AttemptResult, JobStatus, succeeded, failed, timed_out, FailureKind,
}
use ray_dispatcher.Errors.{
  Exn, dispatcher_error, transport_error, timeout_error, cleanup_timed_out, cleanup_interrupted,
  other, message, Result, ok, raise, Action, pure, throw, catch, ◌>>=◌, ◌>>◌,
}
use ray_dispatcher.Transport.{CommandResult, Transport, Timeout, default, unbounded}
use ray_dispatcher.Layout.{
  RunPaths, run_root, venv, manifest, stdout, stderr, pid, result, rstrip_slash, run_paths,
  env_venv, runner,
}
use ray_dispatcher.Runtime.{HostRuntime}
use ray_dispatcher.Paths.{normpath, starts_with}
use ray_dispatcher.Shell.{quote, write_remote_file}
use ray_dispatcher.Processes.{Clock, Reader, kill_remote_pgid}

pub record RunnerManifest : Type 0 where
  pub argv : List Str
  pub forward_output : Bool
  pub cwd : Str
  pub env : Dict Str
  pub secret_env : Dict Str
  pub venv_bin : Str
  pub virtual_env : Str
  pub stdout_path : Str
  pub stderr_path : Str
  pub pid_path : Str
  pub result_path : Str

pub build_runner_manifest : Job → Str → RunPaths → Dict Str → RunnerManifest
build_runner_manifest job env_path run secret_env = record {
  argv = job.command;
  forward_output = false;
  cwd = normpath (run_root run /s job.cwd);
  env = job.env;
  secret_env = secret_env;
  venv_bin = env_path /s codes "bin";
  virtual_env = env_path;
  stdout_path = stdout run;
  stderr_path = stderr run;
  pid_path = pid run;
  result_path = result run;
}

-- A path up to and with its last slash.
abbrev head_part : Str → Str
head_part [] = []
head_part (c ∷ s) =
    let rest = head_part s in if null rest then (if c == slash then c ∷ [] else []) else c ∷ rest

-- `posixpath.dirname(path)`
pub dirname : Str → Str
dirname s =
    let front = head_part s in if all (λ c. c == slash) front then front else rstrip_slash front

pub record Collected : Type 0 where
  pub present : List Str
  pub missing_required : List Str
  pub missing_optional : List Str

abbrev pub nothing_collected : Collected
nothing_collected = record { present = []; missing_required = []; missing_optional = [] }

-- What an attempt is made of: the host's transport, the clock, JSON, the files of the results, and
-- the thread that runs the runner.
pub record Machine (W : Type 0) : Type 0 where
  pub transport : Transport W
  pub clock : Clock W
  pub read_pgid : Reader
  -- the return code and the duration of the runner's result; `none` where reading it raises
  pub read_result : Str → Option (ℤ × ℕ)
  pub dump : RunnerManifest → Str
  pub create_attempt_dir : ℕ → Action W (Unit {0})
  pub make_staging : ℕ → Action W (Unit {0})
  pub make_parent : Str → Action W (Unit {0})
  -- `ensure_within(staging, relative)`
  pub ensure_within : ℕ → Str → Result Str
  pub is_there : Str → W → Bool
  pub publish : ℕ → Action W (Unit {0})
  pub write_attempt_json : ℕ → AttemptResult → List Str → Action W (Unit {0})
  pub join_project : Str → Str → Str
  -- `worker.start()`, with the runner's command; `is_alive`, `join`, `errors` and `ident is not None`
  pub start : Action W CommandResult → Action W (Unit {0})
  pub alive : W → Bool
  pub join : ℕ → W → W
  pub errors : W → List Exn
  pub started : W → Bool

-- A unit of time is a hundredth of a second in `_invoke_runner` and `_kill_remote_pgid`.
module _ {W : Type 0} (m : Machine W) (rounds : ℕ) where
  unfoldable pub checked : Str → CommandResult → Action W CommandResult
  checked what r =
      if is_zero r.returncode
      then pure r
      else throw (dispatcher_error (what ++ codes " failed: " ++ strip r.stderr))

  -- `_run_checked(transport, argv, what, unbounded=…)`
  unfoldable pub run_checked : List Str → Str → Bool → Action W CommandResult
  unfolding checked
  run_checked argv what endless =
      m.transport.run argv (if endless then unbounded else default) >>= checked what

  abbrev pub lease_check : Option (Action W (Unit {0})) → Action W (Unit {0})
  lease_check none = pure tt
  lease_check (some check) = check

  abbrev pub is_due : Option ℕ → W → Bool
  is_due none w = false
  is_due (some deadline) w = leb deadline (m.clock.now w)

  abbrev pub join_for : Option ℕ → W → ℕ
  join_for none w = 5
  join_for (some deadline) w = min 5 (deadline - m.clock.now w)

  abbrev pub deadline_of : Option ℕ → W → Option ℕ
  deadline_of none w = none
  deadline_of (some n) w = some (m.clock.now w + n)

  -- After the `while`.
  pub supervised : Option (Action W (Unit {0})) → Action W (Option Bool)
  supervised check w = elim (m.errors w) [
    | e ∷ es ↦ (raise e, w)
    | [] ↦ (lease_check check >> pure (some false)) w
  ]

  -- The end of a round of the `while`: the test of the deadline, and the join.
  pub joined : Action W (Option Bool) → Option ℕ → Action W (Option Bool)
  joined more deadline w =
      let rest = more (m.join (join_for deadline w) w) in
      if is_due deadline w then (raise (timeout_error (codes "job timed out")), w) else rest

  -- The `while worker.is_alive()`; `none` if the worker is alive after the given rounds.
  pub supervise : ℕ → Option (Action W (Unit {0})) → Option ℕ → Action W (Option Bool)
  unfolding supervised joined
  supervise zero check deadline w = if m.alive w then (ok none, w) else supervised check w
  supervise (suc n) check deadline w =
      let more = supervise n check deadline in
      if m.alive w then (lease_check check >> joined more deadline) w else supervised check w

  -- The worker is joined once more if the group was killed; was all of it cleaned up?
  pub cleaned_up : Bool → W → Bool × W
  cleaned_up cleaned w =
      if cleaned && m.started w
      then (let w' = m.join 50 w in (not (m.alive w'), w'))
      else (cleaned, w)

  -- What is left of an exception after a cleanup that was confirmed.
  abbrev pub resolved : Exn → Action W (Option Bool)
  resolved (timeout_error text) = pure (some true)
  resolved e = throw e

  pub after_kill : Exn → Option Bool → Action W (Option Bool)
  unfolding cleaned_up
  after_kill e none w = (ok none, w)
  after_kill e (some killed) w =
      let (cleaned, w') = cleaned_up killed w in
      if cleaned then resolved e w' else (raise (cleanup_interrupted e), w')

  -- The `except BaseException`.
  pub interrupt : RunPaths → Exn → Action W (Option Bool)
  unfolding after_kill
  interrupt run e =
      kill_remote_pgid m.transport m.clock rounds m.read_pgid 1000 50 (pid run) 50 5
      >>= after_kill e

  -- `_invoke_runner`: whether it timed out; `none` if it goes on after the given rounds.
  unfoldable pub invoke_runner :
      Str → RunPaths → Option ℕ → Option (Action W (Unit {0})) → Action W (Option Bool)
  unfolding supervise interrupt run_checked
  invoke_runner runner_path run timeout check w =
      let runner_command =
        run_checked (codes "python3" ∷ runner_path ∷ manifest run ∷ []) (codes "invoke runner")
          true in
      catch (m.start runner_command >> supervise rounds check (deadline_of timeout w))
        (interrupt run) w
