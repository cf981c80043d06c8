-- ===== src/Samples/Hosts.antt =====
-- Processes and attempts on a host whose state is its clock.
use ray_dispatcher.Base.{
  ℕ, ◌+◌, ◌≡◌, ◌≢◌, ltb, refl, pos, holds, if◌then◌else◌, none, some, true, List, [], ◌∷◌, arith,
  Str, codes, str_discrete,
}
use ray_dispatcher.Values.{Job, AttemptResult, JobStatus}
use ray_dispatcher.Errors.{ok}
use ray_dispatcher.Transport.{CommandResult, Transport}
use ray_dispatcher.Layout.{remote_layout, run_paths}
use ray_dispatcher.Shell.{write_remote_file}
use ray_dispatcher.Runtime.{HostRuntime}
use ray_dispatcher.Processes.{
  Clock, signal_argv, kill_remote_pgid, terminate_process_group, reconcile_host,
}
use ray_dispatcher.Processes.Confirmed.{Confirmed, terminate_process_group-Confirmed}
use ray_dispatcher.Processes.Recorded.{Recorded, reconcile_host-Recorded, kill_remote_pgid-Recorded}
use ray_dispatcher.Processes.Timely.{Runs, terminate_process_group-ends}
use ray_dispatcher.Attempt.{Machine, invoke_runner}
use ray_dispatcher.Attempt.Cleanup.{CleanedUp, invoke_runner-CleanedUp}
use ray_dispatcher.Attempt.Driver.{execute_attempt}
use ray_dispatcher.Attempt.Driver.Verdict.{Verdict, execute_attempt-Verdict}

abbrev pub exits : ℕ → CommandResult
exits n = record { returncode = pos n; stdout = []; stderr = [] }

-- Every command succeeds, but a `kill` finds no process.
abbrev status_of : List Str → ℕ
status_of [] = 0
status_of (name ∷ rest) = if holds (str_discrete name (codes "kill")) then 1 else 0

abbrev pub host : Transport ℕ
host = record {
  run = λ argv timeout w. (ok (exits (status_of argv)), w);
  push = λ source dest delete excludes chmod w. (ok tt, w);
  pull = λ source dest w. (ok tt, w);
}

abbrev pub clock : Clock ℕ
clock = record { now = λ w. w; sleep = λ n w. w + n }

terminate_process_group-Confirmed_example : Confirmed host clock 42 0
unfolding terminate_process_group signal_argv str_discrete
terminate_process_group-Confirmed_example =
    terminate_process_group-Confirmed host clock 5 none 42 20 1 0 0 gone_at_once
  where
    gone_at_once : terminate_process_group host clock 5 none 42 20 1 0 ≡ (ok (some true), 0)
    gone_at_once = refl

reconcile_host-Recorded_example : Recorded host clock (λ text. some (pos 42)) (codes "/p") 0 0
unfolding reconcile_host signal_argv str_discrete
reconcile_host-Recorded_example =
    reconcile_host-Recorded host clock (λ text. some (pos 42)) 5 none 20 1 (codes "/p") 0 0
      gone_at_once
  where
    gone_at_once :
        reconcile_host host clock (λ text. some (pos 42)) 5 none 20 1 (codes "/p") 0
        ≡ (ok (some true), 0)
    gone_at_once = refl

kill_remote_pgid-Recorded_example :
    (before : ℕ) × Recorded host clock (λ text. some (pos 42)) (codes "/p") before 0
unfolding kill_remote_pgid signal_argv str_discrete
kill_remote_pgid-Recorded_example =
    kill_remote_pgid-Recorded host clock (λ text. some (pos 42)) 5 1000 50 (codes "/p") 50 5 0 0
      gone_at_once
  where
    gone_at_once :
        kill_remote_pgid host clock 5 (λ text. some (pos 42)) 1000 50 (codes "/p") 50 5 0
        ≡ (ok (some true), 0)
    gone_at_once = refl

runs : Runs host clock
runs = record { forward = λ argv timeout w. omega arith; sleeps = λ n w. omega arith }

terminate_process_group-ends_example :
    terminate_process_group host clock 20 none 42 20 1 0 ≢ (ok none, 0)
terminate_process_group-ends_example =
    terminate_process_group-ends host clock runs 20 none 42 20 1 0 0 (omega arith) (omega arith)

-- The runner takes until 50.
abbrev machine : Machine ℕ
machine = record {
  transport = host;
  clock = clock;
  read_pgid = λ text. some (pos 42);
  read_result = λ text. some (pos 0, 3);
  dump = λ m. [];
  create_attempt_dir = λ n w. (ok tt, w);
  make_staging = λ n w. (ok tt, w);
  make_parent = λ path w. (ok tt, w);
  ensure_within = λ n path. ok path;
  is_there = λ path w. true;
  publish = λ n w. (ok tt, w);
  write_attempt_json = λ n a missing w. (ok tt, w);
  join_project = λ root path. path;
  start = λ command w. (ok tt, w);
  alive = λ w. ltb w 50;
  join = λ n w. w + n;
  errors = λ w. [];
  started = λ w. true;
}

abbrev runtime : HostRuntime
runtime = record {
  host = codes "a";
  layout = remote_layout (codes "/h") (codes "p");
  environment_digest = codes "d";
  runner_digest = codes "d";
  project_path = codes "/p";
  secret_env = [];
}

abbrev job : Job
job = record {
  id = codes "j1";
  command = codes "true" ∷ [];
  inputs = [];
  outputs = record { source = codes "out"; destination = none; required = true } ∷ [];
  env = [];
  timeout_s = none;
  cwd = codes ".";
}

abbrev done : AttemptResult
done = record {
  number = 1;
  host = codes "a";
  status = JobStatus.succeeded;
  returncode = some (pos 0);
  duration_s = 3;
  stdout_log = codes "o";
  stderr_log = codes "e";
  failure_kind = none;
  error = none;
}

execute_attempt-Verdict_example :
    Verdict machine 20 job
      (run_paths (remote_layout (codes "/h") (codes "p")) (codes "b") (codes "j1") 1)
      1
      done
unfolding execute_attempt write_remote_file str_discrete
execute_attempt-Verdict_example =
    execute_attempt-Verdict machine 20 runtime job (codes "b") 1 (codes "o") (codes "e") none done 0
      50 ran
  where
    ran :
        execute_attempt machine 20 runtime job (codes "b") 1 (codes "o") (codes "e") none 0
        ≡ (ok (some done), 50)
    ran = refl

invoke_runner-CleanedUp_example :
    CleanedUp machine 20
      (run_paths (remote_layout (codes "/h") (codes "p")) (codes "b") (codes "j1") 1)
      60
unfolding invoke_runner kill_remote_pgid signal_argv str_discrete
invoke_runner-CleanedUp_example =
    invoke_runner-CleanedUp machine 20 (codes "r")
      (run_paths (remote_layout (codes "/h") (codes "p")) (codes "b") (codes "j1") 1) (some 10) none
      0 60 timed_out
  where
    timed_out :
        invoke_runner machine 20
          (codes "r")
          (run_paths (remote_layout (codes "/h") (codes "p")) (codes "b") (codes "j1") 1)
          (some 10)
          none
          0
        ≡ (ok (some true), 60)
    timed_out = refl
