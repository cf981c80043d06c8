-- ===== src/Samples/Rest.antt =====
-- A service, a job, the locks and the paths.
use ray_dispatcher.Base.{
  ℕ, holds, ◌+◌, ◌≡◌, ◌≢◌, refl, ◌⊎◌, true, false, none, List, [], ◌∷◌, arith, Str, codes,
  str_discrete,
}
use ray_dispatcher.Values.{Job, RetryPolicy, FailureKind}
use ray_dispatcher.Errors.{path_validation, transport_error, session_lock_lost, ok, raise}
use ray_dispatcher.Layout.{remote_layout}
use ray_dispatcher.Pool.{Pool, init}
use ray_dispatcher.Runtime.{HostRuntime}
use ray_dispatcher.Service.{Waiter, Event, start}
use ray_dispatcher.Service.Wakeup.{IsQuiet, run-IsQuiet}
use ray_dispatcher.Service.Account.{owed, run-owed}
use ray_dispatcher.Retry.{Outside, run_job}
use ray_dispatcher.Retry.Bounds.{Ends, run_job-Ends}
use ray_dispatcher.Retry.Leases.{Closed, run_job-Closed}
use ray_dispatcher.Locking.{acquires, script, absent}
use ray_dispatcher.Locking.Exclusion.{turns, one_session, Turn}
use ray_dispatcher.Locking.Heartbeat
use ray_dispatcher.Paths.{
  has_nul, normpath, split, escapes, normalize_relative, components, join_path, or_dot,
}
use ray_dispatcher.Paths.Relative.{is_accepted, normalize_relative_lem, normalize_relative-ok}

abbrev pool : Pool
unfolding init
pool = init ((codes "a", 1) ∷ []) 30

abbrev waiter : Str → Waiter
waiter a = record { attempt_id = a; exclude = [] }

-- Two jobs for one slot; the second is woken by the release of the first.
abbrev traffic : List Event
traffic =
    Event.acquires (waiter (codes "j1")) (codes "t1") 1
    ∷ Event.acquires (waiter (codes "j2")) (codes "t2") 2
    ∷ Event.releases (codes "t1")
    ∷ Event.resumes 0 (codes "t3") 3
    ∷ []

run-IsQuiet_example : IsQuiet (ray_dispatcher.Service.run (start pool) traffic)
run-IsQuiet_example = run-IsQuiet pool traffic

run-owed_example :
    owed
      (λ (w : Waiter). holds (str_discrete w.attempt_id (codes "j2")))
      (ray_dispatcher.Service.run (start pool) traffic)
    ≡ 1
unfolding str_discrete
run-owed_example =
    run-owed (λ (w : Waiter). holds (str_discrete w.attempt_id (codes "j2"))) pool traffic

abbrev pub job : Job
job = record {
  id = codes "j1";
  command = codes "true" ∷ [];
  inputs = [];
  outputs = [];
  env = [];
  timeout_s = none;
  cwd = codes ".";
}

abbrev pub policy : RetryPolicy
policy = record { max_attempts = 2; retry_on = FailureKind.ssh ∷ [] }

abbrev pub runtime : HostRuntime
runtime = record {
  host = codes "a";
  layout = remote_layout (codes "/home/u") (codes "p");
  environment_digest = codes "d";
  runner_digest = codes "d";
  project_path = codes "/p";
  secret_env = [];
}

-- The state counts the leases; every attempt loses its connection.
abbrev offline : Outside ℕ
offline = record {
  acquire = λ attempt_id exclude n. (
    ok (record {
      token = codes "t";
      host = codes "a";
      slot = 0;
      attempt_id = attempt_id;
      expiry_s = 30;
      heartbeat_s = 0;
    }),
    n + 1,
  );
  release = λ token n. (ok tt, n);
  register_pid = λ token path n. (ok tt, n);
  quarantine = λ host n. (ok tt, n);
  runtime_for = λ host n. (ok runtime, n);
  execute = λ host r k n. (raise (transport_error (codes "connection lost") none), n);
  make_attempt_dir = λ k n. (ok tt, n);
  write_attempt_json = λ k r n. (ok tt, n);
}

abbrev pub log : ℕ → Str
log n = codes "log"

run_job-Ends_example :
    Ends offline job
      (codes "b")
      log
      log
      (codes "out")
      policy
      (record { world = 0; deeds = [] })
      (run_job offline job (codes "b") log log (codes "out") policy 0).0
      (run_job offline job (codes "b") log log (codes "out") policy 0).1
run_job-Ends_example =
    run_job-Ends offline job (codes "b") log log (codes "out") policy 0 (omega arith)

run_job-Closed_example :
    (tried : List Str) × Closed tried
      (run_job offline job (codes "b") log log (codes "out") policy 0).1.deeds
run_job-Closed_example =
    run_job-Closed offline job (codes "b") log log (codes "out") policy 0 (omega arith)

s1-s2 : codes "s1" ≢ codes "s2"
s1-s2 e = ground arith

abbrev requests : List Turn
requests =
    record { session = codes "s1"; request = acquires; wait = 1 }
    ∷ record { session = codes "s2"; request = acquires; wait = 2 }
    ∷ []

one_session_example : codes "s1" ≡ codes "s1"
unfolding turns script str_discrete
one_session_example =
    one_session 90 absent 0 requests (codes "s1") (codes "s1") 1 1 refl refl (omega arith)
      (omega arith)

abbrev losing : List Heartbeat.Event
losing =
    Heartbeat.Event.beats (raise (session_lock_lost (codes "a")))
    ∷ Heartbeat.Event.sets_callback
    ∷ []

run-notified_example :
    (((Heartbeat.run Heartbeat.fresh losing).failure ≢ none)
      × ((Heartbeat.run Heartbeat.fresh losing).notified ≡ 1))
    ⊎ (((Heartbeat.run Heartbeat.fresh losing).failure ≡ none)
        × ((Heartbeat.run Heartbeat.fresh losing).notified ≡ 0))
run-notified_example = Heartbeat.run-notified losing refl

normalize_relative_lem_example :
    ((is_accepted (codes "a//./b/") ≡ true)
      × (normalize_relative (codes "a//./b/") (codes "f")
          ≡ ok (or_dot (join_path (components (codes "a//./b/"))))))
    ⊎ ((is_accepted (codes "a//./b/") ≡ false)
        × ((m : Str) × (normalize_relative (codes "a//./b/") (codes "f")
              ≡ raise (path_validation m))))
normalize_relative_lem_example = normalize_relative_lem (codes "a//./b/") (codes "f")

normalized : normalize_relative (codes "a//./b/") (codes "f") ≡ ok (codes "a/b")
unfolding has_nul normalize_relative split normpath escapes str_discrete
normalized = refl

normalize_relative-ok_example :
    (components (codes "a/b") ≡ components (codes "a//./b/"))
    × (is_accepted (codes "a/b") ≡ true)
    × (normalize_relative (codes "a/b") (codes "f") ≡ ok (codes "a/b"))
normalize_relative-ok_example =
    normalize_relative-ok (codes "a//./b/") (codes "f") (codes "a/b") normalized
