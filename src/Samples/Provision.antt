-- ===== src/Samples/Provision.antt =====
-- Provisioning of one host, whose state counts its commands.
use ray_dispatcher.Base.{
  ℕ, ◌+◌, ◌≡◌, refl, ap, subst, arith, pos, true, false, none, some, List, [], ◌∷◌, Str, codes,
  str_discrete, strip, split, All, decimal,
}
use ray_dispatcher.Values.{RemoteHost, Project, HostProvisioningResult}
use ray_dispatcher.Errors.{ok, and_then-ok, Action, pure, ◌>>=◌}
use ray_dispatcher.Transport.{Transport}
use ray_dispatcher.Layout.{RemoteLayout, remote_layout, uv_bin}
use ray_dispatcher.Shell.{write_remote_file}
use ray_dispatcher.HostSetup.{Local, Provisioner, resolve_layout, preflight}
use ray_dispatcher.HostSetup.Tools.{install_uv, install_python, Reported, install_uv-Reported}
use ray_dispatcher.HostSetup.Publish.{sync_source, publish_env, install_runner}
use ray_dispatcher.HostSetup.Secrets.{copy_secrets, post_setup}
use ray_dispatcher.Provisioning.{Session, Provisioned, provision_host, last_steps}
use ray_dispatcher.Provisioning.Host.{Ends, provision_host-Ends}
use ray_dispatcher.Provisioning.Inventory.{Outcome, Provider, label, accept, provision}
use ray_dispatcher.Provisioning.Inventory.Release.{Accepts, accept-Accepts}
use ray_dispatcher.Provisioning.Inventory.Report.{Complete, served, work_of, provision-Complete}

-- Every command prints this: a home, the line of `df`, a version of uv and one of Python.
abbrev answer : Str
answer = codes "/h 1 2 9 0.5.0"

abbrev pub remote : Transport ℕ
remote = record {
  run = λ argv timeout n. (ok (record { returncode = pos 0; stdout = answer; stderr = [] }), n + 1);
  push = λ source dest delete excludes chmod n. (ok tt, n + 1);
  pull = λ source dest n. (ok tt, n + 1);
}

abbrev pub host : RemoteHost
host = record {
  host = codes "a";
  user = codes "u";
  slots = 2;
  port = 22;
  identity_file = none;
  known_hosts_file = codes "/k";
}

abbrev pub project : Project
project = record {
  path = codes "/p";
  project_id = codes "p";
  python = answer;
  uv_version = codes "0.5.0";
  secrets = [];
  exclude = [];
  dependency_groups = [];
  post_setup = [];
}

abbrev local : Local ℕ
local = record {
  source_digest = λ path exclude n. (ok (codes "s"), n);
  environment_digest = λ p platform flags n. (ok (codes "e"), n);
  runner_digest = λ path n. (ok (codes "r"), n);
  dump_source = λ d id. d;
  dump_env = λ m. m.python;
  int = λ word. some (pos 9);
}

abbrev provisioner : Provisioner ℕ
provisioner = record {
  local = local;
  transport = remote;
  project = project;
  host = host;
  runner_path = codes "/r";
  force = false;
  min_disk_mb = 0;
}

abbrev quiet : Action ℕ (Unit {0})
quiet n = (ok tt, n)

abbrev pub session : Session ℕ
session = record {
  acquire = quiet;
  release = λ n. (ok tt, n + 100);
  start = quiet;
  stop = λ n. (ok tt, n + 10);
  raise_if_failed = quiet;
  set_failure_callback = quiet;
}

abbrev healthy_host : HostProvisioningResult
healthy_host = record {
  host = codes "a";
  succeeded = true;
  source_digest = some (codes "s");
  environment_digest = some (codes "e");
  error = none;
}

provision_host-Ends_example : (v : ℕ) × Ends provisioner session 0 v healthy_host (some session)
unfolding provision_host last_steps resolve_layout preflight install_uv install_python sync_source
    publish_env install_runner copy_secrets post_setup write_remote_file strip split str_discrete
provision_host-Ends_example =
    (_, provision_host-Ends provisioner session 0 _ healthy_host (some session) refl)

abbrev layout : RemoteLayout
layout = remote_layout (codes "/h") (codes "p")

install_uv-Reported_example :
    (uv_bin layout (codes "0.5.0") ≡ uv_bin layout (codes "0.5.0"))
    × Reported provisioner (uv_bin layout (codes "0.5.0")) 1
unfolding install_uv split str_discrete
install_uv-Reported_example =
    install_uv-Reported provisioner layout (uv_bin layout (codes "0.5.0")) 0 1 refl

abbrev failed_host : HostProvisioningResult
failed_host = record {
  host = codes "b";
  succeeded = false;
  source_digest = none;
  environment_digest = none;
  error = some (codes "no route");
}

abbrev pub outcome : Outcome ℕ
outcome = record {
  report = healthy_host ∷ failed_host ∷ [];
  sessions = (codes "u@a:22", session) ∷ [];
}

accept-Accepts_example : Accepts true 2 outcome 0 (accept true 2 outcome 0)
accept-Accepts_example = accept-Accepts true 2 outcome 0

-- A pool that does the work for one host after the other.
abbrev one_by_one :
    List RemoteHost
    → (RemoteHost → Action ℕ (Provisioned ℕ))
    → Action ℕ (List (RemoteHost × Provisioned ℕ))
one_by_one [] work n = (ok [], n)
one_by_one (h ∷ hs) work n = (work h >>= λ r. one_by_one hs work >>= λ rs. pure ((h, r) ∷ rs)) n

abbrev pub provider : Provider ℕ
provider = record {
  is_file = λ path name n. (ok true, n);
  token_hex = λ n. (ok (codes "t"), n);
  factory = λ h n. (ok remote, n);
  session_for = λ t sid. session;
  pool = one_by_one;
  local = local;
}

-- What one host's work returns.
abbrev work_for : Str → RemoteHost → Action ℕ (Provisioned ℕ)
work_for = work_of provider project (codes "/r") false false 0

abbrev Served : Str → List RemoteHost → List (RemoteHost × Provisioned ℕ) → Type 0
Served sid hs es = (served es ≡ hs) × All (λ e. (s t : ℕ) × (work_for sid e.0 s ≡ (ok e.1, t))) es

one_by_one-runs :
    (sid : Str) (hs : List RemoteHost) (w v : ℕ) (es : List (RemoteHost × Provisioned ℕ))
    → one_by_one hs (work_for sid) w ≡ (ok es, v)
    → Served sid hs es
one_by_one-runs sid [] w v es q =
    let nothing : [] ≡ es = ground arith in subst (Served sid []) nothing (refl, tt)
one_by_one-runs sid (h ∷ hs) w v es q =
    let (r, a, p, k) = and_then-ok (work_for sid h w) _ q in
    let (rs, b, p', k') = and_then-ok (one_by_one hs (work_for sid) a) _ k in
    let (same, ran) = one_by_one-runs sid hs a b rs p' in
    let all : (h, r) ∷ rs ≡ es = ground arith in
    subst (Served sid (h ∷ hs)) all (ap (λ x. h ∷ x) same, ((w, a, p), ran))

provision-Complete_example :
    Complete provider project
      (codes "/r")
      false
      false
      0
      (host ∷ [])
      (record { report = healthy_host ∷ []; sessions = (label host, session) ∷ [] })
unfolding provision provision_host last_steps resolve_layout preflight install_uv install_python
    sync_source publish_env install_runner copy_secrets post_setup write_remote_file strip split
    str_discrete label decimal accept
provision-Complete_example =
    provision-Complete provider project (codes "/r") false false 0 (host ∷ []) (some (codes "s"))
      (record { report = healthy_host ∷ []; sessions = (label host, session) ∷ [] }) 0 _
      one_by_one-runs (refl, tt) refl
