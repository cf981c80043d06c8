-- ===== src/Layout.antt =====
-- RunPaths and RemoteLayout of src/it/unimib/data/nanofaas/ray_dispatcher/provisioning.py: the
-- absolute remote paths under <home>/.ray_dispatcher.
use ray_dispatcher.Base.{ℕ, ◌==◌, [], ◌∷◌, if◌then◌else◌, Str, codes, slash, ◌/s◌, decimal}

-- `RunPaths(base)`; its properties are the functions below.
pub record RunPaths : Type 0 where
  pub base : Str

abbrev pub run_root : RunPaths → Str
run_root r = r.base /s codes "run"

abbrev pub venv : RunPaths → Str
venv r = run_root r /s codes ".venv"

abbrev pub manifest : RunPaths → Str
manifest r = r.base /s codes "manifest.json"

abbrev pub stdout : RunPaths → Str
stdout r = r.base /s codes "stdout.log"

abbrev pub stderr : RunPaths → Str
stderr r = r.base /s codes "stderr.log"

abbrev pub pid : RunPaths → Str
pid r = r.base /s codes "pid.json"

abbrev pub result : RunPaths → Str
result r = r.base /s codes "result.json"

-- A character before what is left of the rest.
keep_before : ℕ → Str → Str
keep_before c [] = if c == slash then [] else c ∷ []
keep_before c (d ∷ t) = c ∷ d ∷ t

-- `s.rstrip("/")`
pub rstrip_slash : Str → Str
unfolding keep_before
rstrip_slash [] = []
rstrip_slash (c ∷ s) = keep_before c (rstrip_slash s)

pub record RemoteLayout : Type 0 where
  pub root : Str
  pub project : Str
  pub source : Str
  pub source_manifest : Str
  pub secrets : Str
  pub runs : Str
  pub uv_root : Str

-- `RemoteLayout(home, project_id)`
pub remote_layout : Str → Str → RemoteLayout
unfolding rstrip_slash
remote_layout home project_id =
    let root = rstrip_slash home /s codes ".ray_dispatcher" in
    let project = root /s codes "projects" /s project_id in
    record {
      root = root;
      project = project;
      source = project /s codes "source";
      source_manifest = project /s codes "source-manifest.json";
      secrets = root /s codes "secrets" /s project_id;
      runs = root /s codes "runs" /s project_id;
      uv_root = root /s codes "uv";
    }

pub env_dir : RemoteLayout → Str → Str
env_dir lo digest = lo.project /s codes "envs" /s digest

pub env_venv : RemoteLayout → Str → Str
unfolding env_dir
env_venv lo digest = env_dir lo digest /s codes ".venv"

pub env_manifest : RemoteLayout → Str → Str
unfolding env_dir
env_manifest lo digest = env_dir lo digest /s codes "environment-manifest.json"

pub runner_dir : RemoteLayout → Str → Str
runner_dir lo digest = lo.root /s codes "bin" /s digest

pub runner : RemoteLayout → Str → Str
unfolding runner_dir
runner lo digest = runner_dir lo digest /s codes "remote_runner.py"

pub uv_bin : RemoteLayout → Str → Str
uv_bin lo version = lo.uv_root /s version /s codes "uv"

pub run_dir : RemoteLayout → Str → Str → ℕ → Str
unfolding decimal
run_dir lo batch_id job_id attempt = lo.runs /s batch_id /s job_id /s decimal attempt

pub run_paths : RemoteLayout → Str → Str → ℕ → RunPaths
unfolding run_dir
run_paths lo batch_id job_id attempt = record { base = run_dir lo batch_id job_id attempt }
