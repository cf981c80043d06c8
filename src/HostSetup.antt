-- ===== src/HostSetup.antt =====
-- The steps of HostProvisioner, of src/it/unimib/data/nanofaas/ray_dispatcher/provisioning.py, over
-- the host's transport. The local files, their digests and JSON are parameters. A message has the
-- step and the host that failed, and what the command said; the figures of the others are left out.
pub mod Tools
pub mod Publish
pub mod Secrets
use ray_dispatcher.Base.{
  ℕ, suc, ltb, ◌*◌, ◌/◌, ℤ, pos, negsuc, is_zero, strip, split, Bool, true, false, not, ◌&&◌,
  if◌then◌else◌, null, holds, Option, none, some, List, [], ◌∷◌, ◌++◌, map, Str, codes, ◌/s◌, join,
  mem_str, str_discrete, decimal, octal, slash,
}
use ray_dispatcher.Values.{RemoteHost, Project, SecretFile}
use ray_dispatcher.Errors.{other, Action, pure, throw, ◌>>=◌, ◌>>◌}
use ray_dispatcher.Layout.{
  RemoteLayout, remote_layout, rstrip_slash, env_dir, env_venv, env_manifest, runner_dir, runner,
  uv_bin,
}
use ray_dispatcher.Shell.{quote, write_remote_file}
use ray_dispatcher.Transport.{CommandResult, Transport, default}

-- The document of the environment's manifest.
pub record EnvManifest : Type 0 where
  pub environment_digest : Str
  pub python : Str
  pub uv_version : Str
  pub platform : Str
  pub dependency_groups : List Str
  pub sync_flags : List Str

-- What runs on the local side: the digests of digests.py, which read files, `json.dumps` of the two
-- manifests, and `int`, `none` where it raises.
pub record Local (W : Type 0) : Type 0 where
  pub source_digest : Str → List Str → Action W Str
  pub environment_digest : Project → Str → List Str → Action W Str
  pub runner_digest : Str → Action W Str
  pub dump_source : Str → Str → Str
  pub dump_env : EnvManifest → Str
  pub int : Str → Option ℤ

-- `SYNC_FLAGS`
abbrev pub sync_flags : List Str
sync_flags =
    codes "--locked"
    ∷ codes "--no-install-project"
    ∷ codes "--no-install-workspace"
    ∷ codes "--no-default-groups"
    ∷ []

-- `str` of an integer
show_int : ℤ → Str
unfolding decimal
show_int (pos n) = decimal n
show_int (negsuc n) = codes "-" ++ decimal (suc n)

-- `shlex.join(argv)`
pub shell_join : List Str → Str
shell_join argv = join (codes " ") (map quote argv)

-- `["sh", "-c", script]`
pub sh : Str → List Str
sh script = codes "sh" ∷ codes "-c" ∷ script ∷ []

-- A HostProvisioner.
pub record Provisioner (W : Type 0) : Type 0 where
  pub local : Local W
  pub transport : Transport W
  pub project : Project
  pub host : RemoteHost
  pub runner_path : Str
  pub force : Bool
  pub min_disk_mb : ℕ

-- `avail_kb < self.min_disk_mb * 1024`
pub too_small : ℤ → ℕ → Bool
too_small (pos kb) mb = ltb kb (mb * 1024)
too_small (negsuc kb) mb = true

-- `s.split()[3]`
fourth : List Str → Option Str
fourth (a ∷ b ∷ c ∷ d ∷ rest) = some d
fourth _ = none

module _ {W : Type 0} (self : Provisioner W) where
  pub run : List Str → Action W CommandResult
  run argv = self.transport.run argv default

  -- `raise _StepError(…)`
  abbrev pub step_error : {A : Type 0} → Str → Action W A
  step_error m = throw (other m)

  -- What `_checked` does with the answer.
  pub accepted : Str → CommandResult → Action W CommandResult
  unfolding show_int
  accepted what r =
      if is_zero r.returncode
      then pure r
      else step_error (
          what
          ++ codes " failed on "
          ++ self.host.host
          ++ codes " (rc="
          ++ show_int r.returncode
          ++ codes "): "
          ++ strip (if null r.stderr then r.stdout else r.stderr))

  -- `_checked(argv, what)`
  pub checked : List Str → Str → Action W CommandResult
  unfolding run accepted
  checked argv what = run argv >>= accepted what

  found_home : Str → Action W RemoteLayout
  found_home home =
      if null home
      then step_error (codes "could not resolve remote $HOME on " ++ self.host.host)
      else pure (remote_layout home self.project.project_id)

  unfoldable pub resolve_layout : Action W RemoteLayout
  unfolding checked sh found_home
  resolve_layout = do
    r ← checked (sh (codes "printf %s \"$HOME\"")) (codes "resolve $HOME")
    found_home (strip r.stdout)

  -- `command -v` for one tool
  has_tool : Str → Action W (Unit {0})
  unfolding run
  has_tool tool = do
    r ← run (codes "command" ∷ codes "-v" ∷ tool ∷ [])
    (if is_zero r.returncode
        then pure tt
        else step_error (codes "required tool " ++ tool ++ codes " missing on " ++ self.host.host))

  -- The free space that `df` printed, in KB.
  free_space : Str → Option ℤ
  unfolding fourth split
  free_space text = elim (fourth (split text)) [ none ↦ none | some word ↦ self.local.int word ]

  -- The test of the free space.
  pub enough_disk : Str → Action W (Unit {0})
  unfolding too_small free_space
  enough_disk text = elim (free_space text) [
    | none ↦ step_error (codes "could not parse disk free on " ++ self.host.host)
    | some kb ↦
        if too_small kb self.min_disk_mb
        then step_error (codes "insufficient disk on " ++ self.host.host)
        else pure tt
  ]

  unfoldable pub preflight : RemoteLayout → Action W (Unit {0})
  unfolding has_tool enough_disk checked sh
  preflight lo =
      let root = quote lo.root in
      do
        has_tool (codes "python3")
        has_tool (codes "rsync")
        r ←
            checked
              (sh (codes "mkdir -p " ++ root ++ codes " && df -Pk " ++ root ++ codes " | tail -1"))
              (codes "disk check")
        enough_disk r.stdout
