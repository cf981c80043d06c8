-- ===== src/HostSetup/Publish.antt =====
-- HostProvisioner: `_sync_source`, `_publish_env` and `_install_runner`.
use ray_dispatcher.Base.{
  is_zero, strip, Bool, true, false, not, ◌&&◌, if◌then◌else◌, none, List, [], ◌∷◌, ◌++◌, Str,
  codes, ◌/s◌, slash,
}
use ray_dispatcher.Errors.{Action, pure, ◌>>=◌, ◌>>◌}
use ray_dispatcher.Layout.{
  RemoteLayout, rstrip_slash, env_dir, env_venv, env_manifest, runner_dir, runner,
}
use ray_dispatcher.Shell.{quote, write_remote_file}
use ray_dispatcher.Transport.{CommandResult}
use ray_dispatcher.HostSetup.{EnvManifest, Provisioner, sync_flags, shell_join, sh, run, checked}

-- `[*["--group", group] for each group]`
group_args : List Str → List Str
group_args [] = []
group_args (g ∷ gs) = codes "--group" ∷ g ∷ group_args gs

-- The script that puts a staged directory in the place of another, with the way back in between.
pub replace_script : Str → Str → Str → Str
replace_script staged place old =
    codes "if [ ! -e "
    ++ place
    ++ codes " ] && [ -e "
    ++ old
    ++ codes " ]; then mv "
    ++ old
    ++ codes " "
    ++ place
    ++ codes "; fi; rm -rf "
    ++ old
    ++ codes "; if [ -e "
    ++ place
    ++ codes " ]; then mv "
    ++ place
    ++ codes " "
    ++ old
    ++ codes "; fi; mv "
    ++ staged
    ++ codes " "
    ++ place
    ++ codes "; rm -rf "
    ++ old

module _ {W : Type 0} (self : Provisioner W) where
  atomic_replace : Str → Str → Str → Str → Str → Action W CommandResult
  unfolding checked sh replace_script
  atomic_replace setup staged place old what =
      checked self (sh (codes "set -e; " ++ setup ++ replace_script staged place old)) what

  -- `path.rstrip("/") + "/"`
  with_slash : Str → Str
  with_slash path = rstrip_slash path ++ slash ∷ []

  unfoldable pub sync_source : RemoteLayout → Action W Str
  unfolding checked sh with_slash atomic_replace
  sync_source lo =
      let staging = lo.source ++ codes ".staging" in
      do
        checked self (sh (codes "mkdir -p " ++ quote staging)) (codes "source staging mkdir")
        self.transport.push (with_slash self.project.path) (staging ++ slash ∷ []) true
            self.project.exclude none
        atomic_replace [] (quote staging) (quote lo.source) (quote (lo.source ++ codes ".old"))
            (codes "source atomic replace")
        digest ← self.local.source_digest self.project.path self.project.exclude
        write_remote_file self.transport lo.source_manifest
            (self.local.dump_source digest self.project.project_id) none
        pure digest

  -- `uv sync …`
  sync_argv : RemoteLayout → Str → List Str
  unfolding group_args
  sync_argv lo uv =
      (uv ∷ codes "sync" ∷ codes "--project" ∷ lo.source ∷ [])
      ++ sync_flags
      ++ (codes "--python" ∷ self.project.python ∷ [])
      ++ group_args self.project.dependency_groups

  -- The environment of a digest that is not there yet.
  pub build_env : RemoteLayout → Str → Str → Str → Action W Str
  unfolding checked sh sync_argv shell_join atomic_replace
  build_env lo uv platform digest =
      let place = env_dir lo digest in
      let staging = place ++ codes ".staging" in
      let staging_venv = quote (staging /s codes ".venv") in
      let document : EnvManifest = record {
        environment_digest = digest;
        python = self.project.python;
        uv_version = self.project.uv_version;
        platform = platform;
        dependency_groups = self.project.dependency_groups;
        sync_flags = sync_flags;
      } in
      do
        checked self (sh (codes "rm -rf " ++ quote staging ++ codes "; mkdir -p " ++ quote staging))
            (codes "env staging mkdir")
        checked self
            (sh (
              codes "UV_PROJECT_ENVIRONMENT="
              ++ staging_venv
              ++ codes " "
              ++ shell_join (sync_argv lo uv)))
            (codes "uv sync")
        checked self (sh (staging_venv ++ codes "/bin/python -c 'import sys'"))
            (codes "venv smoke check")
        write_remote_file self.transport (staging /s codes "environment-manifest.json")
            (self.local.dump_env document) none
        atomic_replace (codes "mkdir -p " ++ quote lo.project ++ codes "/envs; ") (quote staging)
            (quote place) (quote (place ++ codes ".old")) (codes "env atomic publish")
        pure digest

  -- Whether an environment was published: its manifest and its interpreter are there.
  is_published : RemoteLayout → Str → Action W Bool
  unfolding run sh
  is_published lo digest = do
    r ← run self (
        sh (
          codes "test -f "
          ++ quote (env_manifest lo digest)
          ++ codes " && test -x "
          ++ quote (env_venv lo digest)
          ++ codes "/bin/python"))
    pure (is_zero r.returncode)

  unfoldable pub publish_env : RemoteLayout → Str → Action W Str
  unfolding checked is_published build_env
  publish_env lo uv = do
    r ← checked self (codes "uname" ∷ codes "-sm" ∷ []) (codes "platform probe")
    let platform = strip r.stdout
    digest ← self.local.environment_digest self.project platform sync_flags
    valid ← is_published lo digest
    (if valid && not self.force then pure digest else build_env lo uv platform digest)

  push_runner : RemoteLayout → Str → Action W Str
  unfolding checked sh
  push_runner lo digest = do
    checked self (sh (codes "mkdir -p " ++ quote (runner_dir lo digest))) (codes "runner dir mkdir")
    self.transport.push self.runner_path (runner lo digest) false [] none
    pure digest

  unfoldable pub install_runner : RemoteLayout → Action W Str
  unfolding run push_runner
  install_runner lo = do
    digest ← self.local.runner_digest self.runner_path
    r ← run self (codes "test" ∷ codes "-f" ∷ runner lo digest ∷ [])
    (if is_zero r.returncode && not self.force then pure digest else push_runner lo digest)
