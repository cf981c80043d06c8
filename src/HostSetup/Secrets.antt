-- ===== src/HostSetup/Secrets.antt =====
-- HostProvisioner: `_copy_secrets` and `_post_setup`.
use ray_dispatcher.Base.{
  strip, false, if◌then◌else◌, null, holds, some, List, [], ◌∷◌, ◌++◌, Str, codes, ◌/s◌,
  str_discrete, octal,
}
use ray_dispatcher.Values.{SecretFile}
use ray_dispatcher.Errors.{Action, pure, ◌>>=◌, ◌>>◌}
use ray_dispatcher.Layout.{RemoteLayout, env_venv}
use ray_dispatcher.Shell.{quote}
use ray_dispatcher.HostSetup.{Provisioner, shell_join, sh, step_error, checked}

module _ {W : Type 0} (self : Provisioner W) where
  right_owner : SecretFile → Str → Action W (Unit {0})
  right_owner secret owner =
      if holds (str_discrete owner self.host.user)
      then pure tt
      else step_error self (
          codes "secret "
          ++ secret.remote_name
          ++ codes " on "
          ++ self.host.host
          ++ codes " owned by "
          ++ owner)

  copy_secret : RemoteLayout → SecretFile → Action W (Unit {0})
  unfolding checked sh octal right_owner
  copy_secret lo secret =
      let remote = lo.secrets /s secret.remote_name in
      do
        self.transport.push secret.source remote false [] (some (codes "F" ++ octal secret.mode))
        r ←
            checked self
              (sh (
                codes "stat -c '%U' "
                ++ quote remote
                ++ codes " 2>/dev/null || stat -f '%Su' "
                ++ quote remote))
              (codes "verify secret " ++ secret.remote_name)
        right_owner secret (strip r.stdout)

  copy_each : RemoteLayout → List SecretFile → Action W (Unit {0})
  unfolding copy_secret
  copy_each lo [] = pure tt
  copy_each lo (s ∷ ss) = copy_secret lo s >> copy_each lo ss

  unfoldable pub copy_secrets : RemoteLayout → Action W (Unit {0})
  unfolding checked sh copy_each
  copy_secrets lo =
      let dir = quote lo.secrets in
      if null self.project.secrets then pure tt else do
        checked self (sh (codes "mkdir -p " ++ dir ++ codes " && chmod 700 " ++ dir))
            (codes "secrets dir")
        copy_each lo self.project.secrets

  -- `cd source && PATH=… VIRTUAL_ENV=… exec …`
  post_script : RemoteLayout → Str → Str
  unfolding shell_join
  post_script lo digest =
      let venv = quote (env_venv lo digest) in
      codes "cd "
      ++ quote lo.source
      ++ codes " && PATH="
      ++ venv
      ++ codes "/bin:\"$PATH\" VIRTUAL_ENV="
      ++ venv
      ++ codes " exec "
      ++ shell_join self.project.post_setup

  unfoldable pub post_setup : RemoteLayout → Str → Action W (Unit {0})
  unfolding checked sh post_script
  post_setup lo digest =
      if null self.project.post_setup
      then pure tt
      else checked self (sh (post_script lo digest)) (codes "post-setup command") >> pure tt
