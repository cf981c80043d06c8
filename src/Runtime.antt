-- ===== src/Runtime.antt =====
-- HostRuntime, `secret_env_map` of src/it/unimib/data/nanofaas/ray_dispatcher/scheduling.py.
use ray_dispatcher.Base.{none, some, List, [], ◌∷◌, Str, Dict, put, ◌/s◌}
use ray_dispatcher.Values.{Project, SecretFile}
use ray_dispatcher.Layout.{RemoteLayout}

pub record HostRuntime : Type 0 where
  pub host : Str
  pub layout : RemoteLayout
  pub environment_digest : Str
  pub runner_digest : Str
  pub project_path : Str
  pub secret_env : Dict Str

secret_env_from : RemoteLayout → List SecretFile → Dict Str → Dict Str
secret_env_from lo [] d = d
secret_env_from lo (s ∷ ss) d = elim s.env_var [
  | none ↦ secret_env_from lo ss d
  | some v ↦ secret_env_from lo ss (put v (lo.secrets /s s.remote_name) d)
]

-- Each declared secret's variable, with the absolute remote path of its file.
pub secret_env_map : Project → RemoteLayout → Dict Str
unfolding secret_env_from
secret_env_map project lo = secret_env_from lo project.secrets []
