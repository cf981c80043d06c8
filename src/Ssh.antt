-- ===== src/Ssh.antt =====
-- SshTransport of src/it/unimib/data/nanofaas/ray_dispatcher/ssh.py with its arguments for ssh and
-- rsync, over Fabric and the local processes. A time is a natural number; a message leaves out the
-- text of the exception that it comes from.
pub mod CommandLine
use ray_dispatcher.Base.{
  ℕ, ℤ, ltb, Bool, true, false, null, Option, none, some, List, [], ◌∷◌, ◌++◌, map, if◌then◌else◌,
  Str, codes, join, decimal,
}
use ray_dispatcher.Errors.{
  Exn, Result, ok, raise, Action, pure, throw, ◌>>=◌, ◌>>◌, model_validation, transport_error,
  os_error, timeout_error, catch, is_exception,
}
use ray_dispatcher.Transport.{CommandResult, Timeout, default, unbounded, seconds}
use ray_dispatcher.Shell.{quote}

pub record SshConfig : Type 0 where
  pub host : Str
  pub user : Str
  pub port : ℕ
  pub identity_file : Option Str
  pub known_hosts_file : Str

-- `shlex.join(argv)`
unfoldable pub shlex_join : List Str → Str
shlex_join [] = []
shlex_join (a ∷ []) = quote a
shlex_join (a ∷ b ∷ argv) = quote a ++ 32 ∷ shlex_join (b ∷ argv)

-- `if cfg.identity_file`
unfoldable pub identity : SshConfig → Option Str
identity cfg = elim cfg.identity_file [ none ↦ none | some f ↦ if null f then none else some f ]

-- `_ssh_e_option(cfg)`, with the path of the control socket.
pub ssh_e_option : Str → SshConfig → Str
unfolding shlex_join identity decimal
ssh_e_option control_path cfg = shlex_join (
    codes "ssh"
    ∷ codes "-p"
    ∷ decimal cfg.port
    ∷ codes "-o"
    ∷ (codes "UserKnownHostsFile=" ++ cfg.known_hosts_file)
    ∷ codes "-o"
    ∷ codes "StrictHostKeyChecking=yes"
    ∷ codes "-o"
    ∷ codes "GlobalKnownHostsFile=/dev/null"
    ∷ codes "-o"
    ∷ codes "BatchMode=yes"
    ∷ codes "-o"
    ∷ codes "ControlMaster=auto"
    ∷ codes "-o"
    ∷ (codes "ControlPath=" ++ control_path)
    ∷ codes "-o"
    ∷ codes "ControlPersist=60s"
    ∷ (elim (identity cfg) [ none ↦ [] | some f ↦ codes "-i" ∷ f ∷ [] ]))

exclude_options : List Str → List Str
exclude_options [] = []
exclude_options (e ∷ es) = codes "--exclude" ∷ e ∷ exclude_options es

-- `build_rsync_argv(cfg, src, dst, …)`
pub build_rsync_argv : Str → SshConfig → Str → Str → Bool → List Str → Option Str → List Str
unfolding ssh_e_option exclude_options
build_rsync_argv control_path cfg src dst delete excludes chmod =
    (codes "rsync"
      ∷ codes "-a"
      ∷ codes "--protect-args"
      ∷ codes "-e"
      ∷ ssh_e_option control_path cfg
      ∷ [])
    ++ (if delete then codes "--delete" ∷ [] else [])
    ++ (elim chmod [ none ↦ [] | some m ↦ (codes "--chmod=" ++ m) ∷ [] ])
    ++ exclude_options excludes
    ++ (src ∷ dst ∷ [])

-- `_validate_timeout(value, name)`
unfoldable pub validate_timeout {ℓ} : {S : Type ℓ} → ℕ → Str → Action S ℕ
validate_timeout value name = if ltb 0 value then pure value else throw (model_validation name)

-- How a local process ends, by `subprocess.run(…, check=True)`.
pub data Ending : Type 0 where
  completed : Ending
  expired : Ending
  failed : ℤ → Ending
  not_launched : Ending

-- Fabric, with its connections `C`.
pub record Fabric (W C : Type 0) : Type 0 where
  -- host, user, port, time to connect and key file
  pub connection : Str → Str → ℕ → ℕ → Option Str → Action W C
  pub load_host_keys : C → Str → Action W (Unit {0})
  pub reject_unknown_hosts : C → Action W (Unit {0})
  -- the command and its timeout
  pub run : C → Str → Option ℕ → Action W CommandResult

pub record SshTransport : Type 0 where
  pub cfg : SshConfig
  pub connect_timeout_s : ℕ
  pub control_timeout_s : ℕ
  pub rsync_timeout_s : ℕ

-- `SshTransport(cfg, …)`
pub new_transport : {W : Type 0} → SshConfig → ℕ → ℕ → ℕ → Action W SshTransport
unfolding validate_timeout
new_transport cfg connect_timeout_s control_timeout_s rsync_timeout_s = do
  connect ← validate_timeout connect_timeout_s (codes "connect_timeout_s")
  control ← validate_timeout control_timeout_s (codes "control_timeout_s")
  limit ← validate_timeout rsync_timeout_s (codes "rsync_timeout_s")
  pure (record {
    cfg = cfg;
    connect_timeout_s = connect;
    control_timeout_s = control;
    rsync_timeout_s = limit;
  })

-- The transport's connection, once it has one, and the world.
pub record Channel (W C : Type 0) : Type 0 where
  pub conn : Option C
  pub world : W

module _ {W C : Type 0} (fabric : Fabric W C) where
  -- `build_connection(cfg, connect_timeout_s=…)`
  unfoldable pub build_connection : SshConfig → ℕ → Action W C
  unfolding validate_timeout identity
  build_connection cfg connect_timeout_s = do
    limit ← validate_timeout connect_timeout_s (codes "connect_timeout_s")
    conn ← fabric.connection cfg.host cfg.user cfg.port limit (identity cfg)
    fabric.load_host_keys conn cfg.known_hosts_file
    fabric.reject_unknown_hosts conn
    pure conn

  -- What the transport does without a connection, with the one that is made.
  unfoldable pub keep_conn : Result C × W → Option C → Result C × Channel W C
  keep_conn (ok c, w) before = (ok c, record { conn = some c; world = w })
  keep_conn (raise e, w) before = (raise e, record { conn = before; world = w })

  unfoldable pub conn_or : Option C → SshTransport → Action (Channel W C) C
  unfolding keep_conn
  conn_or none t s = keep_conn (build_connection t.cfg t.connect_timeout_s s.world) none
  conn_or (some c) t s = (ok c, record { conn = some c; world = s.world })

  unfoldable pub connected : SshTransport → Action (Channel W C) C
  unfolding conn_or
  connected t s = conn_or s.conn t s

  unfoldable pub effective_timeout : SshTransport → Timeout → Action (Channel W C) (Option ℕ)
  unfolding validate_timeout
  effective_timeout t default = pure (some t.control_timeout_s)
  effective_timeout t unbounded = pure none
  effective_timeout t (seconds n) = validate_timeout n (codes "timeout_s") >>= λ n. pure (some n)

  -- The `try` around Fabric's `run`.
  unfoldable pub answered : Result CommandResult → Result CommandResult
  answered (ok r) = ok r
  answered (raise e) =
      raise (if is_exception e then transport_error (codes "ssh run failed") none else e)

  unfoldable pub run_on : C → Str → Option ℕ → Action (Channel W C) CommandResult
  unfolding answered
  run_on c command limit s =
      let (r, w) = fabric.run c command limit s.world in (answered r, record s { world = w })

  -- `SshTransport.run(argv, timeout_s=…)`
  unfoldable pub run : SshTransport → List Str → Timeout → Action (Channel W C) CommandResult
  unfolding effective_timeout connected run_on shlex_join
  run t argv timeout_s = effective_timeout t timeout_s >>= λ limit.
      connected t >>= λ c. run_on c (shlex_join argv) limit

-- The local machine: the path of the control socket, `os.makedirs` of its directory, and
-- `subprocess.run` with a timeout.
pub record Local (W : Type 0) : Type 0 where
  pub control_path : Str
  pub make_dirs : Action W (Unit {0})
  pub spawn : List Str → ℕ → Action W Ending

-- `except OSError`
pub is_os_error : Exn → Bool
is_os_error (os_error m) = true
is_os_error (timeout_error m) = true
is_os_error _ = false

pub spawned : {W : Type 0} → Ending → Action W (Unit {0})
spawned completed = pure tt
spawned expired = throw (transport_error (codes "rsync timed out") none)
spawned (failed code) = throw (transport_error (codes "rsync failed") (some code))
spawned not_launched = throw (transport_error (codes "rsync launch failed") none)

module _ {W : Type 0} (local : Local W) (t : SshTransport) where
  -- `_rsync(argv)`
  pub rsync : List Str → Action W (Unit {0})
  unfolding spawned is_os_error
  rsync argv =
      catch local.make_dirs (λ e.
        throw (if is_os_error e then transport_error (codes "rsync launch failed") none else e))
      >> (local.spawn argv t.rsync_timeout_s >>= spawned)

  pub remote_path : Str → Str
  remote_path path = t.cfg.user ++ codes "@" ++ t.cfg.host ++ codes ":" ++ path

  pub push : Str → Str → Bool → List Str → Option Str → Action W (Unit {0})
  unfolding rsync build_rsync_argv remote_path
  push src dst delete excludes chmod =
      rsync (build_rsync_argv local.control_path t.cfg src (remote_path dst) delete excludes chmod)

  pub pull : Str → Str → Bool → List Str → Action W (Unit {0})
  unfolding rsync build_rsync_argv remote_path
  pull src dst delete excludes =
      rsync (build_rsync_argv local.control_path t.cfg (remote_path src) dst delete excludes none)
