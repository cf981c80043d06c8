-- ===== src/Samples/Channels.antt =====
-- A command over an SSH connection.
use ray_dispatcher.Base.{ℕ, suc, ◌≡◌, refl, none, some, List, [], ◌∷◌, pos, Str, codes}
use ray_dispatcher.Errors.{ok, pure}
use ray_dispatcher.Shell.{is_safe, tick_out, quote}
use ray_dispatcher.Transport.{CommandResult, default}
use ray_dispatcher.Ssh.{
  SshConfig, SshTransport, Fabric, run, effective_timeout, connected, conn_or, keep_conn,
  build_connection, validate_timeout, run_on, answered, shlex_join,
}
use ray_dispatcher.Ssh.CommandLine.{Answered, run-Answered}

abbrev cfg : SshConfig
cfg = record {
  host = codes "a";
  user = codes "u";
  port = 22;
  identity_file = none;
  known_hosts_file = codes "/k";
}

abbrev transport : SshTransport
transport = record {
  cfg = cfg;
  connect_timeout_s = 10;
  control_timeout_s = 300;
  rsync_timeout_s = 300;
}

abbrev done : CommandResult
done = record { returncode = pos 0; stdout = []; stderr = [] }

-- The world counts the commands.
abbrev fabric : Fabric ℕ ℕ
fabric = record {
  connection = λ host user port limit key. pure port;
  load_host_keys = λ c file. pure tt;
  reject_unknown_hosts = λ c. pure tt;
  run = λ c command limit n. (ok done, suc n);
}

abbrev argv : List Str
argv = codes "mv" ∷ codes "-f" ∷ codes "it's" ∷ codes "a b" ∷ []

run-Answered_example : Answered fabric argv done (record { conn = some 22; world = 1 })
unfolding run effective_timeout connected conn_or keep_conn build_connection run_on answered
    validate_timeout
run-Answered_example =
    run-Answered fabric transport argv default (record { conn = none; world = 0 })
      (record { conn = some 22; world = 1 }) done refl refl

join_argv : shlex_join argv ≡ codes "mv -f 'it'\"'\"'s' 'a b'"
unfolding shlex_join quote is_safe tick_out
join_argv = refl
