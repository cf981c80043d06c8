-- ===== src/Transport.antt =====
-- CommandResult and the Transport protocol of
-- src/it/unimib/data/nanofaas/ray_dispatcher/ssh.py: commands and file transfers on one host. The
-- state `W` holds the remote host and all else that the commands reach.
use ray_dispatcher.Base.{ℕ, ℤ, Bool, Option, List, Str}
use ray_dispatcher.Errors.{Action}

-- Without `duration_s`, which nothing reads.
pub record CommandResult : Type 0 where
  pub returncode : ℤ
  pub stdout : Str
  pub stderr : Str

-- A timeout of `run`: the transport's default, none, or one in the unit of time.
pub data Timeout : Type 0 where
  default : Timeout
  unbounded : Timeout
  seconds : ℕ → Timeout

pub record Transport (W : Type 0) : Type 0 where
  pub run : List Str → Timeout → Action W CommandResult
  -- the local path, the remote one, `delete`, `excludes` and `chmod`
  pub push : Str → Str → Bool → List Str → Option Str → Action W (Unit {0})
  pub pull : Str → Str → Action W (Unit {0})
