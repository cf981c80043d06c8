-- ===== src/Values.antt =====
-- The value objects of src/it/unimib/data/nanofaas/ray_dispatcher/models.py. A field holds a value
-- of its declared type here, so the `isinstance` tests of the source hold; durations, timeouts and
-- times are natural numbers of one fixed unit in place of floats.
use ray_dispatcher.Base.{ℕ, ℤ, Bool, Option, List, Str, Dict}

pub record RemoteHost : Type 0 where
  pub host : Str
  pub user : Str
  pub slots : ℕ
  pub port : ℕ
  pub identity_file : Option Str
  pub known_hosts_file : Str

pub record SecretFile : Type 0 where
  pub source : Str
  pub remote_name : Str
  pub env_var : Option Str
  pub mode : ℕ

pub record Project : Type 0 where
  pub path : Str
  pub project_id : Str
  pub python : Str
  pub uv_version : Str
  pub secrets : List SecretFile
  pub exclude : List Str
  pub dependency_groups : List Str
  pub post_setup : List Str

pub record InputSpec : Type 0 where
  pub source : Str
  pub destination : Str

pub record OutputSpec : Type 0 where
  pub source : Str
  pub destination : Option Str
  pub required : Bool

pub record Job : Type 0 where
  pub id : Str
  pub command : List Str
  pub inputs : List InputSpec
  pub outputs : List OutputSpec
  pub env : Dict Str
  pub timeout_s : Option ℕ
  pub cwd : Str

pub data JobStatus : Type 0 where
  pending running succeeded failed timed_out cancelled : JobStatus

pub data FailureKind : Type 0 where
  command ssh timeout output_missing collection host_lost internal : FailureKind

pub record RetryPolicy : Type 0 where
  pub max_attempts : ℕ
  pub retry_on : List FailureKind

pub record JobHandle : Type 0 where
  pub batch_id : Str
  pub job_id : Str
  pub token : Str

pub record AttemptResult : Type 0 where
  pub number : ℕ
  pub host : Str
  pub status : JobStatus
  pub returncode : Option ℤ
  pub duration_s : ℕ
  pub stdout_log : Str
  pub stderr_log : Str
  pub failure_kind : Option FailureKind
  pub error : Option Str

pub record JobResult : Type 0 where
  pub id : Str
  pub batch_id : Str
  pub status : JobStatus
  pub returncode : Option ℤ
  pub duration_s : ℕ
  pub host : Option Str
  pub output_dir : Option Str
  pub attempts : List AttemptResult
  pub error : Option Str

pub record HostProvisioningResult : Type 0 where
  pub host : Str
  pub succeeded : Bool
  pub source_digest : Option Str
  pub environment_digest : Option Str
  pub error : Option Str

abbrev pub ProvisioningReport : Type 0
ProvisioningReport = List HostProvisioningResult

unfoldable pub status_discrete : Discrete JobStatus
status_discrete = hlevel

unfoldable pub kind_discrete : Discrete FailureKind
kind_discrete = hlevel
