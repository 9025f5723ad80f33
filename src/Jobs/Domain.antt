-- ===== src/Jobs/Domain.antt =====
-- A job and its status: internal/joblet/domain/job.go, less the cached value objects.
use joblet.Prelude.{ℕ, Bool, ◌||◌, String, Option, List, [], str_eq}
use joblet.Prelude.Int.{ℤ}
use joblet.Prelude.Map.{Map}

-- JobStatus
abbrev pub JobStatus : Type 0
JobStatus = String

abbrev pub status_running : JobStatus
status_running = "RUNNING"

abbrev pub status_completed : JobStatus
status_completed = "COMPLETED"

abbrev pub status_failed : JobStatus
status_failed = "FAILED"

abbrev pub status_stopped : JobStatus
status_stopped = "STOPPED"

abbrev pub status_scheduled : JobStatus
status_scheduled = "SCHEDULED"

abbrev pub status_initializing : JobStatus
status_initializing = "INITIALIZING"

abbrev pub status_canceled : JobStatus
status_canceled = "CANCELED"

abbrev pub status_timeout : JobStatus
status_timeout = "TIMEOUT"

-- JobType
abbrev pub JobType : Type 0
JobType = String

-- JobTypeRuntimeBuild
abbrev pub runtime_build : JobType
runtime_build = "runtime-build"

-- ResourceLimits, each value object as the number or text it wraps
pub record ResourceLimits : Type 0 where
  pub cpu : ℤ
  pub cpu_cores : String
  pub memory : ℤ
  pub io_bandwidth : ℤ

-- FileUpload
pub record FileUpload : Type 0 where
  pub upload_path : String
  pub content : List ℕ
  pub mode : ℕ
  pub is_directory : Bool
  pub upload_size : ℤ

-- Job
pub record Job : Type 0 where
  pub uuid : String
  pub command : String
  pub args : List String
  pub type : JobType
  pub limits : ResourceLimits
  pub cgroup_path : String
  pub status : JobStatus
  pub pid : ℤ
  pub start_time : ℤ
  pub end_time : Option ℤ
  pub scheduled_time : Option ℤ
  pub exit_code : ℤ
  pub network : String
  pub volumes : List String
  pub runtime : String
  pub working_directory : String
  pub uploads : List FileUpload
  pub environment : Map String
  pub secret_environment : Map String
  pub gpu_indices : List ℤ
  pub gpu_mig_uuids : List String
  pub gpu_count : ℤ
  pub gpu_memory_mb : ℤ
  pub node_id : String
  pub timeout : ℤ

-- IsRunning
unfoldable pub is_running : Job → Bool
is_running j = str_eq j.status status_running

-- IsCompleted
unfoldable pub is_completed : Job → Bool
is_completed j =
    str_eq j.status status_completed
    || str_eq j.status status_failed
    || str_eq j.status status_stopped
    || str_eq j.status status_timeout

-- IsScheduled
unfoldable pub is_scheduled : Job → Bool
is_scheduled j = str_eq j.status status_scheduled

-- IsRuntimeBuild
unfoldable pub is_runtime_build : Job → Bool
is_runtime_build j = str_eq j.type runtime_build

-- DeepCopy: the type, the working directory and the uploads are left at their zero values.
unfoldable pub deep_copy : Job → Job
deep_copy j = record {
  uuid = j.uuid;
  command = j.command;
  args = j.args;
  type = "";
  limits = j.limits;
  cgroup_path = j.cgroup_path;
  status = j.status;
  pid = j.pid;
  start_time = j.start_time;
  end_time = j.end_time;
  scheduled_time = j.scheduled_time;
  exit_code = j.exit_code;
  network = j.network;
  volumes = j.volumes;
  runtime = j.runtime;
  working_directory = "";
  uploads = [];
  environment = j.environment;
  secret_environment = j.secret_environment;
  gpu_indices = j.gpu_indices;
  gpu_mig_uuids = j.gpu_mig_uuids;
  gpu_count = j.gpu_count;
  gpu_memory_mb = j.gpu_memory_mb;
  node_id = j.node_id;
  timeout = j.timeout;
}
