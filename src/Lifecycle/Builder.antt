-- ===== src/Lifecycle/Builder.antt =====
-- The construction of a job from a request: internal/joblet/core/job/builder.go. The new UUID, the time
-- and what time.ParseDuration and filepath.Join answer are arguments;
-- `job_path` is the join of a directory and "job-" before a UUID.
pub mod Shares
use joblet.Prelude.{
  ◌≡◌, inl, inr, refl, arith, ◌||◌, String, Option, none, some, List, [], Result, ok, err, str_eq,
  Bool-cases, Option-cases, Result-cases, subst, if◌then◌else◌,
}
use joblet.Prelude.Int.{ℤ, pos, ltb_ℤ, ◌≤ℤ◌}
use joblet.Prelude.Map.{Map}
use joblet.Jobs.Domain.{Job, FileUpload, status_initializing}
use joblet.Limits.{Texts, Limits, is_empty, megabytes, limits_from_params}
use joblet.Lifecycle.{LifecycleError, invalid_job_spec, invalid_resource_spec}

-- BuildRequest; the limits are those of NewResourceLimitsFromParams.
pub record BuildRequest : Type 0 where
  pub command : String
  pub args : List String
  pub limits : Limits
  pub schedule : String
  pub network : String
  pub volumes : List String
  pub runtime : String
  pub environment : Map String
  pub secret_environment : Map String
  pub job_type : String
  pub working_directory : String
  pub uploads : List FileUpload
  pub gpu_count : ℤ
  pub gpu_memory_mb : ℤ
  pub timeout : String

-- What the builder reads of the configuration
pub record Defaults : Type 0 where
  pub cpu_limit : ℤ
  pub memory_limit : ℤ
  pub io_limit : ℤ
  pub cgroup_base : String
  pub node_id : String

-- What the builder gets from outside
pub record World : Type 0 where
  pub uuid : String
  pub now : ℤ
  pub parse_duration : String → Option ℤ
  pub job_path : String → String → String
  pub texts : Texts

-- applyResourceDefaults
unfoldable pub apply_resource_defaults : World → Defaults → Limits → Limits
apply_resource_defaults w d l =
    let positive : ℤ → ℤ → ℤ = λ v default. if ltb_ℤ (pos 0) v then v else default in
    limits_from_params w.texts (positive l.cpu d.cpu_limit)
      (if is_empty l.cpu_cores then "" else l.cpu_cores.spec)
      (positive (megabytes l.memory) d.memory_limit) (positive l.io_bandwidth d.io_limit)

-- The timeout of Build
unfoldable pub timeout_in : World → String → Result LifecycleError ℤ
timeout_in w text = if str_eq text "" then ok (pos 0) else elim (w.parse_duration text) [
  | none ↦ err invalid_job_spec
  | some t ↦ if ltb_ℤ t (pos 0) then err invalid_job_spec else ok t
]

-- The job of Build, with its timeout and its limits
unfoldable pub new_job : World → Defaults → BuildRequest → ℤ → Limits → Job
new_job w d req timeout l = record {
  uuid = w.uuid;
  command = req.command;
  args = req.args;
  type = req.job_type;
  limits = record {
    cpu = l.cpu;
    cpu_cores = l.cpu_cores.spec;
    memory = l.memory;
    io_bandwidth = l.io_bandwidth;
  };
  cgroup_path = w.job_path d.cgroup_base w.uuid;
  status = status_initializing;
  pid = pos 0;
  start_time = w.now;
  end_time = none;
  scheduled_time = none;
  exit_code = pos 0;
  network = req.network;
  volumes = req.volumes;
  runtime = req.runtime;
  working_directory = req.working_directory;
  uploads = req.uploads;
  environment = req.environment;
  secret_environment = req.secret_environment;
  gpu_indices = [];
  gpu_mig_uuids = [];
  gpu_count = req.gpu_count;
  gpu_memory_mb = req.gpu_memory_mb;
  node_id = d.node_id;
  timeout = timeout;
}

-- Build
unfoldable pub build : World → Defaults → BuildRequest → Result LifecycleError Job
build w d req = elim (timeout_in w req.timeout) [
  | err e ↦ err e
  | ok t ↦
      let l = apply_resource_defaults w d req.limits in
      if ltb_ℤ l.cpu (pos 0) || ltb_ℤ (pos 100) l.cpu
      then err invalid_resource_spec
      else if ltb_ℤ l.memory (pos 0)
      then err invalid_resource_spec
      else ok (new_job w d req t l)
]

timeout_in-positive : (w : World) (text : String) (t : ℤ) → timeout_in w text ≡ ok t → pos 0 ≤ℤ t
unfolding timeout_in
timeout_in-positive w text t h = elim (Bool-cases (str_eq text "")) [
  | inl empty ↦ grind arith
  | inr given ↦ elim (Option-cases (w.parse_duration text)) [
    | inl bad ↦ absurd (grind arith)
    | inr (s, parsed) ↦ elim (Bool-cases (ltb_ℤ s (pos 0))) [
      | inl below ↦ absurd (grind arith)
      | inr fine ↦ grind arith
    ]
  ]
]

-- What holds of a job that Build makes
pub record IsBuilt (w : World) (d : Defaults) (req : BuildRequest) (j : Job) : Type 0 where
  pub named : j.uuid ≡ w.uuid
  pub initializing : j.status ≡ status_initializing
  pub commanded : (j.command ≡ req.command) × (j.node_id ≡ d.node_id)
  pub cpu : pos 0 ≤ℤ j.limits.cpu × j.limits.cpu ≤ℤ pos 100
  pub memory : pos 0 ≤ℤ j.limits.memory
  pub timeout : pos 0 ≤ℤ j.timeout

-- Every job that Build makes has the new UUID and is initializing, carries the request's command and the
-- node's identifier, and its limits are in bounds: a share of the CPU from 0 to 100, and neither a
-- negative memory nor a negative timeout.
pub build-IsBuilt :
    (w : World) (d : Defaults) (req : BuildRequest) (j : Job)
    → build w d req ≡ ok j
    → IsBuilt w d req j
unfolding build new_job
build-IsBuilt w d req j h = elim (Result-cases (timeout_in w req.timeout)) [
  | inl (e, bad) ↦ absurd (grind arith)
  | inr (t, good) ↦
      let l = apply_resource_defaults w d req.limits in
      elim (Bool-cases (ltb_ℤ l.cpu (pos 0) || ltb_ℤ (pos 100) l.cpu)) [
        | inl off ↦ absurd (grind arith)
        | inr share ↦ elim (Bool-cases (ltb_ℤ l.memory (pos 0))) [
          | inl off ↦ absurd (grind arith)
          | inr size ↦
              let made : new_job w d req t l ≡ j = grind arith in
              subst (IsBuilt w d req) made (record {
                named = refl;
                initializing = refl;
                commanded = (refl, refl);
                cpu = (ground arith, ground arith);
                memory = ground arith;
                timeout = timeout_in-positive w req.timeout t good;
              })
        ]
      ]
]
