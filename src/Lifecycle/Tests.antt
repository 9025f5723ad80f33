-- ===== src/Lifecycle/Tests.antt =====
-- Runs of internal/joblet/core/joblet.go on small states.
use joblet.Prelude.{if◌then◌else◌, str_eq}
use joblet.Prelude.{
  ℕ, ◌+◌, ◌<◌, ◌≤◌, ◌≡◌, ◌⊎◌, inr, refl, subst, Option, none, some, [], Bool, true, false, String,
  Result, ok, err, length,
}
use joblet.Prelude.Int.{ℤ, pos}
use joblet.Prelude.Map
use joblet.Jobs.Domain.{Job, deep_copy, is_running, is_scheduled}
use joblet.Jobs.Logs.{get_buffer}
use joblet.Jobs.{
  list_jobs, new_store, send, create_new_job, update_job, job, resolve_uuid_by_prefix,
  resolve_job_uuid, validate_job_not_running, delete_job,
}
use joblet.Jobs.Stored.{stored, new-empty}
use joblet.Jobs.Tests.{job_of, first_uuid}
use joblet.Lifecycle.{
  Joblet, Request, LifecycleError, start_job, begin_execution, finish_execution, started,
  running_job, delete_all_jobs, stop_job, delete, finish_monitor, ended_job, exited,
}
use joblet.Limits.{
  limits_from_params, new_cpu_percentage, parse_cpu_core_set, parse_range, core_range,
  has_duplicate, is_empty, new_memory_size_from_mb, megabytes, new_bandwidth, to_int,
}
use joblet.Limits.Tests.{texts}
use joblet.Lifecycle.{invalid_resource_spec}
use joblet.Lifecycle.Builder.{
  World, Defaults, BuildRequest, build, timeout_in, new_job, apply_resource_defaults,
}
use joblet.Lifecycle.View.{view}
use joblet.Lifecycle.History.{Step, Steps, IsNew, initial}
use joblet.Lifecycle.Lives.{running, Later, IsGood}
use joblet.Lifecycle.Lives.Stops.{Alive}
use joblet.Lifecycle.Lives.Reachable.{steps-Alive, steps-Later}
use joblet.Lifecycle.Endings.{Ends, running-Ends}
use joblet.Lifecycle.Answers.{StopAnswer, stop_job-Answer, delete_all_jobs-counts}

-- The builder's job of a request for the command sh
abbrev request : Request
request = record { command = "sh"; schedule = ""; uploads = [] }

abbrev first_job : Job
first_job = job_of first_uuid "INITIALIZING"

abbrev no_parse : String → Option ℤ
no_parse t = none

abbrev no_client : String → Option Bool
no_client u = none

abbrev Any : String → Type 0
Any u = Unit

abbrev s0 : Joblet
s0 = initial false true

abbrev s1 : Joblet
s1 = (start_job no_parse s0 false request (ok first_job) true true).0

first-IsNew : IsNew Any s0 first_job
first-IsNew =
    let (status, task) = new-empty false true first_uuid in
    record {
      is_fresh = tt;
      full = refl;
      unknown = (status, task, refl, refl, refl, refl);
      initializing = refl;
    }

s1-steps : Steps Any no_parse no_client s0 s1
s1-steps = Steps.and_then Steps.here (
    Step.starts false request (ok first_job) true true
      λ j e. subst (IsNew Any s0) (ok_injective e) first-IsNew)
  where
    ok_injective :
        {j : Job} → ◌≡◌ {A = Result LifecycleError Job} (ok first_job) (ok j) → first_job ≡ j
    ok_injective e = cc

-- The process starts.
abbrev s2 : Joblet
s2 = (finish_execution s1 [] first_job [] (started [] (some (pos 7))) (pos 10)).0

s2-steps : Steps Any no_parse no_client s0 s2
unfolding start_job begin_execution
s2-steps =
    Steps.and_then s1-steps
      (Step.process_starts [] first_job [] (started [] (some (pos 7))) (pos 10) refl)

steps-Alive_example : IsGood s2 × Alive s2
steps-Alive_example = steps-Alive false true s2-steps

runs : stored s2.store first_uuid ≡ some "RUNNING"
unfolding finish_execution start_job begin_execution running_job create_new_job update_job new_store
    send get_buffer Map.get Map.put
runs = refl

running-Ends_example : Ends s2 first_uuid
running-Ends_example = running-Ends false true s2-steps first_uuid runs

-- The job is stopped and deleted before its monitor stores its end, which brings it back.
abbrev s3 : Joblet
s3 = (delete (stop_job s2 first_uuid true).0 first_uuid).0

s3-steps : Steps Any no_parse no_client s0 s3
s3-steps =
    Steps.and_then (Steps.and_then s2-steps (Step.stops first_uuid true)) (Step.deletes first_uuid)

abbrev s4 : Joblet
s4 = finish_monitor s3 [] (running_job first_job [] (some (pos 7))) [] (exited (pos 0)) (pos 20)

deleted_job_returns :
    (stored s3.store first_uuid ≡ none) × (stored s4.store first_uuid ≡ some "COMPLETED")
unfolding finish_execution start_job begin_execution running_job create_new_job update_job new_store
    send get_buffer Map.get Map.put Map.remove stop_job delete finish_monitor ended_job job
    deep_copy is_running is_scheduled delete_job resolve_job_uuid resolve_uuid_by_prefix
    validate_job_not_running
deleted_job_returns = (refl, refl)

-- From the running job on, no new job has its UUID.
abbrev NoMore : String → Type 0
NoMore u = ⊥

s4-later : Steps NoMore no_parse no_client s2 s4
unfolding finish_execution start_job begin_execution stop_job delete create_new_job update_job
    new_store send get_buffer Map.get Map.put Map.remove running_job job deep_copy is_running
    is_scheduled delete_job resolve_job_uuid resolve_uuid_by_prefix validate_job_not_running
s4-later =
    let s3-later : Steps NoMore no_parse no_client s2 s3 =
      Steps.and_then (Steps.and_then Steps.here (Step.stops first_uuid true))
        (Step.deletes first_uuid) in
    Steps.and_then s3-later (
      Step.process_ends [] (running_job first_job [] (some (pos 7))) [] (exited (pos 0)) (pos 20)
        refl)

steps-Later_example : Later first_uuid running (view s4 first_uuid)
unfolding finish_execution start_job begin_execution running_job create_new_job update_job new_store
    send get_buffer Map.get Map.put
steps-Later_example =
    steps-Later (steps-Alive false true s2-steps).0 (steps-Alive false true s2-steps).1 s4-later
      first_uuid running (λ x. x) ((refl, refl, refl, refl, refl), inr refl)

stop_job-Answer_example : StopAnswer s2 first_uuid false (stop_job s2 first_uuid false)
stop_job-Answer_example =
    stop_job-Answer s2 first_uuid false (steps-Alive false true s2-steps).0
      (steps-Alive false true s2-steps).1

delete_all_jobs-counts_example :
    ((d : ℕ) × (k : ℕ) × ((delete_all_jobs no_client s2).1 ≡ ok (d, k))
      × (d + k ≡ length (list_jobs s2.store)))
    ⊎ ((n : ℕ) × ((delete_all_jobs no_client s2).1 ≡ err n)
        × 0 < n
        × n ≤ length (list_jobs s2.store))
delete_all_jobs-counts_example = delete_all_jobs-counts no_client s2

abbrev world : World
world = record {
  uuid = first_uuid;
  now = pos 10;
  parse_duration = λ s. if str_eq s "30s" then some (pos 30000000000) else none;
  job_path = λ base u. base;
  texts = texts;
}

abbrev defaults : Defaults
defaults = record {
  cpu_limit = pos 100;
  memory_limit = pos 512;
  io_limit = pos 0;
  cgroup_base = "/sys/fs/cgroup/joblet.slice";
  node_id = "n1";
}

-- A request for a share of the CPU
abbrev build_request : ℤ → BuildRequest
build_request cpu = record {
  command = "sh";
  args = [];
  limits = limits_from_params texts cpu "0-3" (pos 256) (pos 0);
  schedule = "";
  network = "bridge";
  volumes = [];
  runtime = "";
  environment = [];
  secret_environment = [];
  job_type = "standard";
  working_directory = "/work";
  uploads = [];
  gpu_count = pos 0;
  gpu_memory_mb = pos 0;
  timeout = "30s";
}

abbrev built_job : Job
built_job = new_job world defaults (build_request (pos 50)) (pos 30000000000) (
    apply_resource_defaults world defaults
      (limits_from_params texts (pos 50) "0-3" (pos 256) (pos 0)))

builds : build world defaults (build_request (pos 50)) ≡ ok built_job
unfolding build timeout_in new_job apply_resource_defaults limits_from_params new_cpu_percentage
    parse_cpu_core_set parse_range core_range has_duplicate is_empty new_memory_size_from_mb
    megabytes new_bandwidth to_int
builds = refl

-- A share of 200 is refused, while one of 20000 is ignored and gets the default.
shares :
    (build world defaults (build_request (pos 200)) ≡ err invalid_resource_spec)
    × ((apply_resource_defaults world defaults (build_request (pos 20000)).limits).cpu ≡ pos 100)
unfolding build timeout_in new_job apply_resource_defaults limits_from_params new_cpu_percentage
    parse_cpu_core_set parse_range core_range has_duplicate is_empty new_memory_size_from_mb
    megabytes new_bandwidth to_int
shares = (refl, refl)
