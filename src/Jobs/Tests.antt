-- ===== src/Jobs/Tests.antt =====
-- Two jobs under the calls of internal/joblet/adapters/job_store_adapter.go.
use joblet.Prelude.{
  ◌≡◌, refl, true, false, String, none, some, [], ◌∷◌, ◌++◌, ok, if◌then◌else◌, str_eq, starts_with,
  ◌⊎◌,
}
use joblet.Prelude.Int.{pos}
use joblet.Prelude.Map
use joblet.Jobs.Domain.{Job, ResourceLimits, deep_copy, is_running}
use joblet.Jobs.Logs.{get_buffer}
use joblet.Jobs.{
  JobStore, new_store, create_new_job, send, write_to_buffer, output, join, delete_job, job,
  job_is_running, update_job, resolve_uuid_by_prefix, resolve_job_uuid, only_uuid, keys,
  validate_job_not_running,
}
use joblet.Jobs.Consistency.{Reach, start, next, creates}
use joblet.Jobs.Output.{output-write_to_buffer}
use joblet.Jobs.Prefix.{resolve_uuid_by_prefix_unique}
use joblet.Jobs.Deletion.{is_busy, delete_job-Answer, update_job-delete_job}

abbrev limits : ResourceLimits
limits = record { cpu = pos 50; cpu_cores = "0-1"; memory = pos 512; io_bandwidth = pos 0 }

abbrev pub job_of : String → String → Job
job_of uuid status = record {
  uuid = uuid;
  command = "sh";
  args = [];
  type = "standard";
  limits = limits;
  cgroup_path = "";
  status = status;
  pid = pos 0;
  start_time = pos 0;
  end_time = none;
  scheduled_time = none;
  exit_code = pos 0;
  network = "bridge";
  volumes = [];
  runtime = "";
  working_directory = "/work";
  uploads = [];
  environment = [];
  secret_environment = [];
  gpu_indices = [];
  gpu_mig_uuids = [];
  gpu_count = pos 0;
  gpu_memory_mb = pos 0;
  node_id = "n1";
  timeout = pos 0;
}

abbrev pub first_uuid : String
first_uuid = "aaaaaaaa-0000-4000-8000-000000000001"

abbrev second_uuid : String
second_uuid = "bbbbbbbb-0000-4000-8000-000000000002"

-- A running and a stopped job, with logs persisted
abbrev two_jobs : JobStore
two_jobs =
    create_new_job (create_new_job (new_store true true) (job_of first_uuid "RUNNING"))
      (job_of second_uuid "STOPPED")

abbrev without_second : JobStore
without_second = (delete_job two_jobs "bbbb").0

abbrev two_jobs_reached : Reach true true two_jobs
two_jobs_reached =
    next (next start (creates (job_of first_uuid "RUNNING")))
      (creates (job_of second_uuid "STOPPED"))

output-write_to_buffer_example :
    output (write_to_buffer two_jobs "aaaa" (104 ∷ 105 ∷ [])) "aaaa"
    ≡ ok (if two_jobs.persist_enabled then [] ++ (104 ∷ 105 ∷ []) else [], true)
unfolding new_store create_new_job output join get_buffer resolve_uuid_by_prefix only_uuid keys
    Map.get Map.put deep_copy is_running
output-write_to_buffer_example =
    output-write_to_buffer two_jobs "aaaa" (104 ∷ 105 ∷ []) [] true refl

resolve_uuid_by_prefix_unique_example :
    ((t : Job) × (Map.get two_jobs.tasks second_uuid ≡ some t))
    × (starts_with second_uuid "bbbb" ≡ true)
    × ((k : String) (t : Job)
        → Map.get two_jobs.tasks k ≡ some t
        → starts_with k "bbbb" ≡ true
        → k ≡ second_uuid)
unfolding new_store create_new_job resolve_uuid_by_prefix only_uuid keys Map.put deep_copy
resolve_uuid_by_prefix_unique_example =
    resolve_uuid_by_prefix_unique two_jobs "bbbb" second_uuid refl refl

delete_job-Answer_example :
    (is_busy (job_of second_uuid "STOPPED") ≡ true)
      × (delete_job two_jobs "bbbb" ≡ (two_jobs, some job_is_running))
    ⊎ (is_busy (job_of second_uuid "STOPPED") ≡ false)
      × ((delete_job two_jobs "bbbb").1 ≡ none)
      × ((k : String)
          → job without_second k ≡ (if str_eq second_uuid k then none else job two_jobs k))
      × ((other : String) → output without_second other ≡ output two_jobs other)
unfolding new_store create_new_job resolve_uuid_by_prefix only_uuid keys Map.get Map.put deep_copy
delete_job-Answer_example =
    delete_job-Answer two_jobs "bbbb" second_uuid (job_of second_uuid "STOPPED") refl refl refl

update_job-delete_job_example :
    (job without_second second_uuid ≡ none)
    × (job (update_job without_second (job_of second_uuid "FAILED")) second_uuid
        ≡ some (deep_copy (job_of second_uuid "FAILED")))
unfolding new_store create_new_job delete_job resolve_job_uuid resolve_uuid_by_prefix only_uuid keys
    validate_job_not_running job Map.get Map.put Map.remove deep_copy send
update_job-delete_job_example =
    update_job-delete_job two_jobs without_second "bbbb" second_uuid (job_of second_uuid "FAILED")
      (deep_copy (job_of second_uuid "STOPPED")) refl refl refl refl
