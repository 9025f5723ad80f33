-- ===== src/Jobs.antt =====
-- The job store: internal/joblet/adapters/job_store_adapter.go over the in-memory SimpleJobStore of
-- in_memory_stores.go, whose calls never fail. A job handed in is a value of its own. Calls do
-- not overlap, though the store and the task are written under locks of their own; the calls it starts in the background are recorded in the order it starts them.
-- A task's log buffer is the manager's buffer of the same UUID, as both are made and dropped
-- together; log lines and subscriptions are left out.
pub mod Domain
pub mod Logs
pub mod Effects
pub mod Consistency
pub mod Output
pub mod Prefix
pub mod Tests
pub mod Deletion
pub mod Stored
use joblet.Prelude.{
  ℕ, Bool, true, false, ◌||◌, not, String, len, starts_with, Option, none, some, List, [], ◌∷◌,
  ◌++◌, map, Result, ok, err, str_eq, ◌==◌, ltb, length, keep, if◌then◌else◌,
}
use joblet.Prelude.Map.{Map}
use joblet.Prelude.Map
use joblet.Jobs.Domain.{
  Job, JobStatus, deep_copy, is_running, is_completed, status_running, status_initializing,
}
use joblet.Jobs.Logs.{
  Chunk, LogBuffer, LogManager, write, read_after_skip, get_buffer, remove_buffer,
}

-- JobEvent, by its type, without the time stamp
pub data JobEvent : Type 0 where
  created : String → JobStatus → JobEvent
  updated : String → JobStatus → JobEvent
  deleted : String → JobEvent
  log_chunk : String → Chunk → JobEvent

-- A call to the state service that runs in the background
pub data StateCall : Type 0 where
  state_create : Job → StateCall
  state_update : Job → StateCall
  state_delete : String → StateCall

pub data JobError : Type 0 where
  adapter_closed : JobError
  job_not_found : JobError
  job_is_running : JobError
  no_match : JobError
  ambiguous : JobError
  persist_failed : JobError
  no_state_client : JobError
  list_failed : JobError

-- jobStoreAdapter; `tasks` holds the job of each task wrapper.
pub record JobStore : Type 0 where
  pub jobs : Map Job
  pub tasks : Map Job
  log_mgr : LogManager
  published : List JobEvent
  state_calls : List StateCall
  has_state_client : Bool
  persist_enabled : Bool
  pub closed : Bool

-- NewJobStorer
unfoldable pub new_store : Bool → Bool → JobStore
new_store state persist = record {
  jobs = [];
  tasks = [];
  log_mgr = [];
  published = [];
  state_calls = [];
  has_state_client = state;
  persist_enabled = persist;
  closed = false;
}

-- The background call, where there is a state client
unfoldable pub send : JobStore → StateCall → List StateCall
send s c = if s.has_state_client then s.state_calls ++ (c ∷ []) else s.state_calls

-- CreateNewJob
unfoldable pub create_new_job : JobStore → Job → JobStore
unfolding get_buffer send
create_new_job s job = if s.closed then s else record s {
  jobs = Map.put s.jobs job.uuid job;
  tasks = Map.put s.tasks job.uuid (deep_copy job);
  log_mgr = (get_buffer s.log_mgr job.uuid).0;
  published = s.published ++ (created job.uuid job.status ∷ []);
  state_calls = send s (state_create job);
}

-- UpdateJob
unfoldable pub update_job : JobStore → Job → JobStore
update_job s job = if s.closed then s else elim (Map.get s.tasks job.uuid) [
  | none ↦ s
  | some task ↦ record s {
    jobs = Map.put s.jobs job.uuid job;
    tasks = Map.put s.tasks job.uuid (deep_copy job);
    published = s.published ++ (updated job.uuid job.status ∷ []);
    state_calls = send s (state_update job);
  }
]

-- Job
unfoldable pub job : JobStore → String → Option Job
job s id =
    if s.closed
    then none
    else elim (Map.get s.jobs id) [ none ↦ none | some j ↦ some (deep_copy j) ]

-- The choice of JobByPrefix among the matches
pub only_match : List Job → Option Job
only_match [] = none
only_match (j ∷ []) = some (deep_copy j)
only_match (_ ∷ _ ∷ _) = none

-- JobByPrefix
pub job_by_prefix : JobStore → String → Option Job
unfolding job
job_by_prefix s prefix = elim (job s prefix) [
  | some j ↦ some j
  | none ↦
      if ltb (len prefix) 36
      then (if s.closed
          then none
          else only_match (keep (λ j. starts_with j.uuid prefix) (Map.values s.jobs)))
      else none
]

-- ListJobs
pub list_jobs : JobStore → List Job
list_jobs s = if s.closed then [] else map deep_copy (Map.values s.jobs)

-- for uuid := range m
pub keys {ℓ} : {V : Type ℓ} → Map V → List String
keys [] = []
keys ((k, _) ∷ m) = k ∷ keys m

-- The choice of resolveUuidByPrefix among the matches
pub only_uuid : List String → Result JobError String
only_uuid [] = err no_match
only_uuid (u ∷ []) = ok u
only_uuid (_ ∷ _ ∷ _) = err ambiguous

-- resolveUuidByPrefix
unfoldable pub resolve_uuid_by_prefix : JobStore → String → Result JobError String
resolve_uuid_by_prefix s prefix =
    if len prefix == 36
    then ok prefix
    else only_uuid (keep (λ u. starts_with u prefix) (keys s.tasks))

-- resolveJobUuid
unfoldable pub resolve_job_uuid : JobStore → String → Result JobError String
resolve_job_uuid s id = elim (resolve_uuid_by_prefix s id) [
  | err e ↦ err job_not_found
  | ok u ↦ ok u
]

-- WriteToBuffer from the check of the task on
pub write_to_task : JobStore → String → Chunk → JobStore
write_to_task s u chunk = elim (Map.get s.tasks u) [
  | none ↦ s
  | some task ↦ record s {
    log_mgr =
        if s.persist_enabled
        then Map.put s.log_mgr u (write (get_buffer s.log_mgr u).1 chunk)
        else s.log_mgr;
    published = s.published ++ (log_chunk u chunk ∷ []);
  }
]

-- WriteToBuffer
pub write_to_buffer : JobStore → String → Chunk → JobStore
write_to_buffer s id [] = s
write_to_buffer s id (b ∷ chunk) = elim (resolve_uuid_by_prefix s id) [
  | err e ↦ s
  | ok u ↦ write_to_task s u (b ∷ chunk)
]

-- The chunks one after another
pub join : List Chunk → Chunk
join [] = []
join (c ∷ cs) = c ++ join cs

-- Output: the bytes, and whether the job is running
pub output : JobStore → String → Result JobError (Chunk × Bool)
output s id = elim (resolve_uuid_by_prefix s id) [
  | err e ↦ err job_not_found
  | ok u ↦ elim (Map.get s.tasks u) [
    | none ↦ err job_not_found
    | some task ↦ ok (join (get_buffer s.log_mgr u).1, is_running task)
  ]
]

-- validateJobNotRunning
unfoldable pub validate_job_not_running : Job → Option JobError
validate_job_not_running j =
    if str_eq j.status status_running || str_eq j.status status_initializing
    then some job_is_running
    else none

-- DeleteJob: the task and its logs stay.
unfoldable pub delete_job : JobStore → String → JobStore × Option JobError
delete_job s id = if s.closed then (s, some adapter_closed) else elim (resolve_job_uuid s id) [
  | err e ↦ (s, some e)
  | ok u ↦ elim (job s u) [
    | none ↦ (s, some job_not_found)
    | some j ↦ elim (validate_job_not_running j) [
      | some e ↦ (s, some e)
      | none ↦ (
        record s {
          jobs = Map.remove s.jobs u;
          published = s.published ++ (deleted u ∷ []);
          state_calls = send s (state_delete u);
        },
        none,
      )
    ]
  ]
]

-- completeTaskCleanup
pub complete_task_cleanup : JobStore → String → JobStore
complete_task_cleanup s u = elim (Map.get s.tasks u) [
  | none ↦ s
  | some task ↦ record s { log_mgr = (remove_buffer s.log_mgr u).0; tasks = Map.remove s.tasks u }
]

-- DeleteJobLogs; `persist` answers the persist service's DeleteJob: none without a client, and
-- otherwise whether the call succeeded.
pub delete_job_logs : (String → Option Bool) → JobStore → String → JobStore × Option JobError
delete_job_logs persist s id =
    if s.closed then (s, some adapter_closed) else elim (resolve_job_uuid s id) [
      | err e ↦ (s, some e)
      | ok u ↦ elim (persist u) [
        | none ↦ (complete_task_cleanup s u, none)
        | some done ↦ (complete_task_cleanup s u, if done then none else some persist_failed)
      ]
    ]

-- The body of the loop of SyncFromPersistentState
pub restore_job : JobStore → Job → JobStore
unfolding get_buffer
restore_job s j = record s {
  jobs = Map.put s.jobs j.uuid j;
  tasks = Map.put s.tasks j.uuid (deep_copy j);
  log_mgr = (get_buffer s.log_mgr j.uuid).0;
}

-- The loop of SyncFromPersistentState
pub restore : JobStore → List Job → JobStore
restore s [] = s
restore s (j ∷ js) = restore (restore_job s j) js

-- SyncFromPersistentState, given the state service's answer
pub sync_from_persistent_state : Option (List Job) → JobStore → JobStore × Option JobError
sync_from_persistent_state listed s =
    if s.has_state_client
    then elim listed [ none ↦ (s, some list_failed) | some js ↦ (restore s js, none) ]
    else (s, some no_state_client)

-- Close: the log buffers stay.
pub close : JobStore → JobStore
close s = if s.closed then s else record s { jobs = []; tasks = []; closed = true }
