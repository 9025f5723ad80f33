-- ===== src/Lifecycle.antt =====
-- The life of a job: internal/joblet/core/joblet.go over the job store and the scheduler. A call that
-- waits for the operating system is two operations, before and after the wait; what the operating
-- system, the file system and the cleanup coordinator answer is an argument. The metrics, the eBPF
-- monitor and the log are left out, as their failures change nothing here.
pub mod View
pub mod History
pub mod Lives
pub mod Endings
pub mod Builder
pub mod Recovery
pub mod Answers
pub mod Tests
use joblet.Prelude.{
  ℕ, zero, suc, ◌+◌, Bool, true, false, ◌||◌, String, Option, none, some, List, [], ◌∷◌, ◌++◌, map,
  Result, ok, err, str_eq, if◌then◌else◌,
}
use joblet.Prelude.Int.{ℤ, pos, negsuc, ltb_ℤ}
use joblet.Jobs.Domain.{
  Job, FileUpload, is_running, is_scheduled, is_runtime_build, status_running, status_completed,
  status_failed, status_stopped, status_scheduled, status_initializing, status_canceled,
  status_timeout,
}
use joblet.Jobs.{JobStore, create_new_job, update_job, job, list_jobs, delete_job, delete_job_logs}
use joblet.Scheduler.{Scheduler, next, add_job, remove_job}
use joblet.Scheduler.Heap.{ScheduledJob}

pub data LifecycleError : Type 0 where
  context_done : LifecycleError
  invalid_job_spec : LifecycleError
  invalid_resource_spec : LifecycleError
  invalid_schedule : LifecycleError
  uploads_failed : LifecycleError
  setup_failed : LifecycleError
  execution_failed : LifecycleError
  job_not_found : LifecycleError
  job_canceled : LifecycleError
  job_not_scheduled : LifecycleError
  not_removed : LifecycleError
  job_not_running : LifecycleError
  job_active : LifecycleError
  store_failed : LifecycleError
  cleanup_failed : LifecycleError

-- What StartJob reads of its request besides what the builder reads
pub record Request : Type 0 where
  pub command : String
  pub schedule : String
  pub uploads : List FileUpload

-- Joblet, with the calls between two of their writes: the jobs that scheduleJob has stored but not yet
-- handed to the scheduler, with the time that each is due; those that StopJob has taken from the
-- scheduler but not yet stored as canceled; the job that the run loop has taken from the queue; the
-- jobs whose process is being started, those under a monitorJob, and those whose StopJob waits for
-- the cleanup.
pub record Joblet : Type 0 where
  pub store : JobStore
  pub scheduler : Scheduler
  pub queuing : List ScheduledJob
  pub canceling : List Job
  pub taken : List Job
  pub starting : List Job
  pub monitors : List Job
  pub stopping : List Job

-- How the call of StartProcessWithUploads ends, with the GPUs that it allocated to the job
pub data Started : Type 0 where
  started : List ℤ → Option ℤ → Started
  not_started : List ℤ → Started

-- How monitorJob's wait ends: the process exits with a status (0 for success), fails otherwise, or the
-- time runs out.
pub data Ended : Type 0 where
  exited : ℤ → Ended
  wait_failed : Ended
  timed_out : Ended

-- What the cleanup coordinator answers
pub data Cleanup : Type 0 where
  cleaned : Cleanup
  in_progress : Cleanup
  not_cleaned : Cleanup

-- The first part of executeJob, up to the start of the process
unfoldable pub begin_execution : Joblet → Job → Bool → Joblet × Result LifecycleError Job
begin_execution s j resources =
    if resources
    then (record s { store = create_new_job s.store j; starting = s.starting ++ (j ∷ []) }, ok j)
    else (s, err setup_failed)

-- updateJobRunning: the job it stores
unfoldable pub running_job : Job → List ℤ → Option ℤ → Job
running_job j gpus process = record j {
  gpu_indices = gpus;
  pid = elim process [ none ↦ j.pid | some p ↦ p ];
  status = status_running;
}

-- handleExecutionFailure: the job it stores
unfoldable pub failed_job : Job → List ℤ → ℤ → Job
failed_job j gpus now = record j {
  gpu_indices = gpus;
  status = status_failed;
  exit_code = negsuc 0;
  end_time = some now;
}

-- The rest of executeJob for a job of the list before, j, after
unfoldable pub finish_execution :
    Joblet → List Job → Job → List Job → Started → ℤ → Joblet × Result LifecycleError Job
finish_execution s before j after (started gpus process) now = (
  record s {
    store = update_job s.store (running_job j gpus process);
    starting = before ++ after;
    monitors = s.monitors ++ (running_job j gpus process ∷ []);
  },
  ok (running_job j gpus process),
)
finish_execution s before j after (not_started gpus) now = (
  record s { store = update_job s.store (failed_job j gpus now); starting = before ++ after },
  err execution_failed,
)

-- scheduleJob, up to CreateNewJob; `parse_time` is time.Parse, and `prepared` whether the uploads could be prepared.
unfoldable pub schedule_job :
    (String → Option ℤ) → Joblet → Job → Request → Bool → Joblet × Result LifecycleError Job
schedule_job parse_time s j req prepared = elim (parse_time req.schedule) [
  | none ↦ (s, err invalid_schedule)
  | some t ↦
      let scheduled = record j { scheduled_time = some t; status = status_scheduled } in
      let queued = record s {
        store = create_new_job s.store scheduled;
        queuing = s.queuing ++ (record { job = scheduled; scheduled_time = t } ∷ []);
      } in
      elim req.uploads [
        | [] ↦ (queued, ok scheduled)
        | _ ∷ _ ↦ if prepared then (queued, ok scheduled) else (s, err uploads_failed)
      ]
]

-- The rest of scheduleJob, AddJob, for an item of the list before, x, after
unfoldable pub finish_schedule :
    Joblet → List ScheduledJob → ScheduledJob → List ScheduledJob → Joblet
finish_schedule s before x after = record s {
  scheduler = add_job s.scheduler (record x.job { scheduled_time = some x.scheduled_time });
  queuing = before ++ after;
}

-- StartJob, up to the start of the process; `built` is what the builder makes of the request.
unfoldable pub start_job :
    (String → Option ℤ)
    → Joblet
    → Bool
    → Request
    → Result LifecycleError Job
    → Bool
    → Bool
    → Joblet × Result LifecycleError Job
start_job parse_time s done req built prepared resources =
    if done
    then (s, err context_done)
    else if str_eq req.command ""
    then (s, err invalid_job_spec)
    else elim built [
      | err e ↦ (s, err e)
      | ok j ↦
          if str_eq req.schedule ""
          then begin_execution s j resources
          else schedule_job parse_time s j req prepared
    ]

-- The scheduler's run loop takes the next job.
unfoldable pub take_scheduled : Joblet → Joblet
take_scheduled s =
    let (answer, rest) = next s.scheduler.queue in
    record s {
      scheduler = record s.scheduler { queue = rest };
      taken = elim answer [ none ↦ s.taken | some j ↦ s.taken ++ (j ∷ []) ];
    }

-- executeScheduledJob, up to the start of the process
unfoldable pub execute_scheduled_job : Joblet → Job → Bool → Joblet × Result LifecycleError Job
execute_scheduled_job s j resources = elim (job s.store j.uuid) [
  | none ↦ (s, err job_not_found)
  | some fresh ↦
      if str_eq fresh.status status_canceled
      then (s, err job_canceled)
      else if str_eq fresh.status status_scheduled
      then (let begun = record fresh { status = status_initializing } in
          begin_execution (record s { store = update_job s.store begun }) begun resources)
      else (s, err job_not_scheduled)
]

-- StopJob, up to the UpdateJob for a job taken from the scheduler or the wait for the cleanup;
-- `cleaning` is whether a cleanup is in progress.
unfoldable pub stop_job : Joblet → String → Bool → Joblet × Option LifecycleError
stop_job s id cleaning = elim (job s.store id) [
  | none ↦ (s, some job_not_found)
  | some j ↦
      if is_scheduled j
      then (let (rest, removed) = remove_job s.scheduler id in
          if removed
          then (record s { scheduler = rest; canceling = s.canceling ++ (j ∷ []) }, none)
          else (s, some not_removed))
      else if is_running j
      then (if cleaning
          then (
            record s { store = update_job s.store (record j { status = status_stopped }) },
            none,
          )
          else (record s { stopping = s.stopping ++ (j ∷ []) }, none))
      else (s, some job_not_running)
]

-- The UpdateJob of StopJob for a job that was taken from the scheduler, of the list before, j, after
unfoldable pub finish_cancel : Joblet → List Job → Job → List Job → Joblet
finish_cancel s before j after = record s {
  store = update_job s.store (record j { status = status_canceled });
  canceling = before ++ after;
}

-- The rest of StopJob for a job of the list before, j, after
unfoldable pub finish_stop :
    Joblet → List Job → Job → List Job → Cleanup → Joblet × Option LifecycleError
finish_stop s before j after answer = (
  record s {
    store = update_job s.store (record j { status = status_stopped });
    stopping = before ++ after;
  },
  elim answer [ cleaned ↦ none | in_progress ↦ none | not_cleaned ↦ some cleanup_failed ],
)

-- The timeout that monitorJob sets: none for no limit
unfoldable pub timeout_of : ℤ → Job → Option ℤ
timeout_of configured j =
    let timeout = if ltb_ℤ (pos 0) j.timeout then j.timeout else configured in
    if ltb_ℤ (pos 0) timeout then some timeout else none

-- The job that monitorJob stores
unfoldable pub ended_job : Job → Ended → ℤ → Job
ended_job j (exited (pos zero)) now = record j {
  status = status_completed;
  exit_code = pos 0;
  end_time = some now;
}
ended_job j (exited code) now = record j {
  status = status_failed;
  exit_code = code;
  end_time = some now;
}
ended_job j wait_failed now = record j {
  status = status_failed;
  exit_code = negsuc 0;
  end_time = some now;
}
ended_job j timed_out now = record j {
  status = status_timeout;
  exit_code = pos 124;
  end_time = some now;
}

-- The rest of monitorJob, after its wait, for a job of the list before, j, after
unfoldable pub finish_monitor : Joblet → List Job → Job → List Job → Ended → ℤ → Joblet
finish_monitor s before j after how now = record s {
  store = update_job s.store (ended_job j how now);
  monitors = before ++ after;
}

-- DeleteJob
unfoldable pub delete : Joblet → String → Joblet × Option LifecycleError
delete s id = elim (job s.store id) [
  | none ↦ (s, some job_not_found)
  | some j ↦
      if is_running j || is_scheduled j
      then (s, some job_active)
      else (let (store, failed) = delete_job s.store id in
          (record s { store = store }, elim failed [ none ↦ none | some _ ↦ some store_failed ]))
]

-- What DeleteAllJobs counts
pub record Counts : Type 0 where
  pub deleted : ℕ
  pub skipped : ℕ
  pub failed : ℕ

-- The loop of DeleteAllJobs
unfoldable pub delete_each : (String → Option Bool) → Joblet → List Job → Counts → Joblet × Counts
delete_each persist s [] c = (s, c)
delete_each persist s (j ∷ js) c =
    let (t, failed) = delete s j.uuid in
    let skip = delete_each persist s js (record c { skipped = suc c.skipped }) in
    let fail = delete_each persist t js (record c { failed = suc c.failed }) in
    let cleared = record t { store = (delete_job_logs persist t.store j.uuid).0 } in
    let done = delete_each persist cleared js (record c { deleted = suc c.deleted }) in
    if is_running j || is_scheduled j then skip else elim failed [ none ↦ done | some _ ↦ fail ]

-- What DeleteAllJobs answers, by the number of failed deletions
unfoldable pub report : ℕ → ℕ → ℕ → Result ℕ (ℕ × ℕ)
report zero deleted skipped = ok (deleted, skipped)
report (suc n) deleted skipped = err (suc n)

-- DeleteAllJobs: the counts of deleted and skipped jobs, or how many deletions failed
unfoldable pub delete_all_jobs : (String → Option Bool) → Joblet → Joblet × Result ℕ (ℕ × ℕ)
delete_all_jobs persist s =
    let (t, c) =
      delete_each persist s (list_jobs s.store) (record { deleted = 0; skipped = 0; failed = 0 }) in
    (t, report c.failed c.deleted c.skipped)

-- RecoverScheduledJobs: the counts of recovered and skipped jobs
unfoldable pub recover_scheduled_jobs : String → Joblet → List Job → Joblet × ℕ × ℕ
recover_scheduled_jobs node s [] = (s, 0, 0)
recover_scheduled_jobs node s (j ∷ js) =
    let rest = recover_scheduled_jobs node s js in
    let (t, n, k) = rest in
    let added = record s { scheduler = add_job s.scheduler j } in
    let (t', n', k') = recover_scheduled_jobs node added js in
    if str_eq j.status status_scheduled
    then (if str_eq j.node_id node
        then elim j.scheduled_time [ none ↦ (t, n, suc k) | some _ ↦ (t', suc n', k') ]
        else rest)
    else rest
