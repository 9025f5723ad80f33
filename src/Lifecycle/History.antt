-- ===== src/Lifecycle/History.antt =====
-- The calls of internal/joblet/core/joblet.go, cut at their waits and between their writes to the store
-- and to the scheduler, in any order with the parts of the scheduler's run loop, the starts of
-- processes, and the ends of processes and cleanups. DeleteAllJobs is one part. A restart, which
-- restores the stored jobs, is none.
use joblet.Prelude.{
  ◌≡◌, Bool, true, false, String, len, Option, none, List, [], ◌∷◌, ◌++◌, Result, ok, ◌==◌,
}
use joblet.Prelude.Int.{ℤ}
use joblet.Jobs.Domain.{Job, status_initializing}
use joblet.Jobs.{new_store}
use joblet.Scheduler.{new}
use joblet.Scheduler.Heap.{ScheduledJob}
use joblet.Lifecycle.{
  Joblet, Request, Started, Ended, Cleanup, LifecycleError, start_job, finish_schedule,
  finish_cancel, take_scheduled, execute_scheduled_job, finish_execution, stop_job, finish_stop,
  finish_monitor, delete, delete_all_jobs,
}
use joblet.Lifecycle.View.{View, view}

-- Nothing is known of the UUID.
abbrev pub IsUnknown : View → Type 0
IsUnknown v =
    (v.status ≡ none)
    × (v.task ≡ false)
    × (v.waiting ≡ 0)
    × (v.starting ≡ 0)
    × (v.monitors ≡ 0)
    × (v.stopping ≡ 0)

-- A job as the builder makes it: its UUID is one that the generator may yield from here on, of full
-- length, and nothing is known of it.
pub record IsNew (fresh : String → Type 0) (s : Joblet) (j : Job) : Type 0 where
  pub is_fresh : fresh j.uuid
  pub full : (len j.uuid == 36) ≡ true
  pub unknown : IsUnknown (view s j.uuid)
  pub initializing : j.status ≡ status_initializing

pub data Step (fresh : String → Type 0) (parse_time : String → Option ℤ)
    (persist : String → Option Bool) : Joblet → Joblet → Type 0 where
  starts :
      {s : Joblet} (done : Bool) (req : Request) (built : Result LifecycleError Job)
      (prepared resources : Bool)
      → ((j : Job) → built ≡ ok j → IsNew fresh s j)
      → Step fresh parse_time persist s (start_job parse_time s done req built prepared resources).0
  queues :
      {s : Joblet} (before : List ScheduledJob) (x : ScheduledJob) (after : List ScheduledJob)
      → s.queuing ≡ before ++ (x ∷ after)
      → Step fresh parse_time persist s (finish_schedule s before x after)
  takes : {s : Joblet} → s.taken ≡ [] → Step fresh parse_time persist s (take_scheduled s)
  executes :
      {s : Joblet} (j : Job) (resources : Bool)
      → s.taken ≡ j ∷ []
      → Step fresh parse_time persist s
          (execute_scheduled_job (record s { taken = [] }) j resources).0
  process_starts :
      {s : Joblet} (before : List Job) (j : Job) (after : List Job) (how : Started) (now : ℤ)
      → s.starting ≡ before ++ (j ∷ after)
      → Step fresh parse_time persist s (finish_execution s before j after how now).0
  stops :
      {s : Joblet} (id : String) (cleaning : Bool)
      → Step fresh parse_time persist s (stop_job s id cleaning).0
  cancels :
      {s : Joblet} (before : List Job) (j : Job) (after : List Job)
      → s.canceling ≡ before ++ (j ∷ after)
      → Step fresh parse_time persist s (finish_cancel s before j after)
  stop_ends :
      {s : Joblet} (before : List Job) (j : Job) (after : List Job) (how : Cleanup)
      → s.stopping ≡ before ++ (j ∷ after)
      → Step fresh parse_time persist s (finish_stop s before j after how).0
  process_ends :
      {s : Joblet} (before : List Job) (j : Job) (after : List Job) (how : Ended) (now : ℤ)
      → s.monitors ≡ before ++ (j ∷ after)
      → Step fresh parse_time persist s (finish_monitor s before j after how now)
  deletes : {s : Joblet} (id : String) → Step fresh parse_time persist s (delete s id).0
  deletes_all : {s : Joblet} → Step fresh parse_time persist s (delete_all_jobs persist s).0

-- Joblet after its start, with an empty store
abbrev pub initial : Bool → Bool → Joblet
initial state persisted = record {
  store = new_store state persisted;
  scheduler = record new { running = true };
  queuing = [];
  canceling = [];
  taken = [];
  starting = [];
  monitors = [];
  stopping = [];
}

pub data Steps (fresh : String → Type 0) (parse_time : String → Option ℤ)
    (persist : String → Option Bool) (s : Joblet) : Joblet → Type 0 where
  here : Steps fresh parse_time persist s s
  and_then :
      {t u : Joblet}
      → Steps fresh parse_time persist s t
      → Step fresh parse_time persist t u
      → Steps fresh parse_time persist s u
