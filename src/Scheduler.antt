-- ===== src/Scheduler.antt =====
-- The scheduler: internal/joblet/scheduler/. PriorityQueue of priority_queue.go, whose methods hold
-- its mutex, and Scheduler of scheduler.go. A time is in nanoseconds since 1970. The job that Update
-- changes is the queue's own. A job's entry in the log is left out.
pub mod Heap
pub mod Queue
pub mod History
pub mod Loop
pub mod Tests
use joblet.Prelude.{
  ℕ, zero, suc, ◌+◌, Bool, true, false, String, Option, none, some, List, [], ◌∷◌, map, str_eq,
  ◌==◌, length, set, get_elem?, if◌then◌else◌,
}
use joblet.Prelude.Int.{ℤ}
use joblet.Jobs.Domain.{Job, deep_copy}
use joblet.Scheduler.Heap.{ScheduledJob, heap_push, heap_remove, heap_pop, heap_fix}

-- PriorityQueue
abbrev pub PriorityQueue : Type 0
PriorityQueue = List ScheduledJob

-- NewPriorityQueue
abbrev pub new_queue : PriorityQueue
new_queue = []

-- Add
unfoldable pub add : PriorityQueue → Job → PriorityQueue
add q j = elim j.scheduled_time [
  | none ↦ q
  | some t ↦ heap_push q (record { job = j; scheduled_time = t })
]

-- Peek
unfoldable pub peek : PriorityQueue → Option Job
peek [] = none
peek (x ∷ q) = some x.job

-- Next
unfoldable pub next : PriorityQueue → Option Job × PriorityQueue
next q =
    if length q == 0
    then (none, q)
    else (let (popped, rest) = heap_pop q in
        elim popped [ none ↦ (none, rest) | some x ↦ (some x.job, rest) ])

-- The index at which the loops of Remove and Update stop, counting from i
unfoldable pub index_of : PriorityQueue → String → ℕ → Option ℕ
index_of [] id i = none
index_of (x ∷ q) id i = if str_eq x.job.uuid id then some i else index_of q id (suc i)

-- Remove
unfoldable pub remove : PriorityQueue → String → PriorityQueue × Bool
remove q id = elim (index_of q id 0) [ none ↦ (q, false) | some i ↦ (heap_remove q i, true) ]

-- The item with a new time, in its own field and in its job
unfoldable pub retimed : ScheduledJob → ℤ → ScheduledJob
retimed x t = record { job = record x.job { scheduled_time = some t }; scheduled_time = t }

-- Update
unfoldable pub update : PriorityQueue → String → ℤ → PriorityQueue × Bool
update q id t = elim (index_of q id 0) [
  | none ↦ (q, false)
  | some i ↦ elim (get_elem? q i) [
    | none ↦ (q, false)
    | some x ↦ (heap_fix (set q i (retimed x t)) i, true)
  ]
]

-- GetAll
unfoldable pub get_all : PriorityQueue → List Job
get_all q = map (λ x. deep_copy x.job) q

-- IsEmpty
unfoldable pub is_empty : PriorityQueue → Bool
is_empty q = length q == 0

-- Size
unfoldable pub size : PriorityQueue → ℕ
size q = length q

-- GetNextExecutionTime
unfoldable pub get_next_execution_time : PriorityQueue → Option ℤ
get_next_execution_time [] = none
get_next_execution_time (x ∷ q) = some x.scheduled_time

-- Scheduler; the signals are whether newJobSignal holds one and whether stopSignal is closed, with
-- which Stop also cancels the context.
pub record Scheduler : Type 0 where
  pub queue : PriorityQueue
  pub new_job_signal : Bool
  pub stop_signal : Bool
  pub running : Bool

-- New
abbrev pub new : Scheduler
new = record { queue = new_queue; new_job_signal = false; stop_signal = false; running = false }

-- Start: the scheduler, and whether it starts a run loop
unfoldable pub start : Scheduler → Scheduler × Bool
start s = if s.running then (s, false) else (record s { running = true }, true)

-- Stop. Closing stopSignal twice panics; none stands for that.
unfoldable pub stop : Scheduler → Option Scheduler
stop s =
    if s.running
    then (if s.stop_signal then none else some (record s { running = false; stop_signal = true }))
    else some s

-- AddJob
unfoldable pub add_job : Scheduler → Job → Scheduler
add_job s j = elim j.scheduled_time [
  | none ↦ s
  | some _ ↦ record s { queue = add s.queue j; new_job_signal = true }
]

-- RemoveJob
unfoldable pub remove_job : Scheduler → String → Scheduler × Bool
remove_job s id =
    let (q, removed) = remove s.queue id in
    (if removed then record s { queue = q; new_job_signal = true } else s, removed)

-- GetScheduledJobs
pub get_scheduled_jobs : Scheduler → List Job
get_scheduled_jobs s = get_all s.queue

-- GetQueueSize
pub get_queue_size : Scheduler → ℕ
get_queue_size s = size s.queue

-- IsRunning
pub is_running : Scheduler → Bool
is_running s = s.running
