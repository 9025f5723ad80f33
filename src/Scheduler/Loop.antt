-- ===== src/Scheduler/Loop.antt =====
-- The main loop of scheduler.go (run, executeJob) beside the callers of the scheduler and the clock.
-- A select with several ready channels may take any of them.
pub mod OnTime
pub mod Awake
pub mod Serves
use mathlib.Core.List.{Perm, Mem, not-mem-nil, mem-cons_of_mem, forall_mem-cons, mem-cons_self}
use mathlib.Core.List.Perm
use native.Mathlib.Bridge.{le_prop}
use joblet.Prelude.{
  ◌≤◌, ◌<◌, ◌+◌, ◌≡◌, ◌≢◌, ◌⊎◌, inl, inr, refl, sym, ap, ◌∙◌, subst, String, Option, none, some,
  List, [], ◌∷◌, arith, Bool-cases, Option-cases, Bool, true, false, if◌then◌else◌, if_true,
  if_false,
}
use joblet.Prelude.Int.{ℤ, ◌≤ℤ◌, ltb_ℤ}
use joblet.Jobs.Domain.{Job}
use joblet.Scheduler.{
  PriorityQueue, Scheduler, new, new_queue, add, peek, next, add_job, remove_job, stop,
}
use joblet.Scheduler.Heap.{ScheduledJob}
use joblet.Scheduler.Heap.Order.{IsHeap}
use joblet.Scheduler.Queue.{HeapOf, Taken, next_first}
use joblet.Scheduler.History.{add-HeapOf}

-- Where the loop stands; `panicked` is the use of a job without a time.
pub data Phase : Type 0 where
  checking : Phase
  idle : Phase
  sleeping : ℤ → Phase
  due : Phase
  executing : Job → Phase
  ended : Phase
  panicked : Phase

-- The scheduler, its loop and the clock
pub record Loop : Type 0 where
  pub scheduler : Scheduler
  pub phase : Phase
  pub now : ℤ

-- From the top of the loop to its first wait
unfoldable pub check : Scheduler → ℤ → Phase
check s now = if s.stop_signal then ended else elim (peek s.queue) [
  | none ↦ idle
  | some j ↦ elim j.scheduled_time [
    | none ↦ panicked
    | some t ↦ if ltb_ℤ now t then sleeping t else due
  ]
]

-- The end of the loop's body: the job of Next goes to executeJob.
unfoldable pub take_next : Loop → Loop
take_next l =
    let (answer, rest) = next l.scheduler.queue in
    record l {
      scheduler = record l.scheduler { queue = rest };
      phase = elim answer [ none ↦ checking | some j ↦ executing j ];
    }

-- What happens next, save for RemoveJob
pub data Move : Loop → Loop → Type 0 where
  clock : {l : Loop} (later : ℤ) → l.now ≤ℤ later → Move l (record l { now = later })
  added : {l : Loop} (j : Job) → Move l (record l { scheduler = add_job l.scheduler j })
  stopped :
      {l : Loop} {s : Scheduler} → stop l.scheduler ≡ some s → Move l (record l { scheduler = s })
  checked : {l : Loop} → l.phase ≡ checking → Move l (record l { phase = check l.scheduler l.now })
  idle_stop :
      {l : Loop}
      → l.phase ≡ idle
      → l.scheduler.stop_signal ≡ true
      → Move l (record l { phase = ended })
  idle_signal :
      {l : Loop}
      → l.phase ≡ idle
      → l.scheduler.new_job_signal ≡ true
      → Move l
          (record l { phase = checking; scheduler = record l.scheduler { new_job_signal = false } })
  sleep_stop :
      {l : Loop} {t : ℤ}
      → l.phase ≡ sleeping t
      → l.scheduler.stop_signal ≡ true
      → Move l (record l { phase = ended })
  sleep_signal :
      {l : Loop} {t : ℤ}
      → l.phase ≡ sleeping t
      → l.scheduler.new_job_signal ≡ true
      → Move l
          (record l { phase = checking; scheduler = record l.scheduler { new_job_signal = false } })
  sleep_over :
      {l : Loop} {t : ℤ} → l.phase ≡ sleeping t → t ≤ℤ l.now → Move l (record l { phase = due })
  taken : {l : Loop} → l.phase ≡ due → Move l (take_next l)
  executed : {l : Loop} {j : Job} → l.phase ≡ executing j → Move l (record l { phase = checking })

-- The loop after the start at a time
abbrev pub started : ℤ → Loop
started t = record { scheduler = record new { running = true }; phase = checking; now = t }

-- What happens next, RemoveJob included
pub data Step : Loop → Loop → Type 0 where
  moved : {l m : Loop} → Move l m → Step l m
  removed :
      {l : Loop} (id : String) → Step l (record l { scheduler = (remove_job l.scheduler id).0 })

-- What happens from one state to another
pub data Steps : Loop → Loop → Type 0 where
  start : {l : Loop} → Steps l l
  next_step : {k l m : Loop} → Steps k l → Step l m → Steps k m

-- What happens while no job is removed
pub data Reach : Loop → Loop → Type 0 where
  here : {l : Loop} → Reach l l
  and_then : {k l m : Loop} → Reach k l → Move l m → Reach k m
