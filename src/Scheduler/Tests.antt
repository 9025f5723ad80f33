-- ===== src/Scheduler/Tests.antt =====
-- Runs of internal/joblet/scheduler/ on two jobs.
use mathlib.Core.List.{Perm, mem-cons_self}
use joblet.Prelude.{ℕ, ◌≡◌, ◌≢◌, ◌⊎◌, refl, none, some, List, [], ◌∷◌, true, false, arith, String}
use joblet.Prelude.Int.{ℤ, pos, ◌≤ℤ◌}
use joblet.Jobs.Domain.{Job}
use joblet.Jobs.Tests.{job_of}
use joblet.Scheduler.{
  PriorityQueue, new_queue, add, next, index_of, remove, update, retimed, peek, add_job, remove_job,
}
use joblet.Scheduler.Heap.{
  ScheduledJob, swap, up, up_loop, down, down_loop, heap_push, heap_pop, heap_remove,
}
use joblet.Scheduler.Heap.Order.{IsHeap}
use joblet.Scheduler.Queue.{Taken, Absent, remove_one, update_one}
use joblet.Scheduler.History.{call, calls, call_add, calls-IsHeap, calls-next_first}
use joblet.Scheduler.Loop.{
  Loop, Move, Step, Steps, Reach, started, check, take_next, executing, panicked, due, sleeping,
}
use joblet.Scheduler.Loop.OnTime.{executing_on_time, HasDue}
use joblet.Scheduler.Loop.Serves.{between, Serves, due-Serves}

abbrev job_at : String → ℕ → Job
job_at uuid t = record (job_of uuid "SCHEDULED") { scheduled_time = some (pos t) }

abbrev late : Job
late = job_at "late" 100

abbrev soon : Job
soon = job_at "soon" 5

abbrev two : PriorityQueue
two = calls new_queue (call_add late ∷ call_add soon ∷ [])

calls-next_first_example :
    ((two ≡ []) × (next two ≡ (none, []))) ⊎ ((x : ScheduledJob) × Taken two x (next two))
calls-next_first_example = calls-next_first (call_add late ∷ call_add soon ∷ [])

-- The job that is due first comes first, though it was added last.
next-two : next two ≡ (some soon, record { job = late; scheduled_time = pos 100 } ∷ [])
unfolding next calls call add heap_push up up_loop swap heap_pop down down_loop
next-two = refl

remove_one_example :
    ((remove two "late" ≡ (two, false)) × Absent "late" two)
    ⊎ ((x : ScheduledJob) × ((remove two "late").1 ≡ true)
        × (x.job.uuid ≡ "late")
        × IsHeap (remove two "late").0
        × Perm (x ∷ (remove two "late").0) two)
remove_one_example = remove_one two "late" (calls-IsHeap (call_add late ∷ call_add soon ∷ []))

update_one_example :
    ((update two "late" (pos 1) ≡ (two, false)) × Absent "late" two)
    ⊎ ((x : ScheduledJob) × (others : List ScheduledJob) × ((update two "late" (pos 1)).1 ≡ true)
        × (x.job.uuid ≡ "late")
        × Perm (x ∷ others) two
        × IsHeap (update two "late" (pos 1)).0
        × Perm (retimed x (pos 1) ∷ others) (update two "late" (pos 1)).0)
update_one_example =
    update_one two "late" (pos 1) (calls-IsHeap (call_add late ∷ call_add soon ∷ []))

-- The loop with both jobs, which sleeps until the first of them; then at the time of that job
abbrev one_added : Loop
one_added = record (started (pos 0)) { scheduler = add_job (started (pos 0)).scheduler late }

abbrev both_added : Loop
both_added = record one_added { scheduler = add_job one_added.scheduler soon }

abbrev asleep : Loop
asleep = record both_added { phase = check both_added.scheduler (pos 0) }

abbrev at_five : Loop
at_five = record asleep { now = pos 5 }

asleep_until : (check both_added.scheduler (pos 0)) ≡ sleeping (pos 5)
unfolding check peek add_job add heap_push up up_loop swap
asleep_until = refl

at_five-reach : Reach (started (pos 0)) at_five
at_five-reach =
    let both = Reach.and_then (Reach.and_then Reach.here (Move.added late)) (Move.added soon) in
    Reach.and_then (Reach.and_then both (Move.checked refl)) (Move.clock (pos 5) (omega arith))

abbrev served : Loop
served = take_next (record at_five { phase = due })

served-reach : Reach (started (pos 0)) served
served-reach =
    Reach.and_then (Reach.and_then at_five-reach (Move.sleep_over asleep_until (omega arith)))
      (Move.taken refl)

executing_on_time_example :
    (served.phase ≢ panicked)
    × ((j : Job)
        → served.phase ≡ executing j
        → (s : ℤ) × (j.scheduled_time ≡ some s) × s ≤ℤ served.now)
executing_on_time_example = executing_on_time served-reach

served_soon : served.phase ≡ executing soon
unfolding take_next next add_job add heap_push up up_loop swap heap_pop down down_loop
served_soon = refl

at_five-steps : Steps (started (pos 0)) at_five
at_five-steps =
    let one = Steps.next_step Steps.start (Step.moved (Move.added late)) in
    let both = Steps.next_step one (Step.moved (Move.added soon)) in
    let slept = Steps.next_step both (Step.moved (Move.checked refl)) in
    Steps.next_step slept (Step.moved (Move.clock (pos 5) (omega arith)))

soon_due : HasDue at_five.scheduler.queue (pos 5)
unfolding add_job add heap_push up up_loop swap
soon_due = (record { job = soon; scheduled_time = pos 5 }, mem-cons_self, omega arith)

at_five-between : between at_five.phase ≡ true
unfolding check peek add_job add heap_push up up_loop swap
at_five-between = refl

at_five-going : at_five.scheduler.stop_signal ≡ false
unfolding add_job
at_five-going = refl

due-Serves_example : Serves at_five
due-Serves_example = due-Serves at_five at_five-steps at_five-between at_five-going soon_due

-- The first job is removed as its time comes, and the loop starts the other one at 5, not at 100.
abbrev removed_late : Loop
removed_late = record at_five { scheduler = (remove_job at_five.scheduler "soon").0 }

abbrev early : Loop
early = take_next (record removed_late { phase = due })

early-steps : Steps (started (pos 0)) early
early-steps =
    let gone = Steps.next_step at_five-steps (Step.removed "soon") in
    let woken = Steps.next_step gone (Step.moved (Move.sleep_over asleep_until (omega arith))) in
    Steps.next_step woken (Step.moved (Move.taken refl))

early_late : (early.phase ≡ executing late) × (early.now ≡ pos 5)
unfolding take_next next add_job add heap_push up up_loop swap heap_pop down down_loop remove_job
    remove index_of heap_remove
early_late = (refl, refl)
