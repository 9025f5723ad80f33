-- ===== src/Lifecycle/Recovery/Tests.antt =====
-- A recovery of three stored jobs: one with a start time, one without, one of another node.
use joblet.Prelude.{arith, some, [], ◌∷◌, List, false, true}
use joblet.Prelude.Int.{pos}
use joblet.Jobs.Domain.{Job}
use joblet.Jobs.Tests.{job_of, first_uuid}
use joblet.Scheduler.Heap.Order.{IsHeap}
use joblet.Lifecycle.{Joblet, recover_scheduled_jobs}
use joblet.Lifecycle.History.{initial}
use joblet.Lifecycle.Recovery.{IsRecovery, recover-IsRecovery}

abbrev timed : Job
timed = record (job_of first_uuid "SCHEDULED") { scheduled_time = some (pos 7); node_id = "here" }

abbrev untimed : Job
untimed = record (job_of "bbbb" "SCHEDULED") { node_id = "here" }

abbrev elsewhere : Job
elsewhere = record timed { node_id = "there" }

abbrev jobs : List Job
jobs = timed ∷ untimed ∷ elsewhere ∷ []

abbrev s0 : Joblet
s0 = initial false true

empty-IsHeap : IsHeap s0.scheduler.queue
empty-IsHeap = λ c p q. absurd (omega arith)

recover-IsRecovery_example : IsRecovery "here" s0 jobs (recover_scheduled_jobs "here" s0 jobs)
recover-IsRecovery_example = recover-IsRecovery "here" s0 jobs empty-IsHeap
