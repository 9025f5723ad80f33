-- ===== src/Lifecycle/View.antt =====
-- What the parts of internal/joblet/core/joblet.go hold of one job: its status in the store, whether
-- it has a task there, and how often it stands in each list.
use mathlib.Core.List.{Perm}
use joblet.Prelude.{
  ℕ, ◌+◌, ◌≡◌, refl, arith, Bool, String, Option, List, [], ◌∷◌, ◌++◌, str_eq, if◌then◌else◌,
}
use joblet.Jobs.Domain.{Job, JobStatus}
use joblet.Jobs.Stored.{stored, has_task}
use joblet.Scheduler.Heap.{ScheduledJob}
use joblet.Scheduler.Heap.Slice.{sum_of, sum_of-perm}
use joblet.Scheduler.Queue.{Absent}
use joblet.Lifecycle.{Joblet}

abbrev pub one_if : Bool → ℕ
one_if b = if b then 1 else 0

-- How many jobs of a list have the UUID
abbrev pub count : String → List Job → ℕ
count u [] = 0
count u (j ∷ js) = one_if (str_eq j.uuid u) + count u js

-- How many items of the queue have the UUID
abbrev pub queued : String → List ScheduledJob → ℕ
queued u = sum_of (λ x. one_if (str_eq x.job.uuid u))

pub record View : Type 0 where
  pub status : Option JobStatus
  pub task : Bool
  pub waiting : ℕ
  pub starting : ℕ
  pub monitors : ℕ
  pub stopping : ℕ

abbrev pub view : Joblet → String → View
view s u = record {
  status = stored s.store u;
  task = has_task s.store u;
  waiting =
      queued u s.scheduler.queue + count u s.taken + (queued u s.queuing + count u s.canceling);
  starting = count u s.starting;
  monitors = count u s.monitors;
  stopping = count u s.stopping;
}

pub count-append : (u : String) (a b : List Job) → count u (a ++ b) ≡ count u a + count u b
count-append u [] b = omega arith
count-append u (j ∷ a) b = omega (arith, count-append u a b)

pub count-middle :
    (u : String) (a : List Job) (j : Job) (b : List Job)
    → count u (a ++ (j ∷ b)) ≡ one_if (str_eq j.uuid u) + count u (a ++ b)
count-middle u a j b = omega (arith, count-append u a (j ∷ b), count-append u a b)

pub queued-perm : (u : String) {a b : List ScheduledJob} → Perm a b → queued u a ≡ queued u b
queued-perm u = sum_of-perm (λ x. one_if (str_eq x.job.uuid u))

pub Absent-queued : (u : String) (q : List ScheduledJob) → Absent u q → queued u q ≡ 0
Absent-queued u [] h = refl
Absent-queued u (x ∷ q) (other, h) = ground (arith, other, Absent-queued u q h)

pub View-ext :
    {v w : View}
    → w.status ≡ v.status
    → w.task ≡ v.task
    → w.waiting ≡ v.waiting
    → w.starting ≡ v.starting
    → w.monitors ≡ v.monitors
    → w.stopping ≡ v.stopping
    → w ≡ v
View-ext a b c d e f = cc
