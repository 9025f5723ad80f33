-- ===== src/Lifecycle/Lives/Reachable.antt =====
-- The phases through the parts of the calls of internal/joblet/core/joblet.go.
use joblet.Prelude.{◌⊎◌, inl, inr, refl, sym, subst, arith, Bool, String, Option}
use joblet.Prelude.Int.{ℤ}
use joblet.Jobs.Consistency.{Reach-IsConsistent, start}
use joblet.Jobs.Stored.{new-going, new-empty}
use joblet.Lifecycle.{Joblet}
use joblet.Lifecycle.View.{view}
use joblet.Lifecycle.History.{Step, Steps, initial}
use joblet.Lifecycle.Lives.{Phase, unknown, IsGood, Life, Later, Advances}
use joblet.Lifecycle.Lives.Processes.{execution-Advances}
use joblet.Lifecycle.Lives.Monitors.{monitor-Advances}
use joblet.Lifecycle.Lives.Stops.{Alive, stop-Advances, stop_ended-Advances}
use joblet.Lifecycle.Lives.Queueing.{queue-Advances, cancel-Advances}
use joblet.Lifecycle.Lives.Scheduling.{take-Advances, execute-Advances}
use joblet.Lifecycle.Lives.Deletions.{delete-Advances}
use joblet.Lifecycle.Lives.AllDeletions.{delete_all-Advances}
use joblet.Lifecycle.Lives.Starts.{Enters, start-Enters}

-- A step advances the jobs, or brings a new one.
Step-cases :
    {fresh : String → Type 0} {parse_time : String → Option ℤ} {persist : String → Option Bool}
    {s t : Joblet}
    → Step fresh parse_time persist s t
    → IsGood s
    → Alive s
    → Advances s t ⊎ Enters fresh s t
Step-cases {parse_time = parse_time} {s = s} (Step.starts done req built prepared resources new) g
      alive =
    inr (start-Enters parse_time s done req built prepared resources g new)
Step-cases {s = s} (Step.queues before x after e) g alive =
    inl (queue-Advances s before x after g e)
Step-cases {s = s} (Step.takes _) g alive = inl (take-Advances s g)
Step-cases {s = s} (Step.executes j resources e) g alive =
    inl (execute-Advances s j resources g alive e)
Step-cases {s = s} (Step.process_starts before j after how now e) g alive =
    inl (execution-Advances s before j after how now g e)
Step-cases {s = s} (Step.stops id cleaning) g alive = inl (stop-Advances s id cleaning g alive)
Step-cases {s = s} (Step.cancels before j after e) g alive =
    inl (cancel-Advances s before j after g e)
Step-cases {s = s} (Step.stop_ends before j after how e) g alive =
    inl (stop_ended-Advances s before j after how g e)
Step-cases {s = s} (Step.process_ends before j after how now e) g alive =
    inl (monitor-Advances s before j after how now g e)
Step-cases {s = s} (Step.deletes id) g alive = inl (delete-Advances s id g alive)
Step-cases {persist = persist} {s = s} Step.deletes_all g alive =
    inl (delete_all-Advances persist s g alive)

Step-Alive :
    {fresh : String → Type 0} {parse_time : String → Option ℤ} {persist : String → Option Bool}
    {s t : Joblet}
    → Step fresh parse_time persist s t
    → IsGood s
    → Alive s
    → IsGood t × Alive t
Step-Alive {s = s} {t = t} m g alive = elim (Step-cases m g alive) [
  | inl a ↦ (a.good, λ u. let (p, h) = alive u in let (q, _, k) = a.lives u p h in (q, k))
  | inr a ↦ (
    a.good,
    λ u. elim (a.lives u) [
      | inl same ↦ let (p, h) = alive u in (p, subst (Life u p) (sym same) h)
      | inr (_, later) ↦ later
    ],
  )
]

steps-kept :
    {fresh : String → Type 0} {parse_time : String → Option ℤ} {persist : String → Option Bool}
    {s t : Joblet}
    → IsGood s
    → Alive s
    → Steps fresh parse_time persist s t
    → IsGood t × Alive t
steps-kept g alive Steps.here = (g, alive)
steps-kept g alive (Steps.and_then r m) =
    let (g', alive') = steps-kept g alive r in Step-Alive m g' alive'

initial-Alive :
    (state persisted : Bool) → IsGood (initial state persisted) × Alive (initial state persisted)
initial-Alive state persisted = (
  record {
    heap = λ c p q. absurd (omega arith);
    going = new-going state persisted;
    consistent = Reach-IsConsistent state persisted start;
  },
  λ u.
      let (status, task) = new-empty state persisted u in
      (unknown, ((status, task, refl, refl, refl, refl), inl refl)),
)

-- From an empty store, without the restoring of jobs after a restart, in whatever order the parts
-- of the calls follow each other, each without another between, where DeleteAllJobs is one part
-- and another call is cut at its waits and between its writes to the store and to the scheduler,
-- each UUID is in one of the phases: of a scheduled job exactly one entry is about to enter the
-- queue, waits in it, or is out of it and not yet canceled or executed, of a running job exactly
-- one monitor waits for the end, and of a job that is over nothing waits to start it.
pub steps-Alive :
    {fresh : String → Type 0} {parse_time : String → Option ℤ} {persist : String → Option Bool}
    (state persisted : Bool) {s : Joblet}
    → Steps fresh parse_time persist (initial state persisted) s
    → IsGood s × Alive s
steps-Alive state persisted r =
    let (g, alive) = initial-Alive state persisted in steps-kept g alive r

-- From any state in which each UUID is in one phase, through any parts of calls in any order, each
-- without another between, but without the restoring of jobs after a restart, a job never goes back
-- in its life, as long as its UUID is not given to a new job; so one that is over does not run
-- again.
pub steps-Later :
    {fresh : String → Type 0} {parse_time : String → Option ℤ} {persist : String → Option Bool}
    {s t : Joblet}
    → IsGood s
    → Alive s
    → Steps fresh parse_time persist s t
    → (u : String) (p : Phase) → (fresh u → ⊥)
    → Life u p (view s u)
    → Later u p (view t u)
steps-Later g alive Steps.here u p old h = (p, omega arith, h)
steps-Later {s = s} g alive (Steps.and_then {t = t} r m) u p old h =
    let (q, before, k) = steps-Later g alive r u p old h in
    let (g', alive') = steps-kept g alive r in
    elim (Step-cases m g' alive') [
      | inl a ↦ let (q', more, k') = a.lives u q k in (q', omega arith, k')
      | inr a ↦ elim (a.lives u) [
        | inl same ↦ (q, before, subst (Life u q) (sym same) k)
        | inr (new, _) ↦ absurd (old new)
      ]
    ]
