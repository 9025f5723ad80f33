-- ===== src/Lifecycle/Lives/Stops.antt =====
-- StopJob of internal/joblet/core/joblet.go.
use joblet.Prelude.{
  suc, ◌<◌, ◌≡◌, ◌⊎◌, inl, inr, refl, sym, ap, ◌∙◌, subst, arith, Bool, true, String, len, some,
  List, [], ◌∷◌, ◌++◌, str_eq, str_eq→eq, Bool-cases, ◌==◌,
}
use mathlib.Core.List.{Perm}
use joblet.Jobs.Domain.{
  Job, JobStatus, deep_copy, is_running, is_scheduled, status_running, status_scheduled,
  status_stopped,
}
use joblet.Prelude.Map
use joblet.Jobs.{update_job}
use joblet.Jobs.Stored.{stored, status_of, job-stored}
use joblet.Scheduler.{PriorityQueue, remove, remove_job}
use joblet.Scheduler.Heap.{ScheduledJob}
use joblet.Scheduler.Heap.Order.{IsHeap}
use joblet.Scheduler.Queue.{remove_one}
use joblet.Lifecycle.{Joblet, Cleanup, stop_job, finish_stop}
use joblet.Lifecycle.View.{View-ext, view, one_if, count, count-append, queued-perm}
use joblet.Lifecycle.Lives.{
  Phase, unknown, scheduled, initializing, running, over, rank, IsGood, Holds, Life, Later,
  Advances, Advances-refl, stored-running, Advances-at, is_over,
}
use joblet.Lifecycle.Lives.Updates.{updated-IsGood, update-others, update-own, update-over}
use joblet.Lifecycle.Lives.Queueing.{Advances-same}
use joblet.Lifecycle.Lives.Processes.{listed, unlisted, full_of}

-- The job that StopJob stores
stopped_job : Job → Job
stopped_job j = record j { status = status_stopped }

pub stop_ended-Advances :
    (s : Joblet) (before : List Job) (j : Job) (after : List Job) (how : Cleanup)
    → IsGood s
    → s.stopping ≡ before ++ (j ∷ after)
    → Advances s (finish_stop s before j after how).0
unfolding finish_stop stopped_job
stop_ended-Advances s before j after how g e =
    Advances-at s _ j.uuid good
      (λ u other.
        let (a, b) = update-others s.store g.going r u other in
        View-ext a b refl refl refl (unlisted u s.stopping before j after e other))
      (λ p h. own p h)
  where
    r : Job
    r = stopped_job j

    good : IsGood (finish_stop s before j after how).0
    good =
        let v = updated-IsGood s r g in
        record { heap = v.heap; going = v.going; consistent = v.consistent }

    c : count j.uuid s.stopping ≡ suc (count j.uuid (before ++ after))
    c = listed s.stopping before j after e

    own :
        (p : Phase)
        → Life j.uuid p (view s j.uuid)
        → Later j.uuid p (view (finish_stop s before j after how).0 j.uuid)
    own running ((st, task, w, st1, m), full) =
        let (status, task') = update-own s.store g.going r task in
        (
          over,
          omega arith,
          (
            (ap is_over status, inr task', w, st1, omega (arith, m)),
            inr (full_of (λ x. absurd (ground arith)) full),
          ),
        )
    own over ((st, task, w, st1, m), full) =
        let (now_over, now_task) = update-over s.store g.going r refl st task in
        (over, omega arith, ((now_over, now_task, w, st1, m), full))
    own unknown ((st, task, w, st1, m, sp), full) = absurd (omega (arith, c))
    own scheduled ((st, task, w, st1, m, sp), full) = absurd (omega (arith, c))
    own initializing ((st, task, w, st1, m, sp), full) = absurd (omega (arith, c))

-- StopJob of a job that runs, while its cleanup is in progress
stopped_now-Advances :
    (s : Joblet) (j : Job)
    → IsGood s
    → Holds running (view s j.uuid)
    → (len j.uuid == 36) ≡ true
    → Advances s (record s { store = update_job s.store (stopped_job j) })
unfolding stopped_job
stopped_now-Advances s j g (st, task, w, st1, m) full =
    let r = stopped_job j in
    let v = updated-IsGood s r g in
    Advances-at s _ j.uuid (record { heap = v.heap; going = v.going; consistent = v.consistent })
      (λ u other.
        let (a, b) = update-others s.store g.going r u other in View-ext a b refl refl refl refl)
      (λ p h.
        let e = stored-running p (view s j.uuid) h.0 st in
        let (status, task') = update-own s.store g.going r task in
        (
          over,
          omega (arith, ap rank e),
          ((ap is_over status, inr task', w, st1, omega arith), inr full),
        ))

-- StopJob of a job that runs
stopping-Advances :
    (s : Joblet) (j : Job)
    → IsGood s
    → Holds running (view s j.uuid)
    → Advances s (record s { stopping = s.stopping ++ (j ∷ []) })
stopping-Advances s j g held =
    Advances-at s _ j.uuid (record { heap = g.heap; going = g.going; consistent = g.consistent })
      (λ u other.
        View-ext refl refl refl refl refl
          (ground (arith, count-append u s.stopping (j ∷ []), other)))
      (λ p h.
        let e = stored-running p (view s j.uuid) h.0 held.0 in
        (
          running,
          ground (arith, ap rank e),
          (held, subst (λ q. (q ≡ unknown) ⊎ ((len j.uuid == 36) ≡ true)) e h.1),
        ))

-- StopJob of a job that is queued takes it out of the queue, and holds it until it is stored.
canceling-Advances :
    (s : Joblet) (j : Job) (x : ScheduledJob) (q : PriorityQueue)
    → IsGood s
    → x.job.uuid ≡ j.uuid
    → IsHeap q
    → Perm (x ∷ q) s.scheduler.queue
    → Advances s (record s {
      scheduler = record s.scheduler { queue = q; new_job_signal = true };
      canceling = s.canceling ++ (j ∷ []);
    })
canceling-Advances s j x q g named heap rest =
    Advances-same s _ (record { heap = heap; going = g.going; consistent = g.consistent })
      (λ u.
        let n = queued-perm u rest in
        let c = count-append u s.canceling (j ∷ []) in
        let same = ap (λ y. one_if (str_eq y u)) named in
        View-ext refl refl (omega (arith, n, c, same)) refl refl refl)

-- Each UUID is in one of the phases.
abbrev pub Alive : Joblet → Type 0
Alive s = (u : String) → (p : Phase) × Life u p (view s u)

-- The stored job that a call names
pub found :
    (s : Joblet) (id : String) (j : Job) (st : JobStatus)
    → IsGood s
    → Map.get s.store.jobs id ≡ some j
    → str_eq j.status st ≡ true
    → (j.uuid ≡ id) × (stored s.store id ≡ some st)
found s id j st g e h =
    ((g.consistent id j e).0, ap status_of e ∙ ap some (str_eq→eq j.status st h))

full_when :
    (u : String) (p q : Phase)
    → p ≡ q
    → 0 < rank q
    → (p ≡ unknown) ⊎ ((len u == 36) ≡ true)
    → (len u == 36) ≡ true
full_when u p q e h full = full_of (λ x. absurd (ground (arith, ap rank x, ap rank e))) full

pub stop-Advances :
    (s : Joblet) (id : String) (cleaning : Bool)
    → IsGood s
    → Alive s
    → Advances s (stop_job s id cleaning).0
unfolding stop_job is_scheduled is_running deep_copy stopped_job remove_job
stop-Advances s id cleaning g alive = elim (job-stored s.store g.going id) [
  | inl (missing, _) ↦
      let eq : (stop_job s id cleaning).0 ≡ s = ground (arith, missing) in
      subst (Advances s) (sym eq) (Advances-refl g)
  | inr (j, at, copy) ↦ elim (Bool-cases (str_eq j.status status_scheduled)) [
    | inl waits ↦
        let (named, status) = found s id j status_scheduled g at waits in
        elim (remove_one s.scheduler.queue id g.heap) [
          | inl (kept, _) ↦
              let eq : (stop_job s id cleaning).0 ≡ s = ground (arith, copy, waits, kept) in
              subst (Advances s) (sym eq) (Advances-refl g)
          | inr (x, answer, is_x, heap, rest) ↦
              let q = (remove s.scheduler.queue id).0 in
              let eq : (stop_job s id cleaning).0 ≡ record s {
                scheduler = record s.scheduler { queue = q; new_job_signal = true };
                canceling = s.canceling ++ (deep_copy j ∷ []);
              } =
                ground (arith, copy, waits, answer) in
              subst (Advances s) (sym eq)
                (canceling-Advances s (deep_copy j) x q g (is_x ∙ sym named) heap rest)
        ]
    | inr unqueued ↦ elim (Bool-cases (str_eq j.status status_running)) [
      | inr off ↦
          let eq : (stop_job s id cleaning).0 ≡ s = ground (arith, copy, unqueued, off) in
          subst (Advances s) (sym eq) (Advances-refl g)
      | inl runs ↦
          let (named, status) = found s id j status_running g at runs in
          let (p, (h, full)) = alive id in
          let e = stored-running p (view s id) h status in
          let here : Holds running (view s id) × ((len id == 36) ≡ true) =
            (subst (λ q. Holds q (view s id)) e h, full_when id p running e (omega arith) full) in
          let (held, long) : Holds running (view s j.uuid) × ((len j.uuid == 36) ≡ true) =
            subst (λ u. Holds running (view s u) × ((len u == 36) ≡ true)) (sym named) here in
          elim (Bool-cases cleaning) [
            | inl busy ↦
                let eq : (stop_job s id cleaning).0
                    ≡ record s { store = update_job s.store (stopped_job (deep_copy j)) } =
                  ground (arith, copy, unqueued, runs, busy) in
                subst (Advances s) (sym eq) (stopped_now-Advances s (deep_copy j) g held long)
            | inr free ↦
                let eq : (stop_job s id cleaning).0
                    ≡ record s { stopping = s.stopping ++ (deep_copy j ∷ []) } =
                  ground (arith, copy, unqueued, runs, free) in
                subst (Advances s) (sym eq) (stopping-Advances s (deep_copy j) g held)
          ]
    ]
  ]
]
