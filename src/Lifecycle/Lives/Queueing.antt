-- ===== src/Lifecycle/Lives/Queueing.antt =====
-- The second halves of scheduleJob and of StopJob for a scheduled job, of internal/joblet/core/joblet.go.
use mathlib.Core.List.{perm_middle}
use joblet.Prelude.{
  suc, ◌+◌, ◌≡◌, inl, inr, refl, sym, ap, ◌∙◌, subst, arith, true, String, some, List, ◌∷◌, ◌++◌,
  str_eq,
}
use joblet.Jobs.Domain.{Job, status_canceled}
use joblet.Scheduler.{add}
use joblet.Scheduler.Heap.{ScheduledJob}
use joblet.Scheduler.History.{add-HeapOf}
use joblet.Scheduler.Loop.OnTime.{add_job-some}
use joblet.Lifecycle.{Joblet, finish_schedule, finish_cancel}
use joblet.Lifecycle.View.{View-ext, view, count, one_if, queued, queued-perm}
use joblet.Lifecycle.Lives.{
  scheduled, over, rank, IsGood, Holds, Life, Advances, Advances-at, is_over, waiting-scheduled,
}
use joblet.Lifecycle.Lives.Updates.{updated-IsGood, update-others, update-own}
use joblet.Lifecycle.Lives.Processes.{listed, unlisted, full_of}

-- A call that leaves what is held of every job
pub Advances-same : (s t : Joblet) → IsGood t → ((u : String) → view t u ≡ view s u) → Advances s t
Advances-same s t g same = record {
  good = g;
  lives = λ u p h. (p, omega arith, subst (Life u p) (sym (same u)) h);
}

queued-middle :
    (u : String) (l before : List ScheduledJob) (x : ScheduledJob) (after : List ScheduledJob)
    → l ≡ before ++ (x ∷ after)
    → queued u l ≡ one_if (str_eq x.job.uuid u) + queued u (before ++ after)
queued-middle u l before x after e = ap (queued u) e ∙ queued-perm u (perm_middle before after)

-- AddJob puts the job into the queue as it leaves the list of those to be queued.
pub queue-Advances :
    (s : Joblet) (before : List ScheduledJob) (x : ScheduledJob) (after : List ScheduledJob)
    → IsGood s
    → s.queuing ≡ before ++ (x ∷ after)
    → Advances s (finish_schedule s before x after)
unfolding finish_schedule
queue-Advances s before x after g e =
    let i : Job = record x.job { scheduled_time = some x.scheduled_time } in
    elim (add-HeapOf s.scheduler.queue i g.heap) [
      | inl (untimed, _) ↦ absurd (cc)
      | inr (t, timed, (heap, same)) ↦
          subst (λ c. Advances s (record s { scheduler = c; queuing = before ++ after }))
            (add_job-some s.scheduler i t timed)
            (Advances-same s
              (record s {
                scheduler = record s.scheduler {
                  queue = add s.scheduler.queue i;
                  new_job_signal = true;
                };
                queuing = before ++ after;
              })
              (record { heap = heap; going = g.going; consistent = g.consistent })
              (λ u.
                let n = queued-perm u same in
                let m = queued-middle u s.queuing before x after e in
                View-ext refl refl (omega (arith, n, m)) refl refl refl))
    ]

-- The UpdateJob that stores a job as canceled ends it.
pub cancel-Advances :
    (s : Joblet) (before : List Job) (j : Job) (after : List Job)
    → IsGood s
    → s.canceling ≡ before ++ (j ∷ after)
    → Advances s (finish_cancel s before j after)
unfolding finish_cancel
cancel-Advances s before j after g e =
    let r : Job = record j { status = status_canceled } in
    let v = updated-IsGood s r g in
    let c : count j.uuid s.canceling ≡ suc (count j.uuid (before ++ after)) =
      listed s.canceling before j after e in
    Advances-at s _ j.uuid (record { heap = v.heap; going = v.going; consistent = v.consistent })
      (λ u other.
        let (a, b) = update-others s.store g.going r u other in
        let n = unlisted u s.canceling before j after e other in
        View-ext a b (omega (arith, n)) refl refl refl)
      (λ p h.
        let waits = waiting-scheduled p (view s j.uuid) h.0 (omega (arith, c)) in
        let (st, task, w, st1, m, sp) : Holds scheduled (view s j.uuid) =
          subst (λ q. Holds q (view s j.uuid)) waits h.0 in
        let (status, task') = update-own s.store g.going r task in
        (
          over,
          omega (arith, ap rank waits),
          (
            (ap is_over status, inr task', omega (arith, c, w), st1, omega (arith, m)),
            inr (full_of (λ x. absurd (ground (arith, ap rank x, ap rank waits))) h.1),
          ),
        ))
