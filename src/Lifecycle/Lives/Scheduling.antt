-- ===== src/Lifecycle/Lives/Scheduling.antt =====
-- The run loop's part and executeScheduledJob of internal/joblet/core/joblet.go.

use joblet.Prelude.{
  ◌≡◌, inl, inr, refl, sym, ap, ◌∙◌, subst, arith, Bool, true, false, String, len, none, some, [],
  ◌∷◌, ◌++◌, Result, str_eq, str_eq_refl, ◌==◌,
}
use joblet.Jobs.Domain.{
  Job, JobStatus, deep_copy, status_scheduled, status_initializing, status_canceled,
}
use joblet.Jobs.{update_job}
use joblet.Jobs.Stored.{status_of, job-stored}
use joblet.Scheduler.{next}
use joblet.Scheduler.Queue.{next_first}
use joblet.Lifecycle.{
  Joblet, LifecycleError, take_scheduled, begin_execution, execute_scheduled_job,
}
use joblet.Lifecycle.View.{View-ext, view, count, count-append, queued-perm}
use joblet.Lifecycle.Lives.{
  Phase, scheduled, initializing, rank, IsGood, Holds, Life, Later, Advances, Advances-refl,
  Advances-trans, Advances-at, stored-scheduled, waiting-scheduled,
}
use joblet.Lifecycle.Lives.Updates.{updated-IsGood, update-others, update-own}
use joblet.Lifecycle.Lives.Processes.{full_of}
use joblet.Lifecycle.Lives.Begins.{begin-Advances}
use joblet.Lifecycle.Lives.Stops.{Alive}

pub take-Advances : (s : Joblet) → IsGood s → Advances s (take_scheduled s)
unfolding take_scheduled
take-Advances s g = elim (next_first s.scheduler.queue g.heap) [
  | inl (empty, eq) ↦
      let same : take_scheduled s ≡ s = ground (arith, eq, empty) in
      subst (Advances s) (sym same) (Advances-refl g)
  | inr (x, found) ↦
      let rest = (next s.scheduler.queue).1 in
      let t : Joblet = record s {
        scheduler = record s.scheduler { queue = rest };
        taken = s.taken ++ (x.job ∷ []);
      } in
      let eq : take_scheduled s ≡ t = ground (arith, found.answer) in
      subst (Advances s) (sym eq) (record {
        good = record { heap = found.heap; going = g.going; consistent = g.consistent };
        lives = λ u p h.
            let n = queued-perm u found.rest in
            let c = count-append u s.taken (x.job ∷ []) in
            let same : view t u ≡ view s u =
              View-ext refl refl (omega (arith, n, c)) refl refl refl in
            (p, omega arith, subst (Life u p) (sym same) h);
      })
]

module _ (s : Joblet) (j i : Job) where
  -- After the update of executeScheduledJob to the status that the copy i gets
  left_queue : Joblet
  left_queue = record s { taken = []; store = update_job s.store i }

  left_queue-IsGood : IsGood s → IsGood left_queue
  unfolding left_queue
  left_queue-IsGood g =
      let v = updated-IsGood s i g in
      record { heap = v.heap; going = v.going; consistent = v.consistent }

  left_queue-Holds :
      IsGood s
      → s.taken ≡ j ∷ []
      → i.uuid ≡ j.uuid
      → i.status ≡ status_initializing
      → Holds scheduled (view s i.uuid)
      → Holds initializing (view left_queue i.uuid) × (count i.uuid left_queue.starting ≡ 0)
  unfolding left_queue
  left_queue-Holds g e named init (st, task, w, st1, m, sp) =
      let (status, task') = update-own s.store g.going i task in
      let own = ap (λ x. str_eq x i.uuid) (sym named) ∙ str_eq_refl i.uuid in
      let one : count i.uuid s.taken ≡ 1 = ap (count i.uuid) e ∙ ground (arith, own) in
      ((status ∙ ap some init, task', omega (arith, one, w), omega (arith, st1), m, sp), st1)

  left_queue-others :
      IsGood s
      → s.taken ≡ j ∷ []
      → i.uuid ≡ j.uuid
      → (u : String) → str_eq i.uuid u ≡ false
      → view left_queue u ≡ view s u
  unfolding left_queue
  left_queue-others g e named u other =
      let (a, b) = update-others s.store g.going i u other in
      let not_j = ap (λ x. str_eq x u) (sym named) ∙ other in
      let none_taken : count u s.taken ≡ 0 = ap (count u) e ∙ ground (arith, not_j) in
      View-ext a b (omega (arith, none_taken)) refl refl refl

  left_queue-Advances :
      IsGood s
      → s.taken ≡ j ∷ []
      → i.uuid ≡ j.uuid
      → i.status ≡ status_initializing
      → (len i.uuid == 36) ≡ true
      → Holds scheduled (view s i.uuid)
      → Advances s left_queue
  left_queue-Advances g e named init full held =
      Advances-at s left_queue i.uuid (left_queue-IsGood g) (left_queue-others g e named) own
    where
      own : (p : Phase) → Life i.uuid p (view s i.uuid) → Later i.uuid p (view left_queue i.uuid)
      own p (h, _) =
          let e' = stored-scheduled p (view s i.uuid) h held.0 in
          (
            initializing,
            omega (arith, ap rank e'),
            ((left_queue-Holds g e named init held).0, inr full),
          )

-- The job that executeScheduledJob starts
abbrev restarted : Job → Job
restarted j = record (deep_copy j) { status = status_initializing }

pub execute-Advances :
    (s : Joblet) (j : Job) (resources : Bool)
    → IsGood s
    → Alive s
    → s.taken ≡ j ∷ []
    → Advances s (execute_scheduled_job (record s { taken = [] }) j resources).0
unfolding execute_scheduled_job left_queue deep_copy
execute-Advances s j resources g alive e =
    let (p, (h, full)) = alive j.uuid in
    let own = str_eq_refl j.uuid in
    let one : count j.uuid s.taken ≡ 1 = ap (count j.uuid) e ∙ ground (arith, own) in
    let waits = waiting-scheduled p (view s j.uuid) h (omega (arith, one)) in
    let held : Holds scheduled (view s j.uuid) = subst (λ q. Holds q (view s j.uuid)) waits h in
    let long : (len j.uuid == 36) ≡ true =
      full_of (λ x. absurd (ground (arith, ap rank x, ap rank waits))) full in
    elim (job-stored s.store g.going j.uuid) [
      | inl (_, missing) ↦ absurd (none_stored (sym (ap status_of missing) ∙ held.0))
      | inr (i, at, copy) ↦
          let named = (g.consistent j.uuid i at).0 in
          let status : i.status ≡ status_scheduled = some_stored (sym (ap status_of at) ∙ held.0) in
          let is_waiting : str_eq (deep_copy i).status status_scheduled ≡ true =
            ap (λ x. str_eq x status_scheduled) status in
          let not_canceled : str_eq (deep_copy i).status status_canceled ≡ false =
            ap (λ x. str_eq x status_canceled) status in
          let eq : execute_scheduled_job (record s { taken = [] }) j resources
              ≡ begin_execution (left_queue s j (restarted i)) (restarted i) resources =
            ground (arith, copy, is_waiting, not_canceled) in
          let held_i : Holds scheduled (view s i.uuid) =
            subst (λ u. Holds scheduled (view s u)) (sym named) held in
          let long_i : (len i.uuid == 36) ≡ true = ap (λ u. len u == 36) named ∙ long in
          let (init, z) = left_queue-Holds s j (restarted i) g e named refl held_i in
          subst (λ (r : Joblet × Result LifecycleError Job). Advances s r.0) (sym eq)
            (Advances-trans (left_queue-Advances s j (restarted i) g e named refl long_i held_i) (
              begin-Advances (left_queue s j (restarted i)) (restarted i) resources
                (left_queue-IsGood s j (restarted i) g) refl init z))
    ]
  where
    none_stored : none ≡ some status_scheduled → ⊥
    none_stored x = cc

    some_stored : {st : JobStatus} → some st ≡ some status_scheduled → st ≡ status_scheduled
    some_stored x = cc
