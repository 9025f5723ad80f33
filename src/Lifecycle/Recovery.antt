-- ===== src/Lifecycle/Recovery.antt =====
-- RecoverScheduledJobs of internal/joblet/core/joblet.go.
pub mod Tests
use mathlib.Core.List.{Perm, perm_middle}
use mathlib.Core.List.Perm
use joblet.Prelude.{
  ℕ, suc, ◌+◌, ◌≡◌, ◌⊎◌, inl, inr, refl, sym, ap, ◌∙◌, subst, arith, Bool, true, false, ◌&&◌, ◌++◌,
  String, Option, none, some, List, [], ◌∷◌, keep, length, str_eq, Bool-cases, Option-cases,
  if◌then◌else◌,
}
use joblet.Prelude.Int.{ℤ}
use joblet.Jobs.Domain.{Job, status_scheduled}
use joblet.Scheduler.{Scheduler, PriorityQueue, add, add_job}
use joblet.Scheduler.Heap.{ScheduledJob}
use joblet.Scheduler.Heap.Order.{IsHeap}
use joblet.Scheduler.Heap.Slice.{length-perm}
use joblet.Scheduler.History.{add-HeapOf}
use joblet.Scheduler.Loop.OnTime.{add_job-some}
use joblet.Lifecycle.{Joblet, recover_scheduled_jobs}

-- Is the job scheduled, and on this node?
abbrev pub is_mine : String → Job → Bool
is_mine node j = str_eq j.status status_scheduled && str_eq j.node_id node

-- Has the job a start time, and is it scheduled on this node?
abbrev pub is_timed : Option ℤ → Bool
is_timed none = false
is_timed (some _) = true

abbrev pub is_recoverable : String → Job → Bool
is_recoverable node j = is_mine node j && is_timed j.scheduled_time

-- The queue's entries for the recoverable jobs, each with its own job and start time
abbrev pub entries : String → List Job → List ScheduledJob
entries node [] = []
entries node (j ∷ js) = elim j.scheduled_time [
  | none ↦ entries node js
  | some t ↦
      if is_mine node j
      then record { job = j; scheduled_time = t } ∷ entries node js
      else entries node js
]

-- What the recovery of the jobs gives
pub record IsRecovery (node : String) (s : Joblet) (js : List Job) (r : Joblet × ℕ × ℕ)
    : Type 0 where
  pub counted : r.1 + r.2 ≡ length (keep (is_mine node) js)
  pub recovered : r.1 ≡ length (keep (is_recoverable node) js)
  pub queued : Perm r.0.scheduler.queue (entries node js ++ s.scheduler.queue)
  pub heap : IsHeap r.0.scheduler.queue
  pub stored : r.0.store ≡ s.store

entries-other :
    (node : String) (j : Job) (js : List Job)
    → is_mine node j ≡ false
    → entries node (j ∷ js) ≡ entries node js
entries-other node j js e = elim (Option-cases j.scheduled_time) [
  | inl untimed ↦ rw untimed refl
  | inr (t, timed) ↦ rw (timed, e) refl
]

entries-own :
    (node : String) (j : Job) (js : List Job) (t : ℤ)
    → j.scheduled_time ≡ some t
    → is_mine node j ≡ true
    → entries node (j ∷ js) ≡ record { job = j; scheduled_time = t } ∷ entries node js
entries-own node j js t timed own = ground (arith, timed, own)

-- The loop at a job that it recovers
one_recovered :
    (node : String) (s : Joblet) (j : Job) (js : List Job) (t : ℤ)
    → str_eq j.status status_scheduled ≡ true
    → str_eq j.node_id node ≡ true
    → j.scheduled_time ≡ some t
    → recover_scheduled_jobs node s (j ∷ js) ≡ (
        let (r, n, k) =
          recover_scheduled_jobs node (record s { scheduler = add_job s.scheduler j }) js in
        (r, suc n, k))
unfolding recover_scheduled_jobs
one_recovered node s j js t waits mine timed = ground (arith, waits, mine, timed)

carried :
    {q es es' : List ScheduledJob} (rest : List ScheduledJob)
    → es' ≡ es
    → Perm q (es ++ rest)
    → Perm q (es' ++ rest)
carried {q = q} rest e p = subst (λ l. Perm q (l ++ rest)) (sym e) p

placed :
    {q added rest : List ScheduledJob} {x : ScheduledJob} (es : List ScheduledJob)
    → Perm q (es ++ added)
    → Perm added (x ∷ rest)
    → Perm q (x ∷ (es ++ rest))
placed {rest = rest} es p a =
    Perm.trans p (Perm.trans (Perm.append_left es a) (perm_middle es rest))

-- A scheduled job that is added keeps the heap and takes one place.
added-queued :
    (s : Joblet) (j : Job) (t : ℤ)
    → IsHeap s.scheduler.queue
    → j.scheduled_time ≡ some t
    → IsHeap (add_job s.scheduler j).queue
      × Perm
          (add_job s.scheduler j).queue
          (record { job = j; scheduled_time = t } ∷ s.scheduler.queue)
added-queued s j t h e = elim (add-HeapOf s.scheduler.queue j h) [
  | inl (no_time, _) ↦ ground (arith, no_time, e)
  | inr (t', timed, heap) ↦
      let queues : (add_job s.scheduler j).queue ≡ add s.scheduler.queue j =
        ap (λ (c : Scheduler). c.queue) (sym (add_job-some s.scheduler j t e)) in
      let eq = sym timed ∙ e in
      let same : t' ≡ t = cc in
      (
        subst IsHeap (sym queues) heap.0,
        subst (λ q. Perm q (record { job = j; scheduled_time = t } ∷ s.scheduler.queue))
            (sym queues)
            (subst
              (λ t.
                Perm (add s.scheduler.queue j)
                  (record { job = j; scheduled_time = t } ∷ s.scheduler.queue))
              same heap.1),
      )
]

-- RecoverScheduledJobs, from a queue in heap order, counts each scheduled job of this node once, those
-- that have a start time as recovered and the others as skipped; the queue, in heap order again, then
-- holds its former entries and, for each recovered job, one with that job and its start time, and
-- nothing else; the store is left as it is.
pub recover-IsRecovery :
    (node : String) (s : Joblet) (js : List Job)
    → IsHeap s.scheduler.queue
    → IsRecovery node s js (recover_scheduled_jobs node s js)
unfolding recover_scheduled_jobs
recover-IsRecovery node s [] h = record {
  counted = refl;
  recovered = refl;
  queued = Perm.rfl;
  heap = h;
  stored = refl;
}
recover-IsRecovery node s (j ∷ js) h =
    let rest = recover-IsRecovery node s js h in
    elim (Bool-cases (str_eq j.status status_scheduled)) [
      | inr other ↦ rw other (record {
        counted = ground (arith, rest.counted, other);
        recovered = ground (arith, rest.recovered, other);
        queued =
            carried s.scheduler.queue (entries-other node j js (ground (arith, other))) rest.queued;
        heap = rest.heap;
        stored = rest.stored;
      })
      | inl waits ↦ elim (Bool-cases (str_eq j.node_id node)) [
        | inr other ↦
            rw (waits, other)
              (record {
                counted = ground (arith, rest.counted, waits, other);
                recovered = ground (arith, rest.recovered, waits, other);
                queued =
                    carried s.scheduler.queue
                      (entries-other node j js (ground (arith, waits, other))) rest.queued;
                heap = rest.heap;
                stored = rest.stored;
              })
        | inl mine ↦ elim (Option-cases j.scheduled_time) [
          | inl none_set ↦
              rw (waits, mine, none_set)
                (record {
                  counted = ground (arith, rest.counted, waits, mine);
                  recovered = ground (arith, rest.recovered, waits, mine, none_set);
                  queued = rest.queued;
                  heap = rest.heap;
                  stored = rest.stored;
                })
          | inr (t, e) ↦
              let added : IsHeap (add_job s.scheduler j).queue
                  × Perm (add_job s.scheduler j).queue
                      (record { job = j; scheduled_time = t } ∷ s.scheduler.queue) =
                added-queued s j t h e in
              let later =
                recover-IsRecovery node (record s { scheduler = add_job s.scheduler j }) js
                  added.0 in
              let this : entries node (j ∷ js)
                  ≡ record { job = j; scheduled_time = t } ∷ entries node js =
                entries-own node j js t e (ground (arith, waits, mine)) in
              subst (IsRecovery node s (j ∷ js)) (sym (one_recovered node s j js t waits mine e))
                (record {
                  counted = ground (arith, later.counted, waits, mine);
                  recovered = ground (arith, later.recovered, waits, mine, e);
                  queued =
                      carried s.scheduler.queue this
                        (placed (entries node js) later.queued added.1);
                  heap = later.heap;
                  stored = later.stored;
                })
        ]
      ]
    ]
