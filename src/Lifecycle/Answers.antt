-- ===== src/Lifecycle/Answers.antt =====
-- What StopJob and DeleteAllJobs of internal/joblet/core/joblet.go answer.
use joblet.Prelude.{
  ℕ, zero, suc, ◌+◌, ◌<◌, ◌≤◌, ◌≡◌, ◌≢◌, ◌⊎◌, inl, inr, refl, sym, ap, ◌∙◌, subst, arith, Bool,
  true, false, ◌||◌, ◌++◌, String, Option, none, some, List, [], ◌∷◌, ok, err, str_eq, str_eq_refl,
  eq_iff, length, Bool-cases, Option-cases,
}
use joblet.Jobs.Domain.{
  Job, JobStatus, deep_copy, is_running, is_scheduled, status_running, status_scheduled,
  status_stopped,
}
use joblet.Jobs.{update_job, list_jobs, delete_job_logs}
use joblet.Jobs.Stored.{stored, has_task, status_of, job-stored}
use joblet.Scheduler.{remove, remove_job}
use joblet.Scheduler.Heap.Order.{IsHeap}
use joblet.Scheduler.Queue.{remove_one}
use joblet.Lifecycle.View.{view, one_if, count, count-append, queued, queued-perm, Absent-queued}
use joblet.Lifecycle.Lives.{running, IsGood, Holds, stored-running}
use joblet.Lifecycle.Lives.Updates.{update-others, update-own}
use joblet.Lifecycle.Lives.Stops.{Alive, found}
use joblet.Lifecycle.{
  Joblet, LifecycleError, job_not_found, not_removed, job_not_running, Counts, stop_job, delete,
  delete_each, report, delete_all_jobs,
}

-- The answers of StopJob, each under its condition, told by what is stored, queued and listed
pub data StopAnswer (s : Joblet) (id : String) (cleaning : Bool)
    (r : Joblet × Option LifecycleError) : Type 0 where
  refuses_unknown :
      stored s.store id ≡ none → r ≡ (s, some job_not_found) → StopAnswer s id cleaning r
  refuses_unqueued :
      stored s.store id ≡ some status_scheduled
      → queued id s.scheduler.queue ≡ 0
      → r ≡ (s, some not_removed)
      → StopAnswer s id cleaning r
  takes_out :
      stored s.store id ≡ some status_scheduled
      → r.1 ≡ none
      → r.0.store ≡ s.store
      → queued id s.scheduler.queue ≡ suc (queued id r.0.scheduler.queue)
      → ((u : String)
          → str_eq id u ≡ false
          → queued u r.0.scheduler.queue ≡ queued u s.scheduler.queue)
      → IsHeap r.0.scheduler.queue
      → count id r.0.canceling ≡ suc (count id s.canceling)
      → StopAnswer s id cleaning r
  marks_stopped :
      stored s.store id ≡ some status_running
      → cleaning ≡ true
      → r.1 ≡ none
      → stored r.0.store id ≡ some status_stopped
      → ((u : String) → str_eq id u ≡ false → stored r.0.store u ≡ stored s.store u)
      → StopAnswer s id cleaning r
  cleans_up :
      stored s.store id ≡ some status_running
      → cleaning ≡ false
      → r.1 ≡ none
      → r.0.store ≡ s.store
      → count id r.0.stopping ≡ suc (count id s.stopping)
      → StopAnswer s id cleaning r
  refuses_idle :
      (st : JobStatus)
      → stored s.store id ≡ some st
      → st ≢ status_scheduled
      → st ≢ status_running
      → r ≡ (s, some job_not_running)
      → StopAnswer s id cleaning r

str_ne : (s t : String) → str_eq s t ≡ false → s ≢ t
str_ne s t h e = ground (arith, h, e, str_eq_refl s, eq_iff s t)

one_if-own : (u : String) → one_if (str_eq u u) ≡ 1
one_if-own u = ap one_if (str_eq_refl u)

one_if-same : (j : Job) (u : String) → j.uuid ≡ u → one_if (str_eq j.uuid u) ≡ 1
one_if-same j u e = ap (λ y. one_if (str_eq y u)) e ∙ one_if-own u

-- In a state as the other parts leave it, where each job is in one phase, StopJob up to its wait or its
-- last UpdateJob gives one of six answers, each under its condition: it refuses, without a change, an
-- unknown job, a scheduled one that is not in the queue and one that neither waits nor runs; it takes
-- one entry of a queued job, and no other, out of the queue and holds the job to be stored as
-- canceled; it stores a running job, and no other, as stopped where its cleanup is already in
-- progress, and begins the cleanup, the store unchanged, where it is not.
pub stop_job-Answer :
    (s : Joblet) (id : String) (cleaning : Bool)
    → IsGood s
    → Alive s
    → StopAnswer s id cleaning (stop_job s id cleaning)
unfolding stop_job is_scheduled is_running deep_copy remove_job
stop_job-Answer s id cleaning g alive = elim (job-stored s.store g.going id) [
  | inl (missing, gone) ↦ refuses_unknown (ap status_of gone) (ground (arith, missing))
  | inr (j, at, copy) ↦ elim (Bool-cases (str_eq j.status status_scheduled)) [
    | inl waits ↦
        let (named, status) = found s id j status_scheduled g at waits in
        elim (remove_one s.scheduler.queue id g.heap) [
          | inl (kept, absent) ↦
              refuses_unqueued status (Absent-queued id s.scheduler.queue absent)
                (ground (arith, copy, waits, kept))
          | inr (x, answer, is_x, heap, rest) ↦
              let i = deep_copy j in
              let q = (remove s.scheduler.queue id).0 in
              let eq : stop_job s id cleaning ≡ (
                record s {
                  scheduler = record s.scheduler { queue = q; new_job_signal = true };
                  canceling = s.canceling ++ (i ∷ []);
                },
                none,
              ) =
                ground (arith, copy, waits, answer) in
              let own = one_if-same i id named in
              let out = ap (λ y. one_if (str_eq y id)) is_x ∙ one_if-own id in
              subst (StopAnswer s id cleaning) (sym eq) (
                takes_out status refl refl (let n = queued-perm id rest in omega (arith, n, out))
                  (λ u other.
                    let n = queued-perm u rest in
                    let foreign = ap (λ y. one_if (str_eq y u)) is_x ∙ ap one_if other in
                    omega (arith, n, foreign))
                  heap (let c = count-append id s.canceling (i ∷ []) in omega (arith, c, own)))
        ]
    | inr unqueued ↦ elim (Bool-cases (str_eq j.status status_running)) [
      | inr off ↦
          refuses_idle j.status (ap status_of at) (str_ne _ _ unqueued) (str_ne _ _ off)
            (ground (arith, copy, unqueued, off))
      | inl runs ↦
          let (named, status) = found s id j status_running g at runs in
          elim (Bool-cases cleaning) [
            | inl busy ↦
                let i : Job = record (deep_copy j) { status = status_stopped } in
                let eq : stop_job s id cleaning
                    ≡ (record s { store = update_job s.store i }, none) =
                  ground (arith, copy, unqueued, runs, busy) in
                let (p, (h, _)) = alive id in
                let held : Holds running (view s id) =
                  subst (λ q. Holds q (view s id)) (stored-running p (view s id) h status) h in
                let tasked : has_task s.store i.uuid ≡ true =
                  ap (has_task s.store) named ∙ held.1 in
                let stops = (update-own s.store g.going i tasked).0 in
                subst (StopAnswer s id cleaning) (sym eq) (
                  marks_stopped status busy refl
                    (subst (λ u. stored (update_job s.store i) u ≡ some status_stopped) named stops)
                    (λ u other.
                      (update-others s.store g.going i u (ap (λ y. str_eq y u) named ∙ other)).0))
            | inr free ↦
                let i = deep_copy j in
                let eq : stop_job s id cleaning
                    ≡ (record s { stopping = s.stopping ++ (i ∷ []) }, none) =
                  ground (arith, copy, unqueued, runs, free) in
                let own = one_if-same i id named in
                subst (StopAnswer s id cleaning) (sym eq) (
                  cleans_up status free refl refl
                    (let c = count-append id s.stopping (i ∷ []) in omega (arith, c, own)))
          ]
    ]
  ]
]

abbrev total : Counts → ℕ
total c = c.deleted + c.skipped + c.failed

each-total :
    (persist : String → Option Bool) (s : Joblet) (js : List Job) (c : Counts)
    → total (delete_each persist s js c).1 ≡ total c + length js
unfolding delete_each
each-total persist s [] c = omega arith
each-total persist s (j ∷ js) c =
    let (t, failed) = delete s j.uuid in
    let skip = each-total persist s js (record c { skipped = suc c.skipped }) in
    let fail = each-total persist t js (record c { failed = suc c.failed }) in
    let cleared = record t { store = (delete_job_logs persist t.store j.uuid).0 } in
    let done = each-total persist cleared js (record c { deleted = suc c.deleted }) in
    elim (Bool-cases (is_running j || is_scheduled j)) [
      | inl active ↦ ground (arith, active, skip)
      | inr inactive ↦ elim (Option-cases failed) [
        | inl fine ↦ ground (arith, inactive, fine, done)
        | inr (e, broken) ↦ ground (arith, inactive, broken, fail)
      ]
    ]

-- DeleteAllJobs accounts for every listed job: where it succeeds, the jobs that it counts as deleted or
-- skipped are together as many as the store lists, and where it fails, it reports at least one and at
-- most as many failures as there are listed jobs.
pub delete_all_jobs-counts :
    (persist : String → Option Bool) (s : Joblet)
    → ((d : ℕ) × (k : ℕ) × ((delete_all_jobs persist s).1 ≡ ok (d, k))
        × (d + k ≡ length (list_jobs s.store)))
      ⊎ ((n : ℕ) × ((delete_all_jobs persist s).1 ≡ err n) × 0 < n × n ≤ length (list_jobs s.store))
unfolding delete_all_jobs report
delete_all_jobs-counts persist s =
    let none_yet : Counts = record { deleted = 0; skipped = 0; failed = 0 } in
    let c = (delete_each persist s (list_jobs s.store) none_yet).1 in
    by_failed c.failed c.deleted c.skipped
      (omega (arith, each-total persist s (list_jobs s.store) none_yet))
  where
    by_failed :
        (n d k : ℕ)
        → d + k + n ≡ length (list_jobs s.store)
        → ((d' : ℕ) × (k' : ℕ) × (report n d k ≡ ok (d', k'))
            × (d' + k' ≡ length (list_jobs s.store)))
          ⊎ ((m : ℕ) × (report n d k ≡ err m) × 0 < m × m ≤ length (list_jobs s.store))
    by_failed zero d k t = inl (d, k, refl, omega arith)
    by_failed (suc n) d k t = inr (suc n, refl, omega arith, omega arith)
