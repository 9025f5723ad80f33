-- ===== src/Lifecycle/Lives/AllDeletions.antt =====
-- DeleteAllJobs of internal/joblet/core/joblet.go.
use joblet.Prelude.{
  suc, ◌≡◌, inl, inr, refl, sym, ap, ◌∙◌, subst, arith, Bool, true, false, ◌||◌, String, len,
  Option, none, some, List, [], ◌∷◌, str_eq_refl, Bool-cases, ◌==◌, if_true, if_false,
}
use joblet.Jobs.Domain.{Job, JobStatus, is_running, is_scheduled}
use joblet.Jobs.{delete_job_logs}
use joblet.Jobs.Deletion.{without}
use joblet.Jobs.Consistency.{Step-IsConsistent, deletes_logs}
use joblet.Jobs.Stored.{stored, has_task, stored-without, logs-closed, stored-logs, has_task-logs}
use joblet.Lifecycle.{Joblet, LifecycleError, Counts, delete_each, delete_all_jobs}
use joblet.Lifecycle.View.{View-ext, view}
use joblet.Lifecycle.Lives.{
  Phase, unknown, scheduled, initializing, running, over, IsGood, Life, Later, Advances,
  Advances-refl, Advances-trans, Advances-at, is_over,
}
use joblet.Lifecycle.Lives.Updates.{with_store}
use joblet.Lifecycle.Lives.Stops.{Alive}
use joblet.Lifecycle.Lives.Deletions.{delete-cases, without-Advances}

-- Dropping the logs and the task of a job that is no longer stored
logs-Advances :
    (persist : String → Option Bool) (s : Joblet) (id : String)
    → IsGood s
    → stored s.store id ≡ none
    → (len id == 36) ≡ true
    → Advances s (with_store s (delete_job_logs persist s.store id).0)
logs-Advances persist s id g gone full =
    let own = str_eq_refl id in
    let kept = stored-logs s.store g.going persist id in
    let dropped : has_task (delete_job_logs persist s.store id).0 id ≡ false =
      ground (arith, own, has_task-logs s.store g.going persist id id full) in
    Advances-at s _ id
      (record {
        heap = g.heap;
        going = logs-closed s.store g.going persist id;
        consistent = Step-IsConsistent (deletes_logs persist id) g.consistent;
      })
      (λ u other.
        View-ext (kept u) (has_task-logs s.store g.going persist id u full ∙ if_false _ _ other)
          refl refl refl refl)
      (λ p h. after p h (kept id ∙ gone) dropped)
  where
    clash : {st : JobStatus} → none ≡ some st → ⊥
    clash x = cc

    after :
        (p : Phase)
        → Life id p (view s id)
        → stored (delete_job_logs persist s.store id).0 id ≡ none
        → has_task (delete_job_logs persist s.store id).0 id ≡ false
        → Later id p (view (with_store s (delete_job_logs persist s.store id).0) id)
    after unknown ((_, _, w, st1, m, sp), f) none_left no_task =
        (unknown, omega arith, ((none_left, no_task, w, st1, m, sp), f))
    after over ((_, _, w, st1, m), f) none_left no_task =
        (over, omega arith, ((ap is_over none_left, inl none_left, w, st1, m), f))
    after scheduled ((st, _, _, _, _, _), f) none_left no_task = absurd (clash (sym gone ∙ st))
    after initializing ((st, _, _, _, _, _), f) none_left no_task = absurd (clash (sym gone ∙ st))
    after running ((st, _, _, _, _), f) none_left no_task = absurd (clash (sym gone ∙ st))

pub Advances-Alive : {s t : Joblet} → Advances s t → Alive s → Alive t
Advances-Alive a alive u = let (p, h) = alive u in let (q, _, k) = a.lives u p h in (q, k)

-- How the loop of DeleteAllJobs goes on after its DeleteJob
abbrev after_delete :
    (String → Option Bool)
    → Job
    → List Job
    → Counts
    → Joblet × Option LifecycleError
    → Joblet × Counts
after_delete persist j js c (t, none) =
    delete_each persist (record t { store = (delete_job_logs persist t.store j.uuid).0 }) js
      (record c { deleted = suc c.deleted })
after_delete persist j js c (t, some _) =
    delete_each persist t js (record c { failed = suc c.failed })

-- The loop of DeleteAllJobs
each-Advances :
    (persist : String → Option Bool) (s : Joblet) (js : List Job) (c : Counts)
    → IsGood s
    → Alive s
    → Advances s (delete_each persist s js c).0
unfolding delete_each
each-Advances persist s [] c g alive = Advances-refl g
each-Advances persist s (j ∷ js) c g alive = elim (Bool-cases (is_running j || is_scheduled j)) [
  | inl active ↦
      subst (λ (r : Joblet × Counts). Advances s r.0) (sym (if_true _ _ active))
        (each-Advances persist s js (record c { skipped = suc c.skipped }) g alive)
  | inr inactive ↦
      subst (λ (r : Joblet × Counts). Advances s r.0) (sym (if_false _ _ inactive))
        (elim (delete-cases s j.uuid g alive) [
          | inl (e, eq) ↦
              subst (λ r. Advances s (after_delete persist j js c r).0) (sym eq)
                (each-Advances persist s js (record c { failed = suc c.failed }) g alive)
          | inr (eq, held, full) ↦
              let t = with_store s (without s.store j.uuid) in
              let first = without-Advances s j.uuid g held full in
              let own = str_eq_refl j.uuid in
              let gone : stored t.store j.uuid ≡ none =
                ground (arith, own, stored-without s.store g.going j.uuid j.uuid) in
              let both =
                Advances-trans first (logs-Advances persist t j.uuid first.good gone full) in
              subst (λ r. Advances s (after_delete persist j js c r).0) (sym eq)
                (Advances-trans both (
                  each-Advances persist (with_store t (delete_job_logs persist t.store j.uuid).0) js
                    (record c { deleted = suc c.deleted }) both.good (Advances-Alive both alive)))
        ])
]

pub delete_all-Advances :
    (persist : String → Option Bool) (s : Joblet)
    → IsGood s
    → Alive s
    → Advances s (delete_all_jobs persist s).0
unfolding delete_all_jobs
delete_all-Advances persist s g alive = each-Advances persist s _ _ g alive
