-- ===== src/Lifecycle/Lives/Monitors.antt =====
-- The ends of processes: monitorJob of internal/joblet/core/joblet.go.
use joblet.Prelude.{
  zero, suc, ◌≡◌, ◌⊎◌, inr, refl, sym, ap, ◌∙◌, subst, arith, true, none, some, List, ◌∷◌, ◌++◌,
  str_eq,
}
use joblet.Prelude.Int.{ℤ, pos, negsuc}
use joblet.Jobs.Domain.{Job}
use joblet.Jobs.{update_job}
use joblet.Jobs.Stored.{stored, has_task}
use joblet.Lifecycle.{Joblet, Ended, exited, wait_failed, timed_out, ended_job, finish_monitor}
use joblet.Lifecycle.View.{View-ext, view, count}
use joblet.Lifecycle.Lives.{
  Phase, unknown, scheduled, initializing, running, over, IsGood, Life, Later, Advances,
  Advances-at, is_over,
}
use joblet.Lifecycle.Lives.Updates.{updated-IsGood, update-others, update-own, update-over}
use joblet.Lifecycle.Lives.Processes.{listed, unlisted, full_of}

pub ended_job-same : (j : Job) (how : Ended) (now : ℤ) → (ended_job j how now).uuid ≡ j.uuid
unfolding ended_job
ended_job-same j (exited (pos zero)) now = refl
ended_job-same j (exited (pos (suc n))) now = refl
ended_job-same j (exited (negsuc n)) now = refl
ended_job-same j wait_failed now = refl
ended_job-same j timed_out now = refl

pub ended_job-over :
    (j : Job) (how : Ended) (now : ℤ) → is_over (some (ended_job j how now).status) ≡ true
unfolding ended_job
ended_job-over j (exited (pos zero)) now = refl
ended_job-over j (exited (pos (suc n))) now = refl
ended_job-over j (exited (negsuc n)) now = refl
ended_job-over j wait_failed now = refl
ended_job-over j timed_out now = refl

pub monitor-Advances :
    (s : Joblet) (before : List Job) (j : Job) (after : List Job) (how : Ended) (now : ℤ)
    → IsGood s
    → s.monitors ≡ before ++ (j ∷ after)
    → Advances s (finish_monitor s before j after how now)
unfolding finish_monitor
monitor-Advances s before j after how now g e =
    Advances-at s _ j.uuid good
      (λ u other.
        let (a, b) = update-others s.store g.going r u (ap (λ x. str_eq x u) same ∙ other) in
        View-ext a b refl refl (unlisted u s.monitors before j after e other) refl)
      (λ p h. own p h)
  where
    r : Job
    r = ended_job j how now

    same : r.uuid ≡ j.uuid
    same = ended_job-same j how now

    good : IsGood (finish_monitor s before j after how now)
    good =
        let v = updated-IsGood s r g in
        record { heap = v.heap; going = v.going; consistent = v.consistent }

    c : count j.uuid s.monitors ≡ suc (count j.uuid (before ++ after))
    c = listed s.monitors before j after e

    own :
        (p : Phase)
        → Life j.uuid p (view s j.uuid)
        → Later j.uuid p (view (finish_monitor s before j after how now) j.uuid)
    own running ((st, task, w, st1, m), full) =
        let (status, task') = update-own s.store g.going r (ap (has_task s.store) same ∙ task) in
        (
          over,
          omega arith,
          (
            (
              ap (λ x. is_over (stored (update_job s.store r) x)) (sym same)
                  ∙ ap is_over status
                  ∙ ended_job-over j how now,
              inr (ap (has_task (update_job s.store r)) (sym same) ∙ task'),
              w,
              st1,
              omega (arith, c, m),
            ),
            inr (full_of (λ x. absurd (ground arith)) full),
          ),
        )
    own over ((st, task, w, st1, m), full) =
        let was : (is_over (stored s.store r.uuid) ≡ true)
            × ((stored s.store r.uuid ≡ none) ⊎ (has_task s.store r.uuid ≡ true)) =
          subst
            (λ x.
              (is_over (stored s.store x) ≡ true)
              × ((stored s.store x ≡ none) ⊎ (has_task s.store x ≡ true)))
            (sym same) (st, task) in
        let (now_over, now_task) =
          subst
            (λ x.
              (is_over (stored (update_job s.store r) x) ≡ true)
              × ((stored (update_job s.store r) x ≡ none)
                  ⊎ (has_task (update_job s.store r) x ≡ true)))
            same (update-over s.store g.going r (ended_job-over j how now) was.0 was.1) in
        (over, omega arith, ((now_over, now_task, w, st1, omega (arith, c, m)), full))
    own unknown ((st, task, w, st1, m, sp), full) = absurd (omega (arith, c))
    own scheduled ((st, task, w, st1, m, sp), full) = absurd (omega (arith, c))
    own initializing ((st, task, w, st1, m, sp), full) = absurd (omega (arith, c))
