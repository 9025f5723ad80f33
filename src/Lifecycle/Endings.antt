-- ===== src/Lifecycle/Endings.antt =====
-- monitorJob of internal/joblet/core/joblet.go, for every running job.
use joblet.Prelude.{
  ◌<◌, ◌≡◌, inl, inr, refl, sym, ap, ◌∙◌, subst, arith, Bool, true, String, Option, some, List, [],
  ◌∷◌, ◌++◌, str_eq, str_eq→eq, Bool-cases,
}
use joblet.Prelude.Int.{ℤ}
use joblet.Jobs.Domain.{Job, status_running}
use joblet.Jobs.{update_job}
use joblet.Jobs.Stored.{stored, has_task}
use joblet.Lifecycle.{Joblet, Ended, ended_job, finish_monitor}
use joblet.Lifecycle.View.{view, count}
use joblet.Lifecycle.History.{Steps, initial}
use joblet.Lifecycle.Lives.{running, Holds, is_over, stored-running}
use joblet.Lifecycle.Lives.Monitors.{ended_job-same, ended_job-over}
use joblet.Lifecycle.Lives.Updates.{update-own}
use joblet.Lifecycle.Lives.Reachable.{steps-Alive}

-- A job that counts in a list stands in it.
listed_once :
    (u : String) (l : List Job)
    → 0 < count u l
    → (before : List Job) × (j : Job) × (after : List Job) × (l ≡ before ++ (j ∷ after))
      × (j.uuid ≡ u)
listed_once u [] h = absurd (omega arith)
listed_once u (j ∷ l) h = elim (Bool-cases (str_eq j.uuid u)) [
  | inl own ↦ ([], j, l, refl, str_eq→eq j.uuid u own)
  | inr other ↦
      let (before, i, after, e, named) = listed_once u l (ground (arith, other)) in
      (j ∷ before, i, after, ap (◌∷◌ j) e, named)
]

-- The monitor ends the job of the UUID, whatever the process does.
pub Ends : Joblet → String → Type 0
Ends s u =
    (before : List Job) × (j : Job) × (after : List Job) × (s.monitors ≡ before ++ (j ∷ after))
    × ((how : Ended) (now : ℤ)
        → (stored (finish_monitor s before j after how now).store u
            ≡ some (ended_job j how now).status)
          × (is_over (stored (finish_monitor s before j after how now).store u) ≡ true))

-- In every state that the parts of the calls lead to from an empty store, without the restoring of
-- jobs after a restart, a job that is stored as running has a monitor, and however and whenever its
-- process ends, the monitor then stores a final status for it: completed, failed or timed out.
pub running-Ends :
    {fresh : String → Type 0} {parse_time : String → Option ℤ} {persist : String → Option Bool}
    (state persisted : Bool) {s : Joblet}
    → Steps fresh parse_time persist (initial state persisted) s
    → (u : String) → stored s.store u ≡ some status_running
    → Ends s u
unfolding finish_monitor Ends
running-Ends state persisted {s} r u e =
    let (g, alive) = steps-Alive state persisted r in
    let (p, (h, _)) = alive u in
    let held : Holds running (view s u) =
      subst (λ q. Holds q (view s u)) (stored-running p (view s u) h e) h in
    let (_, task, _, _, one) = held in
    let (before, j, after, at, named) = listed_once u s.monitors (omega (arith, one)) in
    (
      before,
      j,
      after,
      at,
      λ how now.
          let i = ended_job j how now in
          let is_u : i.uuid ≡ u = ended_job-same j how now ∙ named in
          let (status, _) = update-own s.store g.going i (ap (has_task s.store) is_u ∙ task) in
          let final : stored (update_job s.store i) u ≡ some i.status =
            ap (stored (update_job s.store i)) (sym is_u) ∙ status in
          (final, ap is_over final ∙ ended_job-over j how now),
    )
