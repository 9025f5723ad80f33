-- ===== src/Lifecycle/Lives/Updates.antt =====
-- What CreateNewJob and UpdateJob of a job, as joblet.go calls them, leave of the phases.
use joblet.Prelude.{
  ◌≡◌, ◌⊎◌, inl, inr, ap, ◌∙◌, arith, true, false, String, none, some, str_eq, str_eq_refl,
  Bool-cases,
}
use joblet.Jobs.Domain.{Job}
use joblet.Jobs.{JobStore, create_new_job, update_job}
use joblet.Jobs.Stored.{
  stored, has_task, create-closed, stored-create, has_task-create, update-closed, stored-update,
  has_task-update,
}
use joblet.Jobs.Consistency.{Step-IsConsistent, creates, updates}
use joblet.Lifecycle.{Joblet}
use joblet.Lifecycle.Lives.{IsGood, is_over}

-- The state with another store
abbrev pub with_store : Joblet → JobStore → Joblet
with_store s store = record s { store = store }

pub created-IsGood :
    (s : Joblet) (j : Job) → IsGood s → IsGood (with_store s (create_new_job s.store j))
created-IsGood s j g = record {
  heap = g.heap;
  going = create-closed s.store g.going j;
  consistent = Step-IsConsistent (creates j) g.consistent;
}

pub updated-IsGood :
    (s : Joblet) (j : Job) → IsGood s → IsGood (with_store s (update_job s.store j))
updated-IsGood s j g = record {
  heap = g.heap;
  going = update-closed s.store g.going j;
  consistent = Step-IsConsistent (updates j) g.consistent;
}

module _ (s : JobStore) (going : s.closed ≡ false) (j : Job) where
  -- The other jobs
  pub create-others :
      (u : String)
      → str_eq j.uuid u ≡ false
      → (stored (create_new_job s j) u ≡ stored s u)
        × (has_task (create_new_job s j) u ≡ has_task s u)
  create-others u other = (
    ground (arith, stored-create s going j u, other),
    ground (arith, has_task-create s going j u, other),
  )

  pub update-others :
      (u : String)
      → str_eq j.uuid u ≡ false
      → (stored (update_job s j) u ≡ stored s u) × (has_task (update_job s j) u ≡ has_task s u)
  update-others u other =
      (ground (arith, stored-update s going j u, other), has_task-update s going j u)

  -- The job itself
  pub create-own :
      (stored (create_new_job s j) j.uuid ≡ some j.status)
      × (has_task (create_new_job s j) j.uuid ≡ true)
  create-own =
      let own = str_eq_refl j.uuid in
      (
        ground (arith, stored-create s going j j.uuid, own),
        ground (arith, has_task-create s going j j.uuid, own),
      )

  pub update-own :
      has_task s j.uuid ≡ true
      → (stored (update_job s j) j.uuid ≡ some j.status) × (has_task (update_job s j) j.uuid ≡ true)
  update-own task =
      let own = str_eq_refl j.uuid in
      (
        ground (arith, stored-update s going j j.uuid, own, task),
        has_task-update s going j j.uuid ∙ task,
      )

  -- An update to a status that is over keeps a job over.
  pub update-over :
      is_over (some j.status) ≡ true
      → is_over (stored s j.uuid) ≡ true
      → (stored s j.uuid ≡ none) ⊎ (has_task s j.uuid ≡ true)
      → (is_over (stored (update_job s j) j.uuid) ≡ true)
        × ((stored (update_job s j) j.uuid ≡ none) ⊎ (has_task (update_job s j) j.uuid ≡ true))
  update-over now before task = elim (Bool-cases (has_task s j.uuid)) [
    | inl there ↦ let (status, task) = update-own there in (ap is_over status ∙ now, inr task)
    | inr missing ↦
        let same : stored (update_job s j) j.uuid ≡ stored s j.uuid =
          ground (arith, stored-update s going j j.uuid, missing) in
        (
          ap is_over same ∙ before,
          elim task [
            | inl gone ↦ inl (same ∙ gone)
            | inr there ↦ absurd (ground (arith, there, missing))
          ],
        )
  ]
