-- ===== src/Jobs/Stored.antt =====
-- What the job store of internal/joblet/adapters/job_store_adapter.go holds of one job after the calls
-- of its methods.
use joblet.Prelude.{
  ◌≡◌, refl, sym, ap, ◌∙◌, arith, Bool, true, false, ◌&&◌, String, len, Option, none, some, ok,
  str_eq, str_eq→eq, ◌==◌, Bool-cases, Option-cases, inl, inr, ◌⊎◌, if◌then◌else◌, if_true,
  if_false,
}
use joblet.Prelude.Map
use joblet.Jobs.Domain.{Job, JobStatus, deep_copy}
use joblet.Jobs.{
  JobStore, new_store, create_new_job, update_job, job, delete_job, delete_job_logs,
  complete_task_cleanup, resolve_uuid_by_prefix, resolve_job_uuid, job_is_running,
}
use joblet.Jobs.Deletion.{is_busy, without, delete_job-found}

abbrev pub status_of : Option Job → Option JobStatus
status_of none = none
status_of (some j) = some j.status

abbrev pub is_some {ℓ} : {A : Type ℓ} → Option A → Bool
is_some none = false
is_some (some a) = true

-- The status under a UUID
abbrev pub stored : JobStore → String → Option JobStatus
stored s u = status_of (Map.get s.jobs u)

abbrev pub has_task : JobStore → String → Bool
has_task s u = is_some (Map.get s.tasks u)

module _ (s : JobStore) (going : s.closed ≡ false) where
  pub create-closed : (j : Job) → (create_new_job s j).closed ≡ false
  unfolding create_new_job
  create-closed j = ground (arith, going)

  pub stored-create :
      (j : Job) (u : String)
      → stored (create_new_job s j) u ≡ (if str_eq j.uuid u then some j.status else stored s u)
  unfolding create_new_job
  stored-create j u = ground (arith, going, Map.get-put s.jobs j.uuid u j)

  pub has_task-create :
      (j : Job) (u : String)
      → has_task (create_new_job s j) u ≡ (if str_eq j.uuid u then true else has_task s u)
  unfolding create_new_job
  has_task-create j u = ground (arith, going, Map.get-put s.tasks j.uuid u (deep_copy j))

  pub update-closed : (j : Job) → (update_job s j).closed ≡ false
  unfolding update_job
  update-closed j = ground (arith, going)

  pub stored-update :
      (j : Job) (u : String)
      → stored (update_job s j) u
        ≡ (if has_task s j.uuid && str_eq j.uuid u then some j.status else stored s u)
  unfolding update_job
  stored-update j u = elim (Option-cases (Map.get s.tasks j.uuid)) [
    | inl missing ↦ ground (arith, going, missing)
    | inr (t, found) ↦ ground (arith, going, found, Map.get-put s.jobs j.uuid u j)
  ]

  pub has_task-update : (j : Job) (u : String) → has_task (update_job s j) u ≡ has_task s u
  unfolding update_job
  has_task-update j u = elim (Option-cases (Map.get s.tasks j.uuid)) [
    | inl missing ↦ ground (arith, going, missing)
    | inr (t, found) ↦ elim (Bool-cases (str_eq j.uuid u)) [
      | inl own ↦
          let there : Map.get s.tasks u ≡ some t =
            ap (Map.get s.tasks) (sym (str_eq→eq j.uuid u own)) ∙ found in
          ground (arith, going, found, there, own, Map.get-put s.tasks j.uuid u (deep_copy j))
      | inr other ↦ ground (arith, going, found, other, Map.get-put s.tasks j.uuid u (deep_copy j))
    ]
  ]

  -- Job hands out a copy of what is stored.
  pub job-stored :
      (u : String)
      → ((job s u ≡ none) × (Map.get s.jobs u ≡ none))
        ⊎ ((j : Job) × (Map.get s.jobs u ≡ some j) × (job s u ≡ some (deep_copy j)))
  unfolding job
  job-stored u = elim (Option-cases (Map.get s.jobs u)) [
    | inl missing ↦ inl (ground (arith, going, missing), missing)
    | inr (j, found) ↦ inr (j, found, ground (arith, going, found))
  ]

  -- A full UUID stands for itself.
  resolve-full : (u : String) → (len u == 36) ≡ true → resolve_uuid_by_prefix s u ≡ ok u
  unfolding resolve_uuid_by_prefix
  resolve-full u full = if_true _ _ full

  -- DeleteJob of a stored job refuses, and changes nothing, or removes the job, which was not busy.
  pub delete-stored :
      (u : String) (j : Job)
      → (len u == 36) ≡ true
      → Map.get s.jobs u ≡ some j
      → ((is_busy j ≡ true) × (delete_job s u ≡ (s, some job_is_running)))
        ⊎ ((is_busy j ≡ false) × (delete_job s u ≡ (without s u, none)))
  delete-stored u j full found =
      let eq = delete_job-found s u u j going (resolve-full u full) found in
      elim (Bool-cases (is_busy j)) [
        | inl busy ↦ inl (busy, eq ∙ if_true _ _ busy)
        | inr free ↦ inr (free, eq ∙ if_false _ _ free)
      ]

  pub without-closed : (u : String) → (without s u).closed ≡ false
  unfolding without
  without-closed u = going

  pub stored-without :
      (w u : String) → stored (without s w) u ≡ (if str_eq w u then none else stored s u)
  unfolding without
  stored-without w u = ground (arith, Map.get-remove s.jobs w u)

  pub has_task-without : (w u : String) → has_task (without s w) u ≡ has_task s u
  unfolding without
  has_task-without w u = refl

  pub logs-closed :
      (persist : String → Option Bool) (w : String) → (delete_job_logs persist s w).0.closed ≡ false
  unfolding delete_job_logs complete_task_cleanup
  logs-closed persist w = ground (arith, going)

  pub stored-logs :
      (persist : String → Option Bool) (w u : String)
      → stored (delete_job_logs persist s w).0 u ≡ stored s u
  unfolding delete_job_logs complete_task_cleanup
  stored-logs persist w u = ground (arith, going)

  pub has_task-logs :
      (persist : String → Option Bool) (w u : String)
      → (len w == 36) ≡ true
      → has_task (delete_job_logs persist s w).0 u ≡ (if str_eq w u then false else has_task s u)
  unfolding delete_job_logs complete_task_cleanup resolve_job_uuid
  has_task-logs persist w u full =
      let named = resolve-full w full in
      elim (Option-cases (Map.get s.tasks w)) [
        | inl missing ↦ elim (Bool-cases (str_eq w u)) [
          | inl own ↦
              let gone : Map.get s.tasks u ≡ none =
                ap (Map.get s.tasks) (sym (str_eq→eq w u own)) ∙ missing in
              ground (arith, going, named, missing, gone, own)
          | inr other ↦ ground (arith, going, named, missing, other)
        ]
        | inr (t, found) ↦ ground (arith, going, named, found, Map.get-remove s.tasks w u)
      ]

-- A new store is open and empty.
pub new-going : (state persisted : Bool) → (new_store state persisted).closed ≡ false
unfolding new_store
new-going state persisted = refl

pub new-empty :
    (state persisted : Bool) (u : String)
    → (stored (new_store state persisted) u ≡ none)
      × (has_task (new_store state persisted) u ≡ false)
unfolding new_store
new-empty state persisted u =
    (ap status_of (Map.get_nil {V = Job} u), ap is_some (Map.get_nil {V = Job} u))
