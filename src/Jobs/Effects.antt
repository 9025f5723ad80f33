-- ===== src/Jobs/Effects.antt =====
-- What each call of internal/joblet/adapters/job_store_adapter.go does to the jobs and the tasks.
use joblet.Prelude.{
  ◌≡◌, refl, Bool, String, Option, [], ◌∷◌, arith, Bool-cases, Option-cases, inl, inr, ◌⊎◌,
  Result-cases,
}
use joblet.Prelude.Map
use joblet.Jobs.Domain.{Job, deep_copy}
use joblet.Jobs.Logs.{Chunk}
use joblet.Jobs.{
  JobStore, resolve_job_uuid, delete_job, validate_job_not_running, job, update_job, create_new_job,
  write_to_buffer, write_to_task, delete_job_logs, complete_task_cleanup,
}

pub create-cases :
    (s : JobStore) (j : Job)
    → (create_new_job s j ≡ s)
      ⊎ (((create_new_job s j).jobs ≡ Map.put s.jobs j.uuid j)
          × ((create_new_job s j).tasks ≡ Map.put s.tasks j.uuid (deep_copy j)))
unfolding create_new_job
create-cases s j = elim (Bool-cases s.closed) [
  | inl shut ↦ inl (ground arith)
  | inr running ↦ inr (ground arith, ground arith)
]

pub update-cases :
    (s : JobStore) (j : Job)
    → (update_job s j ≡ s)
      ⊎ (((update_job s j).jobs ≡ Map.put s.jobs j.uuid j)
          × ((update_job s j).tasks ≡ Map.put s.tasks j.uuid (deep_copy j)))
unfolding update_job
update-cases s j = elim (Bool-cases s.closed) [
  | inl shut ↦ inl (ground arith)
  | inr running ↦ elim (Option-cases (Map.get s.tasks j.uuid)) [
    | inl missing ↦ inl (ground arith)
    | inr (t, found) ↦ inr (ground arith, ground arith)
  ]
]

pub write-same :
    (s : JobStore) (id : String) (c : Chunk)
    → ((write_to_buffer s id c).jobs ≡ s.jobs) × ((write_to_buffer s id c).tasks ≡ s.tasks)
unfolding write_to_buffer write_to_task
write-same s id [] = (refl, refl)
write-same s id (b ∷ c) = ground arith

pub delete-cases :
    (s : JobStore) (id : String)
    → ((delete_job s id).0.tasks ≡ s.tasks)
      × (((delete_job s id).0.jobs ≡ s.jobs)
          ⊎ ((u : String) × ((delete_job s id).0.jobs ≡ Map.remove s.jobs u)))
unfolding delete_job
delete-cases s id = elim (Bool-cases s.closed) [
  | inl shut ↦ (ground arith, inl (ground arith))
  | inr running ↦ elim (Result-cases (resolve_job_uuid s id)) [
    | inl (e, unknown_id) ↦ (ground arith, inl (ground arith))
    | inr (u, named) ↦ elim (Option-cases (job s u)) [
      | inl missing ↦ (ground arith, inl (ground arith))
      | inr (j, found) ↦ elim (Option-cases (validate_job_not_running j)) [
        | inl valid ↦ (ground arith, inr (u, ground arith))
        | inr (e, invalid) ↦ (ground arith, inl (ground arith))
      ]
    ]
  ]
]

pub logs-cases :
    (persist : String → Option Bool) (s : JobStore) (id : String)
    → ((delete_job_logs persist s id).0.jobs ≡ s.jobs)
      × (((delete_job_logs persist s id).0.tasks ≡ s.tasks)
          ⊎ ((u : String) × ((delete_job_logs persist s id).0.tasks ≡ Map.remove s.tasks u)))
unfolding delete_job_logs complete_task_cleanup
logs-cases persist s id = elim (Bool-cases s.closed) [
  | inl shut ↦ (ground arith, inl (ground arith))
  | inr running ↦ elim (Result-cases (resolve_job_uuid s id)) [
    | inl (e, unknown_id) ↦ (ground arith, inl (ground arith))
    | inr (u, named) ↦ elim (Option-cases (Map.get s.tasks u)) [
      | inl missing ↦ (ground arith, inl (ground arith))
      | inr (t, found) ↦ (ground arith, inr (u, ground arith))
    ]
  ]
]
