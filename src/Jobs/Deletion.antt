-- ===== src/Jobs/Deletion.antt =====
-- Deleting jobs: DeleteJob of internal/joblet/adapters/job_store_adapter.go, and what an UpdateJob
-- after it does.
use joblet.Prelude.{
  ◌≡◌, refl, sym, ◌∙◌, ap, Bool, true, false, ◌||◌, String, Option, none, some, [], ◌∷◌, ◌++◌, ok,
  arith, str_eq, str_eq_refl, Bool-cases, Option-cases, inl, inr, if◌then◌else◌, ◌⊎◌, if_true,
  if_false, subst,
}
use joblet.Prelude.Map
use joblet.Jobs.Domain.{Job, deep_copy, status_running, status_initializing}
use joblet.Jobs.{
  JobStore, JobError, job_is_running, resolve_uuid_by_prefix, resolve_job_uuid, delete_job,
  validate_job_not_running, job, output, update_job, deleted, state_delete, send,
}
use joblet.Jobs.Output.{output-same}

-- Is the job one that DeleteJob refuses?
unfoldable pub is_busy : Job → Bool
is_busy j = str_eq j.status status_running || str_eq j.status status_initializing

validate-deep_copy :
    (j : Job)
    → validate_job_not_running (deep_copy j) ≡ (if is_busy j then some job_is_running else none)
unfolding validate_job_not_running is_busy deep_copy
validate-deep_copy j = refl

job-open :
    (s : JobStore) (u : String) (j : Job)
    → s.closed ≡ false
    → Map.get s.jobs u ≡ some j
    → job s u ≡ some (deep_copy j)
unfolding job
job-open s u j o found = ground arith

-- The store after the removal of a job
unfoldable pub without : JobStore → String → JobStore
without s u = record s {
  jobs = Map.remove s.jobs u;
  published = s.published ++ (deleted u ∷ []);
  state_calls = send s (state_delete u);
}

-- DeleteJob of a job that exists, by whether it is busy
pub delete_job-found :
    (s : JobStore) (id u : String) (j : Job)
    → s.closed ≡ false
    → resolve_uuid_by_prefix s id ≡ ok u
    → Map.get s.jobs u ≡ some j
    → delete_job s id ≡ (if is_busy j then (s, some job_is_running) else (without s u, none))
unfolding delete_job resolve_job_uuid without
delete_job-found s id u j o named found =
    let copied = job-open s u j o found in
    let valid = validate-deep_copy j in
    elim (Bool-cases (is_busy j)) [
      | inl busy ↦
          let refused : validate_job_not_running (deep_copy j) ≡ some job_is_running =
            valid ∙ if_true _ _ busy in
          ground arith
      | inr idle ↦
          let passed : validate_job_not_running (deep_copy j) ≡ none = valid ∙ if_false _ _ idle in
          ground arith
    ]

without-tasks : (s : JobStore) (u : String) → (without s u).tasks ≡ s.tasks
unfolding without
without-tasks s u = refl

without-closed : (s : JobStore) (u : String) → (without s u).closed ≡ s.closed
unfolding without
without-closed s u = refl

without-logs : (s : JobStore) (u : String) → (without s u).log_mgr ≡ s.log_mgr
unfolding without
without-logs s u = refl

-- DeleteJob succeeds only by removing the job its identifier stands for.
delete_job-removes :
    (s s' : JobStore) (id u : String)
    → resolve_uuid_by_prefix s id ≡ ok u
    → delete_job s id ≡ (s', none)
    → (s.closed ≡ false) × (s' ≡ without s u)
unfolding delete_job resolve_job_uuid without
delete_job-removes s s' id u named done = elim (Bool-cases s.closed) [
  | inl shut ↦ absurd (ground arith)
  | inr running ↦ elim (Option-cases (job s u)) [
    | inl missing ↦ absurd (ground arith)
    | inr (j, found) ↦ elim (Option-cases (validate_job_not_running j)) [
      | inl valid ↦ (running, ground arith)
      | inr (e, invalid) ↦ absurd (ground arith)
    ]
  ]
]

job-update_job :
    (s : JobStore) (j t : Job)
    → s.closed ≡ false
    → Map.get s.tasks j.uuid ≡ some t
    → job (update_job s j) j.uuid ≡ some (deep_copy j)
unfolding job update_job
job-update_job s j t o task = ground (arith, Map.get-put s.jobs j.uuid j.uuid j, str_eq_refl j.uuid)

job-without :
    (s : JobStore) (u k : String) → job (without s u) k ≡ (if str_eq u k then none else job s k)
unfolding job without
job-without s u k = ground (arith, Map.get-remove s.jobs u k)

-- On an open store, DeleteJob for an identifier of an existing job u: a running or initializing job
-- is refused and the store stays; any other is gone afterwards, every other job stays, and the
-- output of every identifier is still what it was, unlike the documentation says.
pub delete_job-Answer :
    (s : JobStore) (id u : String) (j : Job)
    → s.closed ≡ false
    → resolve_uuid_by_prefix s id ≡ ok u
    → Map.get s.jobs u ≡ some j
    → (is_busy j ≡ true) × (delete_job s id ≡ (s, some job_is_running))
      ⊎ (is_busy j ≡ false)
        × ((delete_job s id).1 ≡ none)
        × ((k : String) → job (delete_job s id).0 k ≡ (if str_eq u k then none else job s k))
        × ((other : String) → output (delete_job s id).0 other ≡ output s other)
delete_job-Answer s id u j o named found =
    let answer = delete_job-found s id u j o named found in
    elim (Bool-cases (is_busy j)) [
      | inl busy ↦ inl (busy, answer ∙ if_true _ _ busy)
      | inr idle ↦
          let gone : delete_job s id ≡ (without s u, none) = answer ∙ if_false _ _ idle in
          inr (
            idle,
            ap (λ (r : JobStore × Option JobError). r.1) gone,
            λ k. ap (λ (r : JobStore × Option JobError). job r.0 k) gone ∙ job-without s u k,
            λ other.
                ap (λ (r : JobStore × Option JobError). output r.0 other) gone
                ∙ output-same s (without s u) other (without-tasks s u) (without-logs s u),
          )
    ]

-- A job that DeleteJob removed is back after an UpdateJob for it, as the call of a process monitor
-- makes when the job's process ends.
pub update_job-delete_job :
    (s s' : JobStore) (id u : String) (j t : Job)
    → resolve_uuid_by_prefix s id ≡ ok u
    → delete_job s id ≡ (s', none)
    → Map.get s.tasks u ≡ some t
    → j.uuid ≡ u
    → (job s' u ≡ none) × (job (update_job s' j) u ≡ some (deep_copy j))
update_job-delete_job s s' id u j t named done task same =
    let (running, gone) = delete_job-removes s s' id u named done in
    (
      ap (λ (x : JobStore). job x u) gone ∙ job-without s u u ∙ if_true _ _ (str_eq_refl u),
      subst (λ (x : JobStore). job (update_job x j) u ≡ some (deep_copy j)) (sym gone)
          (subst (λ (k : String). job (update_job (without s u) j) k ≡ some (deep_copy j)) same
            (job-update_job (without s u) j t (without-closed s u ∙ running) (
              ap (λ (m : Map.Map Job). Map.get m j.uuid) (without-tasks s u)
              ∙ ap (Map.get s.tasks) same
              ∙ task))),
    )
