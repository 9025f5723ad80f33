-- ===== src/Jobs/Consistency.antt =====
-- The job store of internal/joblet/adapters/job_store_adapter.go keeps its two tables in step.
use joblet.Prelude.{
  ◌≡◌, refl, sym, ◌∙◌, ap, Bool, String, Option, none, some, List, [], ◌∷◌, arith, str_eq, eq_iff,
  Bool-cases, inl, inr, if◌then◌else◌, ◌⊎◌, subst, if_true, if_false,
}
use joblet.Prelude.Map
use joblet.Jobs.Domain.{Job, deep_copy}
use joblet.Jobs.Logs.{Chunk}
use joblet.Jobs.{
  JobStore, JobError, new_store, delete_job, update_job, create_new_job, write_to_buffer,
  delete_job_logs, restore, restore_job, sync_from_persistent_state, close,
}
use joblet.Jobs.Effects.{create-cases, update-cases, write-same, delete-cases, logs-cases}

-- Every stored job stands under its own UUID, and its task, where it has one, holds a copy of it.
abbrev pub IsConsistent : JobStore → Type 0
IsConsistent s =
    (k : String) (j : Job)
    → Map.get s.jobs k ≡ some j
    → (j.uuid ≡ k) × ((t : Job) → Map.get s.tasks k ≡ some t → t ≡ deep_copy j)

-- The calls that change the store
pub data Step (s : JobStore) : JobStore → Type 0 where
  creates : (j : Job) → Step s (create_new_job s j)
  updates : (j : Job) → Step s (update_job s j)
  writes : (id : String) (c : Chunk) → Step s (write_to_buffer s id c)
  deletes : (id : String) → Step s (delete_job s id).0
  deletes_logs :
      (persist : String → Option Bool) (id : String) → Step s (delete_job_logs persist s id).0
  syncs : (listed : Option (List Job)) → Step s (sync_from_persistent_state listed s).0
  closes : Step s (close s)

pub data Reach (state persist : Bool) : JobStore → Type 0 where
  start : Reach state persist (new_store state persist)
  next : {s t : JobStore} → Reach state persist s → Step s t → Reach state persist t

same_tables :
    (s t : JobStore) → t.jobs ≡ s.jobs → t.tasks ≡ s.tasks → IsConsistent s → IsConsistent t
same_tables s t a b v k j e =
    let (own, copy) = v k j (ap (λ (m : Map.Map Job). Map.get m k) (sym a) ∙ e) in
    (own, λ t' f. copy t' (ap (λ (m : Map.Map Job). Map.get m k) (sym b) ∙ f))

-- Storing a job in both tables
put-IsConsistent :
    (s t : JobStore) (j : Job)
    → t.jobs ≡ Map.put s.jobs j.uuid j
    → t.tasks ≡ Map.put s.tasks j.uuid (deep_copy j)
    → IsConsistent s
    → IsConsistent t
put-IsConsistent s t j a b v k i e = elim (Bool-cases (str_eq j.uuid k)) [
  | inl own ↦
      let same : j ≡ i = ground (arith, read) in
      (
        ap (λ (x : Job). x.uuid) (sym same) ∙ (eq_iff j.uuid k).0 own,
        λ t' f. ground (arith, read_task t' f),
      )
  | inr other ↦
      let (named, copy) = v k i (ground (arith, read)) in
      (named, λ t' f. copy t' (ground (arith, read_task t' f)))
]
  where
    read : (if str_eq j.uuid k then some j else Map.get s.jobs k) ≡ some i
    read = sym (Map.get-put s.jobs j.uuid k j) ∙ ap (λ (m : Map.Map Job). Map.get m k) (sym a) ∙ e

    read_task :
        (t' : Job)
        → Map.get t.tasks k ≡ some t'
        → (if str_eq j.uuid k then some (deep_copy j) else Map.get s.tasks k) ≡ some t'
    read_task t' f =
        sym (Map.get-put s.tasks j.uuid k (deep_copy j))
        ∙ ap (λ (m : Map.Map Job). Map.get m k) (sym b)
        ∙ f

-- Dropping entries of either table
removed-IsConsistent :
    (s t : JobStore) (u : String)
    → (t.jobs ≡ s.jobs) ⊎ (t.jobs ≡ Map.remove s.jobs u)
    → (t.tasks ≡ s.tasks) ⊎ (t.tasks ≡ Map.remove s.tasks u)
    → IsConsistent s
    → IsConsistent t
removed-IsConsistent s t u a b v k j e =
    let (own, copy) = v k j (kept s.jobs t.jobs a k j e) in
    (own, λ t' f. copy t' (kept s.tasks t.tasks b k t' f))
  where
    kept :
        (m n : Map.Map Job)
        → (n ≡ m) ⊎ (n ≡ Map.remove m u)
        → (k : String) (x : Job) → Map.get n k ≡ some x
        → Map.get m k ≡ some x
    kept m n (inl same) k x h = ap (λ (y : Map.Map Job). Map.get y k) (sym same) ∙ h
    kept m n (inr gone) k x h =
        ground (arith, Map.get-remove m u k, ap (λ (y : Map.Map Job). Map.get y k) gone)

restore-IsConsistent : (s : JobStore) (js : List Job) → IsConsistent s → IsConsistent (restore s js)
unfolding restore restore_job
restore-IsConsistent s [] v = v
restore-IsConsistent s (j ∷ js) v =
    restore-IsConsistent (restore_job s j) js (put-IsConsistent s (restore_job s j) j refl refl v)

sync-IsConsistent :
    (s : JobStore) (listed : Option (List Job))
    → IsConsistent s
    → IsConsistent (sync_from_persistent_state listed s).0
unfolding sync_from_persistent_state
sync-IsConsistent s none v = elim (Bool-cases s.has_state_client) [
  | inl on ↦
      subst IsConsistent (sym (ap (λ (r : JobStore × Option JobError). r.0) (if_true _ _ on))) v
  | inr off ↦
      subst IsConsistent (sym (ap (λ (r : JobStore × Option JobError). r.0) (if_false _ _ off))) v
]
sync-IsConsistent s (some js) v = elim (Bool-cases s.has_state_client) [
  | inl on ↦
      subst IsConsistent (sym (ap (λ (r : JobStore × Option JobError). r.0) (if_true _ _ on)))
        (restore-IsConsistent s js v)
  | inr off ↦
      subst IsConsistent (sym (ap (λ (r : JobStore × Option JobError). r.0) (if_false _ _ off))) v
]

close-IsConsistent : (s : JobStore) → IsConsistent s → IsConsistent (close s)
unfolding close
close-IsConsistent s v = elim (Bool-cases s.closed) [
  | inl shut ↦ subst IsConsistent (sym (if_true _ _ shut)) v
  | inr running ↦
      subst IsConsistent (sym (if_false _ _ running))
        (λ k j e. absurd (ground (arith, Map.get_nil {V = Job} k)))
]

pub Step-IsConsistent : {s t : JobStore} → Step s t → IsConsistent s → IsConsistent t
Step-IsConsistent {s} (creates j) v = elim (create-cases s j) [
  | inl same ↦ subst IsConsistent (sym same) v
  | inr (a, b) ↦ put-IsConsistent s (create_new_job s j) j a b v
]
Step-IsConsistent {s} (updates j) v = elim (update-cases s j) [
  | inl same ↦ subst IsConsistent (sym same) v
  | inr (a, b) ↦ put-IsConsistent s (update_job s j) j a b v
]
Step-IsConsistent {s} (writes id c) v =
    let (a, b) = write-same s id c in same_tables s (write_to_buffer s id c) a b v
Step-IsConsistent {s} (deletes id) v =
    let (b, jobs_after) = delete-cases s id in
    elim jobs_after [
      | inl a ↦ same_tables s (delete_job s id).0 a b v
      | inr (u, a) ↦ removed-IsConsistent s (delete_job s id).0 u (inr a) (inl b) v
    ]
Step-IsConsistent {s} (deletes_logs persist id) v =
    let (a, tasks_after) = logs-cases persist s id in
    elim tasks_after [
      | inl b ↦ same_tables s (delete_job_logs persist s id).0 a b v
      | inr (u, b) ↦ removed-IsConsistent s (delete_job_logs persist s id).0 u (inl a) (inr b) v
    ]
Step-IsConsistent {s} (syncs listed) v = sync-IsConsistent s listed v
Step-IsConsistent {s} closes v = close-IsConsistent s v

pub Reach-IsConsistent :
    (state persist : Bool) {s : JobStore} → Reach state persist s → IsConsistent s
unfolding new_store
Reach-IsConsistent state persist start = λ k j e. absurd (ground (arith, Map.get_nil {V = Job} k))
Reach-IsConsistent state persist (next r st) =
    Step-IsConsistent st (Reach-IsConsistent state persist r)
