-- ===== src/Jobs/Output.antt =====
-- Reading a job's output after a write: WriteToBuffer and Output of
-- internal/joblet/adapters/job_store_adapter.go.
use joblet.Prelude.{
  ℕ, ◌≡◌, refl, sym, ◌∙◌, ap, Bool, String, none, some, [], ◌∷◌, ◌++◌, Result, ok, err, arith,
  str_eq_refl, Bool-cases, Option-cases, inl, inr, if◌then◌else◌, if_true, if_false, len,
  starts_with, keep, ◌==◌,
}
use joblet.Prelude.Map
use joblet.Jobs.Logs.{Chunk, LogBuffer, LogManager, write, get_buffer}
use joblet.Jobs.{
  JobStore, JobError, job_not_found, resolve_uuid_by_prefix, write_to_buffer, write_to_task, output,
  join, only_uuid, keys,
}
use joblet.Jobs.Domain.{Job, is_running}

append_nil : (c : Chunk) → c ++ [] ≡ c
append_nil [] = refl
append_nil (x ∷ c) = ap (λ (t : Chunk). x ∷ t) (append_nil c)

append_assoc : (a b c : Chunk) → (a ++ b) ++ c ≡ a ++ (b ++ c)
append_assoc [] b c = refl
append_assoc (x ∷ a) b c = ap (λ (t : Chunk). x ∷ t) (append_assoc a b c)

join-write : (b : LogBuffer) (c : Chunk) → join (write b c) ≡ join b ++ c
unfolding join write
join-write [] c = append_nil c
join-write (x ∷ b) c = ap (λ (t : Chunk). x ++ t) (join-write b c) ∙ sym (append_assoc x (join b) c)

-- What Output reads for a UUID
read_task : JobStore → String → Result JobError (Chunk × Bool)
read_task s u = elim (Map.get s.tasks u) [
  | none ↦ err job_not_found
  | some task ↦ ok (join (get_buffer s.log_mgr u).1, is_running task)
]

get_buffer-put :
    (m : Map.Map LogBuffer) (u : String) (b : LogBuffer) → (get_buffer (Map.put m u b) u).1 ≡ b
unfolding get_buffer
get_buffer-put m u b = ground (arith, Map.get-put m u u b, str_eq_refl u)

write_to_task-tasks :
    (s : JobStore) (u : String) (c : Chunk) → (write_to_task s u c).tasks ≡ s.tasks
unfolding write_to_task
write_to_task-tasks s u c = ground arith

write_to_task-logs :
    (s : JobStore) (u : String) (c : Chunk) (t : Job)
    → Map.get s.tasks u ≡ some t
    → (write_to_task s u c).log_mgr ≡ (
        if s.persist_enabled
        then Map.put s.log_mgr u (write (get_buffer s.log_mgr u).1 c)
        else s.log_mgr)
unfolding write_to_task
write_to_task-logs s u c t e = ground arith

resolve-tasks :
    (s t : JobStore) (id : String)
    → t.tasks ≡ s.tasks
    → resolve_uuid_by_prefix t id ≡ resolve_uuid_by_prefix s id
unfolding resolve_uuid_by_prefix
resolve-tasks s t id e =
    ap
      (λ (m : Map.Map Job).
        if len id == 36 then ok id else only_uuid (keep (λ u. starts_with u id) (keys m)))
      e

output-read_task :
    (s : JobStore) (id u : String)
    → resolve_uuid_by_prefix s id ≡ ok u
    → output s id ≡ read_task s u
unfolding output read_task
output-read_task s id u e = ground arith

read_task-write_to_task :
    (s : JobStore) (u : String) (c bytes : Chunk) (running : Bool)
    → read_task s u ≡ ok (bytes, running)
    → read_task (write_to_task s u c) u
      ≡ ok (if s.persist_enabled then bytes ++ c else bytes, running)
unfolding read_task
read_task-write_to_task s u c bytes running e = elim (Option-cases (Map.get s.tasks u)) [
  | inl missing ↦ absurd (ground arith)
  | inr (t, found) ↦
      let kept : Map.get (write_to_task s u c).tasks u ≡ some t =
        ap (λ (m : Map.Map Job). Map.get m u) (write_to_task-tasks s u c) ∙ found in
      let logs = write_to_task-logs s u c t found in
      elim (Bool-cases s.persist_enabled) [
        | inl on ↦
            let here : (get_buffer (write_to_task s u c).log_mgr u).1
                ≡ write (get_buffer s.log_mgr u).1 c =
              ap (λ (m : Map.Map LogBuffer). (get_buffer m u).1) (logs ∙ if_true _ _ on)
              ∙ get_buffer-put s.log_mgr u (write (get_buffer s.log_mgr u).1 c) in
            ground (arith, join-write (get_buffer s.log_mgr u).1 c)
        | inr off ↦
            let here : (get_buffer (write_to_task s u c).log_mgr u).1 ≡ (get_buffer s.log_mgr u).1 =
              ap (λ (m : Map.Map LogBuffer). (get_buffer m u).1) (logs ∙ if_false _ _ off) in
            ground arith
      ]
]

write_to_buffer-write_to_task :
    (s : JobStore) (id u : String) (b : ℕ) (c : Chunk)
    → resolve_uuid_by_prefix s id ≡ ok u
    → write_to_buffer s id (b ∷ c) ≡ write_to_task s u (b ∷ c)
unfolding write_to_buffer
write_to_buffer-write_to_task s id u b c e = ground arith

write_to_buffer-nil : (s : JobStore) (id : String) → write_to_buffer s id [] ≡ s
unfolding write_to_buffer
write_to_buffer-nil s id = refl

-- Output reads the tasks and the log buffers only.
pub output-same :
    (s t : JobStore) (id : String)
    → t.tasks ≡ s.tasks
    → t.log_mgr ≡ s.log_mgr
    → output t id ≡ output s id
unfolding output resolve_uuid_by_prefix
output-same s t id e f =
    ap (λ (x : Map.Map Job × LogManager). output (record s { tasks = x.0; log_mgr = x.1 }) id)
      (λ i. (e i, f i))

output-resolves :
    (s : JobStore) (id : String) (r : Chunk × Bool)
    → output s id ≡ ok r
    → (u : String) × (resolve_uuid_by_prefix s id ≡ ok u)
unfolding output
output-resolves s id r e = go (resolve_uuid_by_prefix s id) refl
  where
    go :
        (x : Result JobError String)
        → resolve_uuid_by_prefix s id ≡ x
        → (u : String) × (resolve_uuid_by_prefix s id ≡ ok u)
    go (ok u) f = (u, f)
    go (err x) f = absurd (ground arith)

-- When Output answers for an identifier, full or shortened, then after WriteToBuffer for it Output
-- answers with the chunk appended where logs are persisted, with the same bytes where they are
-- not, and with the same running flag.
pub output-write_to_buffer :
    (s : JobStore) (id : String) (c : Chunk) (bytes : Chunk) (running : Bool)
    → output s id ≡ ok (bytes, running)
    → output (write_to_buffer s id c) id
      ≡ ok (if s.persist_enabled then bytes ++ c else bytes, running)
output-write_to_buffer s id [] bytes running e =
    rw (write_to_buffer-nil s id, append_nil bytes) (ground arith)
output-write_to_buffer s id (b ∷ c) bytes running e =
    let (u, named) = output-resolves s id (bytes, running) e in
    let written = write_to_buffer-write_to_task s id u b c named in
    let still =
      resolve-tasks s (write_to_task s u (b ∷ c)) id (write_to_task-tasks s u (b ∷ c)) ∙ named in
    let before = sym (output-read_task s id u named) ∙ e in
    ap (λ (t : JobStore). output t id) written
    ∙ output-read_task (write_to_task s u (b ∷ c)) id u still
    ∙ read_task-write_to_task s u (b ∷ c) bytes running before
