-- ===== src/StateStore/Table.antt =====
-- The backend of state/internal/storage/memory.go as a table from UUIDs to jobs.
use joblet.Prelude.{
  ◌≡◌, inl, inr, refl, sym, ap, ◌∙◌, arith, String, Option, none, some, List, [], ◌∷◌, ok, err,
  str_eq, Option-cases, if◌then◌else◌,
}
use joblet.Prelude.Int.{ℤ}
use joblet.Prelude.Map
use joblet.Jobs.Domain.{Job}
use joblet.StateStore.{
  Backend, StateError, job_already_exists, job_not_found, with_start, create, get, update, delete,
  put_each, sync,
}

-- A call that may change the backend
pub data Call : Type 0 where
  call_create : ℤ → Job → Call
  call_update : Job → Call
  call_delete : String → Call
  call_sync : List Job → Call

unfoldable pub call : Backend → Call → Backend × Option StateError
call m (call_create now j) = create now m j
call m (call_update j) = update m j
call m (call_delete id) = delete m id
call m (call_sync js) = (sync js, none)

unfoldable pub calls : Backend → List Call → Backend
calls m [] = m
calls m (c ∷ cs) = calls (call m c).0 cs

-- What the calls promise: a table that is a function of the UUID
abbrev pub Table : Type 0
Table = String → Option Job

abbrev pub write : Table → String → Option Job → Table
write t id o = λ u. if str_eq id u then o else t u

abbrev pub write_each : Table → List Job → Table
write_each t [] = t
write_each t (j ∷ js) = write_each (write t j.uuid (some j)) js

-- A new entry where there is none, one in place of another, and no entry any more
abbrev pub expected : Table → Call → Table × Option StateError
expected t (call_create now j) = elim (t j.uuid) [
  | none ↦ (write t j.uuid (some (with_start now j)), none)
  | some _ ↦ (t, some job_already_exists)
]
expected t (call_update j) = elim (t j.uuid) [
  | none ↦ (t, some job_not_found)
  | some _ ↦ (write t j.uuid (some j), none)
]
expected t (call_delete id) = elim (t id) [
  | none ↦ (t, some job_not_found)
  | some _ ↦ (write t id none, none)
]
expected t (call_sync js) = (write_each (λ u. none) js, none)

abbrev pub expected_all : Table → List Call → Table
expected_all t [] = t
expected_all t (c ∷ cs) = expected_all (expected t c).0 cs

-- The backend holds what the table says.
abbrev pub Refines : Backend → Table → Type 0
Refines m t = (u : String) → Map.get m u ≡ t u

put-Refines :
    (m : Backend) (t : Table) (id : String) (j : Job)
    → Refines m t
    → Refines (Map.put m id j) (write t id (some j))
put-Refines m t id j r u = ground (arith, Map.get-put m id u j, r u)

each-Refines :
    (m : Backend) (t : Table) (js : List Job)
    → Refines m t
    → Refines (put_each m js) (write_each t js)
unfolding put_each
each-Refines m t [] r = r
each-Refines m t (j ∷ js) r =
    each-Refines (Map.put m j.uuid j) (write t j.uuid (some j)) js (put-Refines m t j.uuid j r)

-- One call
call-Refines :
    (m : Backend) (t : Table) (c : Call)
    → Refines m t
    → Refines (call m c).0 (expected t c).0 × ((call m c).1 ≡ (expected t c).1)
unfolding call create update delete sync
call-Refines m t (call_create now j) r = elim (Option-cases (Map.get m j.uuid)) [
  | inl e ↦
      let f = sym (r j.uuid) ∙ e in
      (
        λ u. ground (arith, e, f, Map.get-put m j.uuid u (with_start now j), r u),
        ground (arith, e, f),
      )
  | inr (i, e) ↦
      let f = sym (r j.uuid) ∙ e in (λ u. ground (arith, e, f, r u), ground (arith, e, f))
]
call-Refines m t (call_update j) r = elim (Option-cases (Map.get m j.uuid)) [
  | inl e ↦ let f = sym (r j.uuid) ∙ e in (λ u. ground (arith, e, f, r u), ground (arith, e, f))
  | inr (i, e) ↦
      let f = sym (r j.uuid) ∙ e in
      (λ u. ground (arith, e, f, Map.get-put m j.uuid u j, r u), ground (arith, e, f))
]
call-Refines m t (call_delete id) r = elim (Option-cases (Map.get m id)) [
  | inl e ↦ let f = sym (r id) ∙ e in (λ u. ground (arith, e, f, r u), ground (arith, e, f))
  | inr (i, e) ↦
      let f = sym (r id) ∙ e in
      (λ u. ground (arith, e, f, Map.get-remove m id u, r u), ground (arith, e, f))
]
call-Refines m t (call_sync js) r =
    (each-Refines Map.empty (λ u. none) js (Map.get_nil {V = Job}), refl)

calls-Refines_from :
    (cs : List Call) (m : Backend) (t : Table)
    → Refines m t
    → Refines (calls m cs) (expected_all t cs)
unfolding calls
calls-Refines_from [] m t r = r
calls-Refines_from (c ∷ cs) m t r =
    calls-Refines_from cs (call m c).0 (expected t c).0 (call-Refines m t c r).0

-- After any calls of Create, Update, Delete and Sync on a new backend, it holds for each UUID what a table
-- holds on which Create enters a job that is not there, Update writes over one that is, Delete strikes one
-- out and Sync starts afresh; the answer of a further call is the table's, and Get answers the entry.
pub calls-Refines :
    (cs : List Call)
    → ((u : String)
        → get (calls Map.empty cs) u
          ≡ (elim (expected_all (λ u. none) cs u) [ none ↦ err job_not_found | some j ↦ ok j ]))
      × ((c : Call)
          → (call (calls Map.empty cs) c).1 ≡ (expected (expected_all (λ u. none) cs) c).1)
unfolding get
calls-Refines cs =
    let r = calls-Refines_from cs Map.empty (λ u. none) (Map.get_nil {V = Job}) in
    (
      λ u. ap (λ (o : Option Job). elim o [ none ↦ err job_not_found | some j ↦ ok j ]) (r u),
      λ c. (call-Refines _ _ c r).1,
    )
