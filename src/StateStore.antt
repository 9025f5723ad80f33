-- ===== src/StateStore.antt =====
-- The in-memory storage of the state service: state/internal/storage/memory.go and the filter of
-- interface.go. The service keeps a job as the value handed in. Closing and the health check, which do
-- nothing, are left out.
pub mod Table
pub mod Listing
pub mod Tests
use Prim.Native.String.{compare}
use Prim.Native.Nat.{Ordering}
use joblet.Prelude.{
  ℕ, Bool, true, false, ◌&&◌, ◌||◌, not, String, Option, none, some, List, [], ◌∷◌, Result, ok, err,
  keep, take, length, ltb, str_eq, if◌then◌else◌,
}
use joblet.Prelude.Int.{ℤ, pos, negsuc, ltb_ℤ}
use joblet.Prelude.Map.{Map}
use joblet.Prelude.Map
use joblet.Prelude.Sort.{sort_slice}
use joblet.Jobs.Domain.{Job}

pub data StateError : Type 0 where
  job_already_exists : StateError
  job_not_found : StateError

-- memoryBackend
abbrev pub Backend : Type 0
Backend = Map Job

-- Filter
pub record Filter : Type 0 where
  pub status : String
  pub node_id : String
  pub limit : ℤ
  pub sort_by : String
  pub sort_desc : Bool
  pub statuses : List String

-- Go's zero time, the first of January of the year 1, in nanoseconds from 1970
abbrev pub zero_time : ℤ
zero_time = negsuc 62135596799999999999

-- IsZero
abbrev pub is_zero : ℤ → Bool
is_zero t = not (ltb_ℤ t zero_time) && not (ltb_ℤ zero_time t)

-- The copy that Create stores
unfoldable pub with_start : ℤ → Job → Job
with_start now j = record j { start_time = if is_zero j.start_time then now else j.start_time }

-- Create
unfoldable pub create : ℤ → Backend → Job → Backend × Option StateError
create now m j = elim (Map.get m j.uuid) [
  | some _ ↦ (m, some job_already_exists)
  | none ↦ (Map.put m j.uuid (with_start now j), none)
]

-- Get
unfoldable pub get : Backend → String → Result StateError Job
get m id = elim (Map.get m id) [ none ↦ err job_not_found | some j ↦ ok j ]

-- Update
unfoldable pub update : Backend → Job → Backend × Option StateError
update m j = elim (Map.get m j.uuid) [
  | none ↦ (m, some job_not_found)
  | some _ ↦ (Map.put m j.uuid j, none)
]

-- Delete
unfoldable pub delete : Backend → String → Backend × Option StateError
delete m id = elim (Map.get m id) [
  | none ↦ (m, some job_not_found)
  | some _ ↦ (Map.remove m id, none)
]

-- Is the text in the list?
unfoldable pub one_of : List String → String → Bool
one_of [] s = false
one_of (x ∷ xs) s = str_eq s x || one_of xs s

-- matchesFilter; none is the nil filter.
unfoldable pub matches_filter : Option Filter → Job → Bool
matches_filter none j = true
matches_filter (some f) j =
    let by_status : Bool = elim f.statuses [
      | [] ↦ str_eq f.status "" || str_eq j.status f.status
      | _ ∷ _ ↦ one_of f.statuses j.status
    ] in
    by_status && (str_eq f.node_id "" || str_eq j.node_id f.node_id)

-- The comparison of sortJobs before the order is turned round
unfoldable pub less_by : String → Job → Job → Bool
less_by key a b =
    if str_eq key "status"
    then elim (compare a.status b.status) [ Ordering.lt ↦ true | _ ↦ false ]
    else ltb_ℤ a.start_time b.start_time

-- sortJobs
unfoldable pub sort_jobs : String → Bool → List Job → List Job
sort_jobs key desc js =
    sort_slice (λ a b. if desc then not (less_by key a b) else less_by key a b) js

-- The limit of List: 0 and less is none.
unfoldable pub cut : ℤ → List Job → List Job
cut (pos n) js = if ltb 0 n && ltb n (length js) then take n js else js
cut (negsuc n) js = js

-- List
unfoldable pub list : Backend → Option Filter → List Job
list m none = Map.values m
list m (some f) =
    let found = keep (matches_filter (some f)) (Map.values m) in
    cut f.limit (if str_eq f.sort_by "" then found else sort_jobs f.sort_by f.sort_desc found)

-- The loop of Sync
unfoldable pub put_each : Backend → List Job → Backend
put_each m [] = m
put_each m (j ∷ js) = put_each (Map.put m j.uuid j) js

-- Sync
unfoldable pub sync : List Job → Backend
sync js = put_each Map.empty js
