-- ===== src/StateStore/Tests.antt =====
-- Two jobs under the calls of state/internal/storage/memory.go.
use joblet.Prelude.{◌≡◌, none, some, [], ◌∷◌, List, false, ok, err, String}
use joblet.Prelude.Int.{pos}
use joblet.Prelude.Map
use joblet.Jobs.Domain.{Job}
use joblet.Jobs.Tests.{job_of}
use joblet.StateStore.{Filter, get, job_not_found, list}
use joblet.StateStore.Table.{
  Call, call, calls, call_create, call_update, call_delete, expected, expected_all, calls-Refines,
}
use joblet.StateStore.Listing.{IsListing, list-IsListing}

abbrev a_job : Job
a_job = job_of "a" "RUNNING"

abbrev b_job : Job
b_job = job_of "b" "COMPLETED"

abbrev history : List Call
history =
    call_create (pos 7) a_job
    ∷ call_create (pos 8) b_job
    ∷ call_update (job_of "a" "FAILED")
    ∷ call_delete "c"
    ∷ []

calls-Refines_example :
    ((u : String)
      → get (calls Map.empty history) u
        ≡ (elim (expected_all (λ u. none) history u) [ none ↦ err job_not_found | some j ↦ ok j ]))
    × ((c : Call)
        → (call (calls Map.empty history) c).1 ≡ (expected (expected_all (λ u. none) history) c).1)
calls-Refines_example = calls-Refines history

abbrev one_failed : Filter
one_failed = record {
  status = "";
  node_id = "n1";
  limit = pos 1;
  sort_by = "startTime";
  sort_desc = false;
  statuses = "FAILED" ∷ "COMPLETED" ∷ [];
}

list-IsListing_example :
    IsListing
      (calls Map.empty history)
      one_failed
      (list (calls Map.empty history) (some one_failed))
list-IsListing_example = list-IsListing (calls Map.empty history) one_failed
