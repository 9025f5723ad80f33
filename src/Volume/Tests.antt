-- ===== src/Volume/Tests.antt =====
-- One volume under the calls of internal/joblet/adapters/volume_store_adapter.go.
use joblet.Prelude.{◌≡◌, none, some, List, [], ◌∷◌}
use joblet.Prelude.Int.{pos}
use joblet.Volume.Kinds.{Volume, memory}
use joblet.Volume.{new_store}
use joblet.Volume.Tracking.{Call, creates, removes, increments, run}
use joblet.Volume.Usage.{usage, expected_run, usage-run}

abbrev scratch : Volume
scratch = record {
  name = "scratch";
  type = memory;
  size = "1GB";
  size_bytes = pos 1073741824;
  path = "";
  created_time = 0;
  job_count = pos 0;
}

-- The volume is created a second time while a job uses it, and can then be removed.
abbrev calls : List Call
calls =
    creates 1 (some scratch)
    ∷ increments "scratch"
    ∷ creates 2 (some scratch)
    ∷ removes "scratch"
    ∷ []

usage-run_example : usage (run calls new_store) "scratch" ≡ expected_run calls "scratch" none
usage-run_example = usage-run calls "scratch"
