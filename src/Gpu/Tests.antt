-- ===== src/Gpu/Tests.antt =====
-- A pool of three GPUs under the calls of internal/joblet/gpu/manager.go.
use joblet.Prelude.{ℕ, ◌≡◌, refl, true, false, String, Option, none, some, List, [], ◌∷◌, arith}
use joblet.Prelude.Int.{ℤ, pos}
use joblet.Prelude.Map
use joblet.Gpu.{
  Manager, new_manager, initialize, allocate, allocate_locked, allocate_new, candidates, commit,
  write_indices, release, release_allocation, scrub_on_release, verify_each, verify_clean,
}
use joblet.Gpu.Device.{Gpu, GpuAllocation, find, modify, modify_all, no_reason, isolate, residual}
use joblet.Gpu.Selection.{pack, choose, select}
use joblet.Prelude.Sort.{insert_by, sort_slice}
use joblet.Gpu.Allocation.{Answer, allocate-Answer}
use joblet.Gpu.History.{run-initialize-Owned, run, allocates, releases, clears, Call}
use joblet.Gpu.Ownership.{Owned}
use joblet.Gpu.Scrub.{IsScrubbed}
use joblet.Gpu.Release.{release-scrubs, release-allocate, IsTidy}

abbrev gpu : ℕ → ℕ → Gpu
gpu i mb = record {
  index = i;
  uuid = "GPU";
  name = "A100";
  memory_mb = pos mb;
  in_use = false;
  job_uuid = "";
  allocated_at = none;
  is_mig = false;
  mig_uuid = "";
  cap_minors = [];
  quarantined = false;
  quarantine_reason = no_reason;
}

abbrev three : List Gpu
three = gpu 0 40960 ∷ gpu 1 81920 ∷ gpu 2 81920 ∷ []

abbrev pool : String → Manager
pool policy = record {
  enabled = true;
  gpus = three;
  allocations = [];
  strategy = pack;
  scrub_policy = policy;
}

-- Every GPU has 500 MB left in use after a reset.
abbrev residue : ℕ → Option ℤ
residue i = some (pos 500)

abbrev calls : List Call
calls =
    allocates "job-a" (pos 2) (pos 50000) 10
    ∷ allocates "job-b" (pos 1) (pos 0) 11
    ∷ releases "job-a" residue
    ∷ clears 1
    ∷ []

abbrev granted_two : Manager
granted_two = (allocate (pool "lenient") "job-a" (pos 2) (pos 50000) 10).0

abbrev two_gpus : GpuAllocation
two_gpus = record {
  job_uuid = "job-a";
  gpu_indices = 1 ∷ 2 ∷ [];
  mig_uuids = [];
  gpu_count = 2;
  gpu_memory_mb = pos 50000;
  allocated_at = 10;
}

abbrev granted_strict : Manager
granted_strict = (allocate (pool "strict") "job-a" (pos 2) (pos 50000) 10).0

run-initialize-Owned_example :
    Owned (run (initialize (new_manager true "pack" "strict") (some three)).0 calls)
run-initialize-Owned_example =
    run-initialize-Owned true "pack" "strict" three calls (refl, (refl, (refl, tt)))

allocate-Answer_example :
    Answer
      (pool "strict")
      "job-a"
      (pos 2)
      (pos 50000)
      10
      (allocate (pool "strict") "job-a" (pos 2) (pos 50000) 10)
allocate-Answer_example =
    allocate-Answer (pool "strict") "job-a" (pos 2) (pos 50000) 10 (refl, (refl, (refl, tt)))

three-IsTidy : IsTidy (pool "lenient")
unfolding find
three-IsTidy i g e h = ground arith

release-allocate_example :
    ((i : ℕ) → find (release granted_two "job-a" residue).gpus i ≡ find three i)
    × ((j : String) → Map.get (release granted_two "job-a" residue).allocations j ≡ none)
unfolding allocate allocate_locked allocate_new candidates commit write_indices sort_slice insert_by
    choose select modify modify_all Map.get
release-allocate_example =
    release-allocate (pool "lenient") granted_two "job-a" 1 (pos 50000) 10 two_gpus residue
      (refl, (refl, (refl, tt))) three-IsTidy refl refl refl

abbrev quarantined_gpu : Gpu
quarantined_gpu = isolate (residual (pos 500)) (gpu 1 81920)

release-scrubs_example :
    (quarantined_gpu.in_use ≡ false)
    × (quarantined_gpu.job_uuid ≡ "")
    × IsScrubbed residue 1 quarantined_gpu
unfolding allocate allocate_locked allocate_new candidates commit write_indices sort_slice insert_by
    choose select modify modify_all Map.get Map.put release release_allocation scrub_on_release
    verify_each verify_clean find
release-scrubs_example =
    release-scrubs granted_strict "job-a" residue two_gpus 1 quarantined_gpu refl refl refl refl
      refl
