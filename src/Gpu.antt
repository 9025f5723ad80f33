-- ===== src/Gpu.antt =====
-- internal/joblet/gpu/manager.go: the GPU manager, one call at a time under its mutex.
-- `nvidia-smi` is outside the program: `used` is what it reports of a GPU's memory after a reset,
-- with `none` for an error. The reset's own result is only logged.
pub mod Device
pub mod Selection
pub mod Sorting
pub mod Keys
pub mod Pool
pub mod Allocation
pub mod Scrub
pub mod Ownership
pub mod Release
pub mod History
pub mod Tests
use joblet.Prelude.{
  ℕ, zero, suc, ◌+◌, Bool, true, false, not, ◌&&◌, String, Option, none, some, List, [], ◌∷◌, map,
  Result, ok, err, length, replicate, set, keep, str_eq, if◌then◌else◌,
}
use joblet.Prelude.Int.{ℤ, pos, negsuc, ltb_ℤ}
use joblet.Prelude.Map.{Map}
use joblet.Prelude.Map
use joblet.Prelude.Sort.{sort_slice}
use Device.{
  Gpu, GpuAllocation, QuarantineReason, unverified, residual, find, store, modify, modify_all,
  occupy, vacate, isolate, readmit, indices,
}
use Selection.{
  Strategy, GpuError, disabled, not_found, invalid_count, by_index, strategy_of, select,
}

pub record Manager : Type 0 where
  pub enabled : Bool
  pub gpus : List Gpu
  pub allocations : Map GpuAllocation
  pub strategy : Strategy
  pub scrub_policy : String

-- NewManager, from the fields of GPUConfig
pub new_manager : Bool → String → String → Manager
new_manager enabled strategy scrub_policy = record {
  enabled = enabled;
  gpus = [];
  allocations = [];
  strategy = strategy_of strategy;
  scrub_policy = scrub_policy;
}

pub store_all : List Gpu → List Gpu → List Gpu
store_all gpus [] = gpus
store_all gpus (g ∷ gs) = store_all (store gpus g) gs

-- Initialize; `none` is a failed discovery.
pub initialize : Manager → Option (List Gpu) → Manager × Bool
unfolding store_all
initialize m found = elim found [
  | none ↦ (m, not m.enabled)
  | some gs ↦ (if m.enabled then record m { gpus = store_all m.gpus gs } else m, true)
]

abbrev pub is_free : Gpu → Bool
is_free g = not g.in_use && not g.quarantined

-- The loop's test for a GPU that may serve a request for `need` MB.
abbrev pub is_eligible : ℤ → Gpu → Bool
is_eligible need g = is_free g && not (ltb_ℤ (pos 0) need && ltb_ℤ g.memory_mb need)

-- GetAvailableGPUs
pub available_gpus : Manager → List Gpu
available_gpus m = if m.enabled then keep is_free m.gpus else []

-- The candidates of AllocateGPUs, lowest index first.
pub candidates : List Gpu → ℤ → List Gpu
candidates gpus need = sort_slice by_index (keep (is_eligible need) gpus)

-- allocatedIndices[i] = gpu.Index for each selected GPU, from position i
pub write_indices : ℕ → List Gpu → List ℕ → List ℕ
write_indices i [] slots = slots
write_indices i (g ∷ gs) slots = write_indices (suc i) gs (set slots i g.index)

-- The part of AllocateGPUs that marks the selected GPUs and records the allocation.
pub commit : Manager → String → ℕ → ℤ → ℕ → List Gpu → Manager × GpuAllocation
unfolding write_indices
commit m job n need now selected =
    let allocation : GpuAllocation = record {
      job_uuid = job;
      gpu_indices = write_indices 0 selected (replicate n 0);
      mig_uuids = map (λ g. g.mig_uuid) (keep (λ g. g.is_mig) selected);
      gpu_count = n;
      gpu_memory_mb = need;
      allocated_at = now;
    } in
    (
      record m {
        gpus = modify_all m.gpus (indices selected) (occupy job now);
        allocations = Map.put m.allocations job allocation;
      },
      allocation,
    )

-- AllocateGPUs for a positive count, past the test for an allocation that exists.
pub allocate_new : Manager → String → ℕ → ℤ → ℕ → Manager × Result GpuError GpuAllocation
unfolding candidates commit
allocate_new m job n need now = elim (select m.strategy (candidates m.gpus need) n need) [
  | err e ↦ (m, err e)
  | ok selected ↦ let done = commit m job n need now selected in (done.0, ok done.1)
]

-- AllocateGPUs under the lock, for a positive count.
pub allocate_locked : Manager → String → ℕ → ℤ → ℕ → Manager × Result GpuError GpuAllocation
unfolding allocate_new
allocate_locked m job n need now = elim (Map.get m.allocations job) [
  | some existing ↦ (m, ok existing)
  | none ↦ allocate_new m job n need now
]

-- AllocateGPUs at the time `now`
pub allocate : Manager → String → ℤ → ℤ → ℕ → Manager × Result GpuError GpuAllocation
unfolding allocate_locked
allocate m job (negsuc n) need now =
    (m, err (if m.enabled then invalid_count (negsuc n) else disabled))
allocate m job (pos zero) need now =
    (m, err (if m.enabled then invalid_count (pos 0) else disabled))
allocate m job (pos (suc n)) need now =
    if m.enabled then allocate_locked m job (suc n) need now else (m, err disabled)

abbrev pub scrub_residual_threshold_mb : ℕ
scrub_residual_threshold_mb = 64

-- The strict branch of scrubOnRelease for one GPU.
pub verify_clean : (ℕ → Option ℤ) → ℕ → List Gpu → List Gpu
verify_clean used i gpus = elim (used i) [
  | none ↦ modify gpus i (isolate unverified)
  | some mb ↦
      if ltb_ℤ (pos scrub_residual_threshold_mb) mb
      then modify gpus i (isolate (residual mb))
      else gpus
]

pub verify_each : (ℕ → Option ℤ) → List ℕ → List Gpu → List Gpu
verify_each used [] gpus = gpus
verify_each used (i ∷ is) gpus = verify_each used is (verify_clean used i gpus)

-- scrubOnRelease: only the strict policy changes the pool.
pub scrub_on_release : String → (ℕ → Option ℤ) → List ℕ → List Gpu → List Gpu
unfolding verify_each verify_clean
scrub_on_release policy used is gpus =
    if str_eq policy "strict" then verify_each used is gpus else gpus

-- ReleaseGPUs for a job that has an allocation.
pub release_allocation : Manager → String → (ℕ → Option ℤ) → GpuAllocation → Manager
unfolding scrub_on_release
release_allocation m job used a = record m {
  gpus =
      scrub_on_release m.scrub_policy used a.gpu_indices (modify_all m.gpus a.gpu_indices vacate);
  allocations = Map.remove m.allocations job;
}

-- ReleaseGPUs
pub release : Manager → String → (ℕ → Option ℤ) → Manager
release m job used =
    if m.enabled
    then (elim (Map.get m.allocations job) [ none ↦ m | some a ↦ release_allocation m job used a ])
    else m

-- ClearQuarantine
pub clear_quarantine : Manager → ℕ → Manager × Option GpuError
clear_quarantine m i = elim (find m.gpus i) [
  | none ↦ (m, some not_found)
  | some _ ↦ (record m { gpus = modify m.gpus i readmit }, none)
]

-- GetJobAllocation
pub job_allocation : Manager → String → Option GpuAllocation
job_allocation m job = if m.enabled then Map.get m.allocations job else none
