-- ===== src/Gpu/Device.antt =====
-- internal/joblet/gpu/types.go: one GPU, and the map `m.gpus` from an index to its GPU.
-- `Initialize` stores every GPU under its own index, so the map is the list of its GPUs.
use joblet.Prelude.{
  ℕ, Bool, true, false, String, Option, none, some, List, [], ◌∷◌, map, ◌==◌, if◌then◌else◌,
}
use joblet.Prelude.Int.{ℤ}

-- Why a GPU was taken out of the pool; the source formats these as text.
pub data QuarantineReason : Type 0 where
  no_reason unverified : QuarantineReason
  residual : ℤ → QuarantineReason

pub record Gpu : Type 0 where
  pub index : ℕ
  pub uuid : String
  pub name : String
  pub memory_mb : ℤ
  pub in_use : Bool
  pub job_uuid : String
  pub allocated_at : Option ℕ
  pub is_mig : Bool
  pub mig_uuid : String
  pub cap_minors : List ℕ
  pub quarantined : Bool
  pub quarantine_reason : QuarantineReason

pub record GpuAllocation : Type 0 where
  pub job_uuid : String
  pub gpu_indices : List ℕ
  pub mig_uuids : List String
  pub gpu_count : ℕ
  pub gpu_memory_mb : ℤ
  pub allocated_at : ℕ

-- gpu, ok := m.gpus[i]
unfoldable pub find : List Gpu → ℕ → Option Gpu
find [] i = none
find (g ∷ gs) i = if g.index == i then some g else find gs i

-- m.gpus[g.Index] = g
unfoldable pub store : List Gpu → Gpu → List Gpu
store [] g = g ∷ []
store (h ∷ gs) g = let rest = store gs g in if h.index == g.index then g ∷ gs else h ∷ rest

-- Writes through the pointer that `m.gpus[i]` holds.
unfoldable pub modify : List Gpu → ℕ → (Gpu → Gpu) → List Gpu
modify [] i f = []
modify (g ∷ gs) i f = let rest = modify gs i f in if g.index == i then f g ∷ gs else g ∷ rest

-- The same write through each of several pointers.
unfoldable pub modify_all : List Gpu → List ℕ → (Gpu → Gpu) → List Gpu
modify_all gs [] f = gs
modify_all gs (i ∷ is) f = modify_all (modify gs i f) is f

abbrev pub occupy : String → ℕ → Gpu → Gpu
occupy job at g = record g { in_use = true; job_uuid = job; allocated_at = some at }

abbrev pub vacate : Gpu → Gpu
vacate g = record g { in_use = false; job_uuid = ""; allocated_at = none }

abbrev pub isolate : QuarantineReason → Gpu → Gpu
isolate reason g = record g { quarantined = true; quarantine_reason = reason }

abbrev pub readmit : Gpu → Gpu
readmit g = record g { quarantined = false; quarantine_reason = no_reason }

abbrev pub indices : List Gpu → List ℕ
indices = map λ g. g.index
