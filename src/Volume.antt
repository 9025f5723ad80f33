-- ===== src/Volume.antt =====
-- The volume store: internal/joblet/adapters/volume_store_adapter.go over the in-memory
-- SimpleVolumeStore of internal/joblet/adapters/in_memory_stores.go, whose calls never fail. The
-- time of a call is an argument; log lines are left out. Calls do not overlap,
-- though no lock spans RemoveVolume.
pub mod Kinds
pub mod Tracking
pub mod Usage
pub mod Tests
use joblet.Prelude.{
  ℕ, ◌+◌, Bool, true, false, ◌||◌, String, Option, none, some, List, [], map, str_eq, ltb, pred,
  if◌then◌else◌,
}
use joblet.Prelude.Int.{pos, ltb_ℤ}
use joblet.Prelude.Map.{Map}
use joblet.Prelude.Map
use joblet.Volume.Kinds.{
  Volume, VolumeType, missing_type, is_volume_type, filesystem, is_filesystem, deep_copy,
}

pub data VolumeError : Type 0 where
  store_closed : VolumeError
  nil_volume : VolumeError
  empty_name : VolumeError
  name_required : VolumeError
  type_required : VolumeError
  invalid_type : VolumeError
  size_not_positive : VolumeError
  path_required : VolumeError
  in_use : ℕ → VolumeError
  not_found : VolumeError

-- volumeStoreAdapter with its SimpleVolumeStore
pub record VolumeStore : Type 0 where
  volumes : Map Volume
  job_counts : Map ℕ
  closed : Bool

-- NewVolumeStoreAdapter
pub new_store : VolumeStore
new_store = record { volumes = []; job_counts = []; closed = false }

-- validateVolume
pub validate_volume : Volume → Option VolumeError
unfolding missing_type is_volume_type is_filesystem
validate_volume v =
    if str_eq v.name ""
    then some name_required
    else if missing_type v.type
    then some type_required
    else if is_volume_type v.type
    then (if ltb_ℤ (pos 0) v.size_bytes
        then (if is_filesystem v.type
            then (if str_eq v.path "" then some path_required else none)
            else none)
        else some size_not_positive)
    else some invalid_type

-- CreateVolume from Create on: the store's Create overwrites.
pub store_volume : ℕ → VolumeStore → Volume → VolumeStore
store_volume now s v = record s {
  volumes = Map.put s.volumes v.name (record v { created_time = now });
  job_counts = Map.put s.job_counts v.name 0;
}

-- CreateVolume
pub create_volume : ℕ → VolumeStore → Option Volume → VolumeStore × Option VolumeError
create_volume now s none = if s.closed then (s, some store_closed) else (s, some nil_volume)
create_volume now s (some v) =
    if s.closed
    then (s, some store_closed)
    else if str_eq v.name ""
    then (s, some empty_name)
    else elim (validate_volume v) [ some e ↦ (s, some e) | none ↦ (store_volume now s v, none) ]

-- GetVolume
pub get_volume : VolumeStore → String → Option Volume
get_volume s name =
    if s.closed || str_eq name ""
    then none
    else elim (Map.get s.volumes name) [ none ↦ none | some v ↦ some (deep_copy v) ]

-- ListVolumes
pub list_volumes : VolumeStore → List Volume
list_volumes s = if s.closed then [] else map deep_copy (Map.values s.volumes)

-- jobCounts[name]: a missing key reads as 0.
pub job_count : VolumeStore → String → ℕ
job_count s name = elim (Map.get s.job_counts name) [ none ↦ 0 | some n ↦ n ]

-- RemoveVolume
pub remove_volume : VolumeStore → String → VolumeStore × Option VolumeError
unfolding job_count
remove_volume s name =
    let from_store : VolumeStore × Option VolumeError = elim (Map.get s.volumes name) [
      | none ↦ (s, some not_found)
      | some v ↦ (
        record s { volumes = Map.remove s.volumes name; job_counts = Map.remove s.job_counts name },
        none,
      )
    ] in
    if s.closed
    then (s, some store_closed)
    else if str_eq name ""
    then (s, some empty_name)
    else if ltb 0 (job_count s name)
    then (s, some (in_use (job_count s name)))
    else from_store

-- IncrementJobCount
pub increment_job_count : VolumeStore → String → VolumeStore × Option VolumeError
unfolding job_count
increment_job_count s name =
    if s.closed
    then (s, some store_closed)
    else if str_eq name ""
    then (s, some empty_name)
    else elim (get_volume s name) [
      | none ↦ (s, some not_found)
      | some v ↦ (record s { job_counts = Map.put s.job_counts name (job_count s name + 1) }, none)
    ]

-- DecrementJobCount: a count of 0 stays, without an error.
pub decrement_job_count : VolumeStore → String → VolumeStore × Option VolumeError
decrement_job_count s name =
    if s.closed
    then (s, some store_closed)
    else if str_eq name ""
    then (s, some empty_name)
    else elim (Map.get s.job_counts name) [
      | none ↦ (s, some not_found)
      | some n ↦
          if ltb 0 n
          then (record s { job_counts = Map.put s.job_counts name (pred n) }, none)
          else (s, none)
    ]

-- Close
pub close : VolumeStore → VolumeStore
close s = if s.closed then s else record { volumes = []; job_counts = []; closed = true }
