-- ===== src/Volume/Kinds.antt =====
-- A volume and its type: internal/joblet/domain/volume.go.
use joblet.Prelude.{ℕ, Bool, ◌||◌, String, str_eq}
use joblet.Prelude.Int.{ℤ}

-- VolumeType is a string; the two constants are its values for a volume that is stored.
abbrev pub VolumeType : Type 0
VolumeType = String

abbrev pub filesystem : VolumeType
filesystem = "filesystem"

abbrev pub memory : VolumeType
memory = "memory"

-- Volume
pub record Volume : Type 0 where
  pub name : String
  pub type : VolumeType
  pub size : String
  pub size_bytes : ℤ
  pub path : String
  pub created_time : ℕ
  pub job_count : ℤ

unfoldable pub missing_type : VolumeType → Bool
missing_type t = str_eq t ""

unfoldable pub is_volume_type : VolumeType → Bool
is_volume_type t = str_eq t filesystem || str_eq t memory

unfoldable pub is_filesystem : VolumeType → Bool
is_filesystem t = str_eq t filesystem

-- DeepCopy
unfoldable pub deep_copy : Volume → Volume
deep_copy v = record {
  name = v.name;
  type = v.type;
  size = v.size;
  size_bytes = v.size_bytes;
  path = v.path;
  created_time = v.created_time;
  job_count = v.job_count;
}
