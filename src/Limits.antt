-- ===== src/Limits.antt =====
-- Limits of a job: cpu.go, memory.go and bandwidth.go of internal/joblet/domain/values/ and
-- internal/joblet/domain/resource_limits.go. Numbers of 32 and 64 bits wrap around where the code
-- computes with them. Printing is left out. Package strings and strconv.Atoi are a parameter.
pub mod Cores
pub mod Memory
pub mod Tests
use joblet.Prelude.{
  ℕ, zero, suc, ◌+◌, ◌-◌, ◌*◌, ◌/◌, ◌%◌, ◌^◌, Bool, true, false, ◌&&◌, ◌||◌, not, String, Option,
  none, some, List, [], ◌∷◌, ◌++◌, Result, ok, err, str_eq, ltb, leb, ◌==◌, contains, length,
  if◌then◌else◌,
}
use joblet.Prelude.Int.{ℤ, pos, negsuc, ltb_ℤ}

pub data LimitError : Type 0 where
  negative : LimitError
  too_high : LimitError
  bad_range : LimitError
  bad_number : LimitError
  start_after_end : LimitError
  duplicate_core : LimitError
  core_missing : LimitError
  below_minimum : LimitError
  above_maximum : LimitError
  less_than_nothing : LimitError
  diverges : LimitError

-- What package strings and strconv.Atoi do: Contains and Split at a separator, TrimSpace, Atoi
pub record Texts : Type 0 where
  pub has : String → String → Bool
  pub split : String → String → List String
  pub trim : String → String
  pub atoi : String → Option ℤ

-- A number as a signed integer of w bits
unfoldable pub to_int : ℕ → ℕ → ℤ
to_int w n = let m = n % 2 ^ w in if ltb m (2 ^ (w - 1)) then pos m else negsuc (2 ^ w - m - 1)

-- The negative of a number as a signed integer of w bits
unfoldable pub to_neg : ℕ → ℕ → ℤ
to_neg w n = to_int w (2 ^ w - n % 2 ^ w)

-- NewCPUPercentage; a CPUPercentage is its value.
unfoldable pub new_cpu_percentage : ℤ → Result LimitError ℤ
new_cpu_percentage p =
    if ltb_ℤ p (pos 0) then err negative else if ltb_ℤ (pos 10000) p then err too_high else ok p

-- CPUCoreSet
pub record CpuCoreSet : Type 0 where
  pub cores : List ℕ
  pub spec : String

abbrev pub no_cores : CpuCoreSet
no_cores = record { cores = []; spec = "" }

-- The largest int
abbrev pub max_int : ℕ
max_int = 9223372036854775807

-- The loop from i to end, in so many rounds; none where it needs more. After the largest int, i++
-- wraps to the smallest one: i <= end then holds for ever, so no number of rounds is enough.
unfoldable pub core_range : ℕ → ℕ → ℕ → Option (List ℕ)
core_range zero i end = none
core_range (suc rounds) i end =
    let rest = core_range rounds (suc i) end in
    if leb i end
    then (if i == max_int then none else elim rest [ none ↦ none | some cs ↦ some (i ∷ cs) ])
    else some []

-- The range format of ParseCPUCoreSet; diverges stands for a loop that never ends.
unfoldable pub parse_range : Texts → List String → Result LimitError (List ℕ)
parse_range t (a ∷ b ∷ []) = elim (t.atoi (t.trim a)) [
  | none ↦ err bad_number
  | some start ↦ elim (t.atoi (t.trim b)) [
    | none ↦ err bad_number
    | some end ↦ elim start [
      | negsuc m ↦ err negative
      | pos m ↦ elim end [
        | negsuc n ↦ err negative
        | pos n ↦
            if ltb n m
            then err start_after_end
            else elim (core_range (n + 2 - m) m n) [ none ↦ err diverges | some cs ↦ ok cs ]
      ]
    ]
  ]
]
parse_range t parts = err bad_range

-- The list format of ParseCPUCoreSet, from the cores so far
unfoldable pub parse_list : Texts → List String → List ℕ → Result LimitError (List ℕ)
parse_list t [] cores = ok cores
parse_list t (p ∷ ps) cores = elim (t.atoi (t.trim p)) [
  | none ↦ err bad_number
  | some c ↦ elim c [ negsuc n ↦ err negative | pos n ↦ parse_list t ps (cores ++ (n ∷ [])) ]
]

-- The check for duplicates of ParseCPUCoreSet, from the cores seen
unfoldable pub has_duplicate : List ℕ → List ℕ → Bool
has_duplicate seen [] = false
has_duplicate seen (c ∷ cs) =
    let rest = has_duplicate (c ∷ seen) cs in if contains seen c then true else rest

-- ParseCPUCoreSet
unfoldable pub parse_cpu_core_set : Texts → String → Result LimitError CpuCoreSet
parse_cpu_core_set t spec =
    let parsed =
      if t.has spec "-"
      then parse_range t (t.split spec "-")
      else parse_list t (t.split spec ",") [] in
    if str_eq spec "" then ok no_cores else elim parsed [
      | err e ↦ err e
      | ok cores ↦
          if has_duplicate [] cores
          then err duplicate_core
          else ok (record { cores = cores; spec = spec })
    ]

-- IsEmpty of CPUCoreSet
unfoldable pub is_empty : CpuCoreSet → Bool
is_empty c = length c.cores == 0

-- Contains of CPUCoreSet
unfoldable pub has_core : CpuCoreSet → ℕ → Bool
has_core c n = contains c.cores n

-- Validate of CPUCoreSet
unfoldable pub validate_cores : List ℕ → ℕ → Option LimitError
validate_cores [] available = none
validate_cores (c ∷ cs) available =
    let rest = validate_cores cs available in if leb available c then some core_missing else rest

-- NewMemorySize; a MemorySize is its bytes.
unfoldable pub new_memory_size : ℤ → Result LimitError ℤ
new_memory_size b = if ltb_ℤ b (pos 0) then err negative else ok b

-- NewMemorySizeFromMB
unfoldable pub new_memory_size_from_mb : ℤ → Result LimitError ℤ
new_memory_size_from_mb (negsuc n) = err negative
new_memory_size_from_mb (pos n) = ok (to_int 64 (n * 1024 * 1024))

-- Megabytes
unfoldable pub megabytes : ℤ → ℤ
megabytes (pos b) = to_int 32 (b / 1048576)
megabytes (negsuc b) = to_neg 32 (suc b / 1048576)

-- Subtract of MemorySize, of sizes that are not negative
unfoldable pub subtract : ℕ → ℕ → Result LimitError ℕ
subtract m other = if ltb m other then err less_than_nothing else ok (m - other)

-- Validate of MemorySize and of Bandwidth: a maximum of 0 is none.
unfoldable pub validate_size : ℤ → ℤ → ℤ → Option LimitError
validate_size m min max =
    if ltb_ℤ m min
    then some below_minimum
    else if ltb_ℤ (pos 0) max && ltb_ℤ max m
    then some above_maximum
    else none

-- NewBandwidth; a Bandwidth is its bytes per second.
unfoldable pub new_bandwidth : ℤ → Result LimitError ℤ
new_bandwidth b = if ltb_ℤ b (pos 0) then err negative else ok b

-- ResourceLimits
pub record Limits : Type 0 where
  pub cpu : ℤ
  pub cpu_cores : CpuCoreSet
  pub memory : ℤ
  pub io_bandwidth : ℤ

-- NewResourceLimits
abbrev pub new_limits : Limits
new_limits = record { cpu = pos 0; cpu_cores = no_cores; memory = pos 0; io_bandwidth = pos 0 }

-- The value, or the default where the value is refused
abbrev pub or_default {ℓ} : {A : Type ℓ} → A → Result LimitError A → A
or_default d (ok a) = a
or_default d (err e) = d

-- NewResourceLimitsFromParams: a value that is refused is ignored.
unfoldable pub limits_from_params : Texts → ℤ → String → ℤ → ℤ → Limits
limits_from_params t cpu cores mb io = record {
  cpu = if ltb_ℤ (pos 0) cpu then or_default (pos 0) (new_cpu_percentage cpu) else pos 0;
  cpu_cores =
      if str_eq cores "" then no_cores else or_default no_cores (parse_cpu_core_set t cores);
  memory = if ltb_ℤ (pos 0) mb then or_default (pos 0) (new_memory_size_from_mb mb) else pos 0;
  io_bandwidth = if ltb_ℤ (pos 0) io then or_default (pos 0) (new_bandwidth io) else pos 0;
}
