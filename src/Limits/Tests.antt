-- ===== src/Limits/Tests.antt =====
-- The range 0-3 and 512 MB.
use joblet.Prelude.{
  ℕ, ◌≡◌, ◌*◌, refl, arith, ◌&&◌, none, some, [], ◌∷◌, ok, str_eq, leb, Distinct, if◌then◌else◌,
}
use joblet.Prelude.Int.{pos}
use joblet.Limits.{
  Texts, CpuCoreSet, parse_cpu_core_set, parse_range, core_range, has_duplicate, has_core,
  new_memory_size_from_mb, megabytes,
}
use joblet.Limits.Cores.{parse_cpu_core_set-range, parse_cpu_core_set-Distinct}
use joblet.Limits.Memory.{megabytes-new_memory_size_from_mb}

-- What the calls of package strings answer for "0-3"
abbrev pub texts : Texts
texts = record {
  has = λ s sep. str_eq s "0-3" && str_eq sep "-";
  split = λ s sep. if str_eq s "0-3" then "0" ∷ "3" ∷ [] else s ∷ [];
  trim = λ s. s;
  atoi = λ s. if str_eq s "0" then some (pos 0) else if str_eq s "3" then some (pos 3) else none;
}

parse_cpu_core_set-range_example :
    (c : CpuCoreSet) × (parse_cpu_core_set texts "0-3" ≡ ok c)
    × ((x : ℕ) → has_core c x ≡ (leb 0 x && leb x 3))
parse_cpu_core_set-range_example =
    parse_cpu_core_set-range texts "0-3" "0" "3" 0 3 refl refl refl refl refl (omega arith)
      (omega arith)

abbrev four_cores : CpuCoreSet
four_cores = record { cores = 0 ∷ 1 ∷ 2 ∷ 3 ∷ []; spec = "0-3" }

zero_to_three : parse_cpu_core_set texts "0-3" ≡ ok four_cores
unfolding parse_cpu_core_set parse_range core_range has_duplicate
zero_to_three = refl

parse_cpu_core_set-Distinct_example : Distinct four_cores.cores × (four_cores.spec ≡ "0-3")
parse_cpu_core_set-Distinct_example =
    parse_cpu_core_set-Distinct texts "0-3" four_cores zero_to_three

megabytes-new_memory_size_from_mb_example :
    (b : ℕ) × (new_memory_size_from_mb (pos 512) ≡ ok (pos b))
    × (b ≡ 512 * 1048576)
    × (megabytes (pos b) ≡ pos 512)
megabytes-new_memory_size_from_mb_example = megabytes-new_memory_size_from_mb 512 (omega arith)
