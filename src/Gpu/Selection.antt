-- ===== src/Gpu/Selection.antt =====
-- internal/joblet/gpu/allocation_strategy.go. `sort.Slice` is an insertion sort: its result is
-- ordered by the comparison, and GPUs that compare equal may stand in another order in Go.
use joblet.Prelude.{
  ℕ, zero, suc, ◌-◌, ◌*◌, ◌/◌, Bool, true, false, ◌&&◌, String, none, some, List, [], ◌∷◌, ◌++◌,
  Result, ok, err, length, take, get_elem?, ltb, leb, str_eq, if◌then◌else◌,
}
use joblet.Prelude.Sort.{sort_slice}
use joblet.Prelude.Int.{ℤ, pos, ltb_ℤ, ◌-ℤ◌}
use joblet.Gpu.Device.{Gpu}

pub data Strategy : Type 0 where
  first_fit pack spread best_fit : Strategy

pub data GpuError : Type 0 where
  disabled not_found : GpuError
  invalid_count : ℤ → GpuError
  not_enough : ℕ → ℕ → GpuError

-- GetAllocationStrategy
unfoldable pub strategy_of : String → Strategy
strategy_of name =
    if str_eq name "pack"
    then pack
    else if str_eq name "spread"
    then spread
    else if str_eq name "best-fit"
    then best_fit
    else first_fit

abbrev pub by_index : Gpu → Gpu → Bool
by_index a b = ltb a.index b.index

abbrev pub by_index_desc : Gpu → Gpu → Bool
by_index_desc a b = ltb b.index a.index

-- The comparison of BestFitStrategy: least unused memory first.
unfoldable pub by_waste : ℤ → Gpu → Gpu → Bool
by_waste need a b =
    let waste_a = a.memory_mb -ℤ need in
    let waste_b = b.memory_mb -ℤ need in
    let meets_a = not_negative waste_a in
    let meets_b = not_negative waste_b in
    if ltb_ℤ (pos 0) need
    then if meets_a && meets_b
      then ltb_ℤ waste_a waste_b
      else if meets_a
      then true
      else if meets_b
      then false
      else ltb_ℤ b.memory_mb a.memory_mb
    else ltb_ℤ a.memory_mb b.memory_mb
  where
    not_negative : ℤ → Bool
    not_negative w = if ltb_ℤ w (pos 0) then false else true

-- for i := start; i < start + rounds; i++: append sorted[i*step] if it is there.
unfoldable pub picks {ℓ} : {A : Type ℓ} → ℕ → ℕ → ℕ → List A → List A
picks zero i step sorted = []
picks (suc rounds) i step sorted =
    let rest = picks rounds (suc i) step sorted in
    elim (get_elem? sorted (i * step)) [ none ↦ rest | some g ↦ g ∷ rest ]

-- The body of SpreadStrategy after its sort.
unfoldable pub spread_out {ℓ} : {A : Type ℓ} → List A → ℕ → List A
spread_out sorted n =
    let selected = picks n 0 (length sorted / n) sorted in
    if ltb 1 n && leb (n * 2) (length sorted)
    then selected ++ picks (n - length selected) (length selected) 1 sorted
    else take n sorted

-- What each strategy selects once there are enough GPUs.
unfoldable pub choose : Strategy → List Gpu → ℕ → ℤ → List Gpu
unfolding spread_out
choose first_fit available n need = take n available
choose pack available n need = take n (sort_slice by_index available)
choose spread available n need = spread_out (sort_slice by_index_desc available) n
choose best_fit available n need = take n (sort_slice (by_waste need) available)

-- SelectGPUs
unfoldable pub select : Strategy → List Gpu → ℕ → ℤ → Result GpuError (List Gpu)
select s available n need =
    if ltb (length available) n
    then err (not_enough n (length available))
    else ok (choose s available n need)
