-- ===== src/Gpu/Allocation.antt =====
-- What AllocateGPUs hands out, and when it refuses.
use mathlib.Core.List.{append_assoc}
use joblet.Prelude.{
  if_true, if_false, subst, ℕ, zero, suc, ◌≤◌, ◌<◌, ◌≡◌, refl, ap, sym, inl, inr, true, false,
  String, none, some, List, [], ◌∷◌, ◌++◌, Result, ok, err, arith, ltb, length, length-append,
  length-map, set, replicate, contains, keep, Distinct, All, Bool-cases, Option-cases,
}
use joblet.Prelude.Int.{ℤ, pos, negsuc, ◌≤ℤ◌}
use joblet.Prelude.Map
use joblet.Gpu.{
  Manager, is_eligible, candidates, write_indices, commit, allocate_new, allocate_locked, allocate,
}
use joblet.Gpu.Device.{Gpu, GpuAllocation, find, occupy, indices}
use joblet.Gpu.Selection.{GpuError, disabled, invalid_count, not_enough, by_index, choose, select}
use joblet.Prelude.Sort.{All-sort_slice, length-sort_slice}
use joblet.Gpu.Keys.{Distinct-keep, Distinct-sort_slice}
use joblet.Gpu.Pool.{
  find-modify_all, indices-modify_all, length-choose, All-choose, Distinct-choose, All-find,
  All-keep, All-contains,
}

set-append : (pre rest : List ℕ) (a b : ℕ) → set (pre ++ a ∷ rest) (length pre) b ≡ pre ++ b ∷ rest
set-append [] rest a b = refl
set-append (x ∷ pre) rest a b = ap (◌∷◌ x) (set-append pre rest a b)

length-snoc : (pre : List ℕ) (a : ℕ) → length (pre ++ a ∷ []) ≡ suc (length pre)
length-snoc pre a = omega (arith, length-append pre (a ∷ []))

write_indices-append :
    (pre : List ℕ) (gs : List Gpu)
    → write_indices (length pre) gs (pre ++ replicate (length gs) 0) ≡ pre ++ indices gs
unfolding write_indices
write_indices-append pre [] = refl
write_indices-append pre (g ∷ gs) =
    let ih = write_indices-append (pre ++ g.index ∷ []) gs in
    rw set-append (simp (length-snoc, append_assoc) at ih)

-- Every write of the loop lies in `allocatedIndices`, which ends up holding the selected indices.
pub write_indices-fill :
    (gs : List Gpu) (n : ℕ) → length gs ≡ n → write_indices 0 gs (replicate n 0) ≡ indices gs
write_indices-fill gs n e = rw (← e) (write_indices-append [] gs)

-- What makes a GPU fit for a request, read off the pool.
abbrev pub Fits : List Gpu → ℤ → Gpu → Type 0
Fits gpus need g = (find gpus g.index ≡ some g) × (is_eligible need g ≡ true)

candidates-All :
    (gpus : List Gpu) (need : ℤ)
    → Distinct (indices gpus)
    → All (Fits gpus need) (candidates gpus need)
unfolding candidates
candidates-All gpus need d =
    All-sort_slice by_index (Fits gpus need) (keep (is_eligible need) gpus)
      (All-keep (λ g. find gpus g.index ≡ some g) (is_eligible need) gpus (All-find gpus d))

candidates-Distinct :
    (gpus : List Gpu) (need : ℤ)
    → Distinct (indices gpus)
    → Distinct (indices (candidates gpus need))
unfolding candidates
candidates-Distinct gpus need d =
    Distinct-sort_slice _ by_index (keep (is_eligible need) gpus)
      (Distinct-keep _ (is_eligible need) gpus d)

-- The outcome of a successful allocation of `n` GPUs to a job that had none.
pub record Granted (m : Manager) (job : String) (n : ℕ) (need : ℤ) (now : ℕ) (m' : Manager)
    (a : GpuAllocation) : Type 0 where
  pub count : length a.gpu_indices ≡ n
  pub distinct : Distinct a.gpu_indices
  pub given :
      (i : ℕ)
      → contains a.gpu_indices i ≡ true
      → (g : Gpu) × (find m.gpus i ≡ some g)
        × (is_eligible need g ≡ true)
        × (find m'.gpus i ≡ some (occupy job now g))
  pub others : (i : ℕ) → contains a.gpu_indices i ≡ false → find m'.gpus i ≡ find m.gpus i
  pub recorded : (j : String) → Map.get m'.allocations j ≡ Map.get (Map.put m.allocations job a) j
  pub same_indices : indices m'.gpus ≡ indices m.gpus
  pub same_settings :
      (m'.enabled ≡ m.enabled) × (m'.strategy ≡ m.strategy) × (m'.scrub_policy ≡ m.scrub_policy)

module _ (m : Manager) (job : String) (n : ℕ) (need : ℤ) (now : ℕ) (selected : List Gpu) where
  commit-Granted :
      length selected ≡ n
      → All (Fits m.gpus need) selected
      → Distinct (indices selected)
      → let done = commit m job n need now selected in Granted m job n need now done.0 done.1
  unfolding commit
  commit-Granted full fits distinct =
      let filled = write_indices-fill selected n full in
      let marked =
        find-modify_all (occupy job now) (λ g. refl) (λ g. refl) m.gpus (indices selected) in
      record {
        count = rw filled (rw length-map full);
        distinct = rw filled distinct;
        given = λ i e.
            let (g, fit, at) = All-contains (Fits m.gpus need) selected i fits (rw filled at e) in
            (g, ground arith, fit.1, rw (marked i) (ground arith));
        others = λ i e. ground (arith, marked i, filled);
        recorded = λ j. refl;
        same_indices = indices-modify_all (occupy job now) (λ g. refl) m.gpus (indices selected);
        same_settings = (refl, refl, refl);
      }

-- How many GPUs may serve a request for `need` MB.
abbrev pub eligible_count : Manager → ℤ → ℕ
eligible_count m need = length (keep (is_eligible need) m.gpus)

candidates-length :
    (m : Manager) (need : ℤ) → length (candidates m.gpus need) ≡ eligible_count m need
unfolding candidates
candidates-length m need = length-sort_slice by_index (keep (is_eligible need) m.gpus)

module _ (m : Manager) (job : String) (n : ℕ) (need : ℤ) (now : ℕ) where
  select-ok :
      n ≤ eligible_count m need
      → select m.strategy (candidates m.gpus need) n need
        ≡ ok (choose m.strategy (candidates m.gpus need) n need)
  unfolding select
  select-ok enough = ground (arith, candidates-length m need)

  select-err :
      eligible_count m need < n
      → select m.strategy (candidates m.gpus need) n need
        ≡ err (not_enough n (eligible_count m need))
  unfolding select
  select-err few = ground (arith, candidates-length m need)

  chosen-Granted :
      Distinct (indices m.gpus)
      → n ≤ eligible_count m need
      → let done = commit m job n need now (choose m.strategy (candidates m.gpus need) n need) in
        Granted m job n need now done.0 done.1
  chosen-Granted d enough =
      let from = candidates m.gpus need in
      commit-Granted m job n need now (choose m.strategy from n need)
        (length-choose m.strategy from n need (rw (candidates-length m need) enough))
        (All-choose (Fits m.gpus need) m.strategy from n need (candidates-All m.gpus need d))
        (Distinct-choose m.strategy from n need (candidates-Distinct m.gpus need d))

-- The outcomes of a request, each with the condition under which it is the answer.
pub data Answer (m : Manager) (job : String) (n need : ℤ) (now : ℕ)
    (r : Manager × Result GpuError GpuAllocation) : Type 0 where
  off : m.enabled ≡ false → r ≡ (m, err disabled) → Answer m job n need now r
  bad_count :
      m.enabled ≡ true → n ≤ℤ pos 0 → r ≡ (m, err (invalid_count n)) → Answer m job n need now r
  again :
      (a : GpuAllocation)
      → m.enabled ≡ true
      → pos 1 ≤ℤ n
      → Map.get m.allocations job ≡ some a
      → r ≡ (m, ok a)
      → Answer m job n need now r
  short :
      (k : ℕ)
      → m.enabled ≡ true
      → n ≡ pos (suc k)
      → Map.get m.allocations job ≡ none
      → eligible_count m need < suc k
      → r ≡ (m, err (not_enough (suc k) (eligible_count m need)))
      → Answer m job n need now r
  granted :
      (k : ℕ) (m' : Manager) (a : GpuAllocation)
      → m.enabled ≡ true
      → n ≡ pos (suc k)
      → Map.get m.allocations job ≡ none
      → suc k ≤ eligible_count m need
      → r ≡ (m', ok a)
      → Granted m job (suc k) need now m' a
      → Answer m job n need now r

module _ (m : Manager) (job : String) (k : ℕ) (need : ℤ) (now : ℕ) (d : Distinct (indices m.gpus))
    (on : m.enabled ≡ true) where
  allocate_new-Answer :
      Map.get m.allocations job ≡ none
      → Answer m job (pos (suc k)) need now (allocate_new m job (suc k) need now)
  unfolding allocate_new
  allocate_new-Answer fresh = elim (Bool-cases (ltb (eligible_count m need) (suc k))) [
    | inl few ↦
        short k on refl fresh (ground arith)
          (rw (select-err m job (suc k) need now (ground arith), allocate_new))
    | inr enough ↦
        granted k _ _ on refl fresh (ground arith)
          (rw (select-ok m job (suc k) need now (ground arith), allocate_new))
          (chosen-Granted m job (suc k) need now d (ground arith))
  ]

  allocate_locked-Answer :
      Answer m job (pos (suc k)) need now (allocate_locked m job (suc k) need now)
  unfolding allocate_locked
  allocate_locked-Answer = elim (Option-cases (Map.get m.allocations job)) [
    | inl fresh ↦ rw (fresh, allocate_locked) (allocate_new-Answer fresh)
    | inr (a, held) ↦ again a on (omega arith) held (rw (held, allocate_locked))
  ]

-- Where the indices are distinct, AllocateGPUs gives one of five answers, each only under its
-- condition. A disabled
-- manager, a count below 1 and too few eligible GPUs are refused with nothing changed; a job that
-- has an allocation gets the same one again. Otherwise the job gets exactly the number that it asks
-- for, of different GPUs that were idle, not quarantined and large enough: they are marked as the
-- job's, no other GPU changes, and the allocation is recorded.
pub allocate-Answer :
    (m : Manager) (job : String) (n need : ℤ) (now : ℕ)
    → Distinct (indices m.gpus)
    → Answer m job n need now (allocate m job n need now)
unfolding allocate
allocate-Answer m job n need now d = elim (Bool-cases m.enabled) [
  | inl on ↦ when_on n on
  | inr no_gpu ↦ when_off n no_gpu
]
  where
    when_on : (c : ℤ) → m.enabled ≡ true → Answer m job c need now (allocate m job c need now)
    when_on (negsuc c) on = bad_count on (omega arith) (ground arith)
    when_on (pos zero) on = bad_count on (omega arith) (ground arith)
    when_on (pos (suc k)) on =
        subst (Answer m job (pos (suc k)) need now) (sym (if_true _ _ on))
          (allocate_locked-Answer m job k need now d on)

    when_off : (c : ℤ) → m.enabled ≡ false → Answer m job c need now (allocate m job c need now)
    when_off (negsuc c) e = off e (ground arith)
    when_off (pos zero) e = off e (ground arith)
    when_off (pos (suc k)) e = off e (if_false _ _ e)
