-- ===== src/Gpu/Ownership.antt =====
-- Who holds which GPU: the pool's marks and the allocation records tell the same, after any calls.
use mathlib.Core.Option
use joblet.Prelude.{
  subst, if_true, if_false, ℕ, ◌≡◌, refl, ◌∙◌, sym, inl, inr, Bool, true, String, Option, none,
  some, List, Result, arith, contains, Distinct, Bool-cases, Option-cases, str_eq, eq_iff,
  if◌then◌else◌,
}
use joblet.Prelude.Int.{ℤ}
use joblet.Prelude.Map
use joblet.Gpu.{Manager, scrub_on_release, release_allocation, release, clear_quarantine, allocate}
use joblet.Gpu.Selection.{GpuError}
use joblet.Gpu.Device.{
  Gpu, GpuAllocation, find, modify, modify_all, vacate, isolate, readmit, indices,
}
use joblet.Gpu.Scrub.{scrub_rule}
use joblet.Gpu.Pool.{find-modify, find-modify_all, indices-modify, indices-modify_all}
use joblet.Gpu.Allocation.{Granted, Answer, off, bad_count, again, short, granted, allocate-Answer}

abbrev pub owner : Gpu → Bool × String
owner g = (g.in_use, g.job_uuid)

-- The marks of the GPU at an index.
abbrev pub owner_at : List Gpu → ℕ → Option (Bool × String)
owner_at gs i = Option.map owner (find gs i)

-- The job's record lists the GPU.
abbrev pub Lists : Manager → String → ℕ → Type 0
Lists m job i =
    (a : GpuAllocation) × (Map.get m.allocations job ≡ some a) × (contains a.gpu_indices i ≡ true)

pub record Owned (m : Manager) : Type 0 where
  pub distinct : Distinct (indices m.gpus)
  pub held : (job : String) (i : ℕ) → Lists m job i → owner_at m.gpus i ≡ some (true, job)
  pub accounted : (job : String) (i : ℕ) → owner_at m.gpus i ≡ some (true, job) → Lists m job i

module _ (policy : String) (used : ℕ → Option ℤ) (is : List ℕ) (gs : List Gpu) where
  pub owner_at-scrub : (j : ℕ) → owner_at (scrub_on_release policy used is gs) j ≡ owner_at gs j
  owner_at-scrub j =
      scrub_rule (λ hs. owner_at hs j ≡ owner_at gs j)
        (λ hs i r q. ground (arith, find-modify (isolate r) (λ g. refl) hs i j)) used policy is gs
        refl

  indices-scrub : indices (scrub_on_release policy used is gs) ≡ indices gs
  indices-scrub =
      scrub_rule (λ hs. indices hs ≡ indices gs)
        (λ hs i r q. indices-modify (isolate r) (λ g. refl) hs i ∙ q) used policy is gs refl

-- A grant keeps the records and the marks in step.
module _ {m m' : Manager} {job : String} {n now : ℕ} {need : ℤ} {a : GpuAllocation} (v : Owned m)
    (fresh : Map.get m.allocations job ≡ none) (g : Granted m job n need now m' a) where
  recorded_at :
      (k : String)
      → Map.get m'.allocations k ≡ (if str_eq job k then some a else Map.get m.allocations k)
  recorded_at k = g.recorded k ∙ Map.get-put m.allocations job k a

  granted_held : (k : String) (i : ℕ) → Lists m' k i → owner_at m'.gpus i ≡ some (true, k)
  granted_held k i (b, recorded, listed) = elim (Bool-cases (contains a.gpu_indices i)) [
    | inl mine ↦ elim (Bool-cases (str_eq job k)) [
      | inl same ↦ let (h, _, _, marked) = g.given i mine in ground (arith, eq_iff job k)
      | inr other ↦
          let (h, found, free, _) = g.given i mine in
          let kept : Map.get m.allocations k ≡ some b = ground (arith, recorded_at k) in
          let busy = v.held k i (b, kept, listed) in ground arith
    ]
    | inr theirs ↦ elim (Bool-cases (str_eq job k)) [
      | inl same ↦ ground (arith, recorded_at k)
      | inr other ↦
          let kept : Map.get m.allocations k ≡ some b = ground (arith, recorded_at k) in
          rw (g.others i theirs) (v.held k i (b, kept, listed))
    ]
  ]

  granted_accounted : (k : String) (i : ℕ) → owner_at m'.gpus i ≡ some (true, k) → Lists m' k i
  granted_accounted k i e = elim (Bool-cases (contains a.gpu_indices i)) [
    | inl mine ↦
        let (h, _, _, marked) = g.given i mine in
        let same : job ≡ k = ground arith in (a, ground (arith, recorded_at k, eq_iff job k), mine)
    | inr theirs ↦
        let (b, recorded, listed) = v.accounted k i (rw (g.others i theirs) at e) in
        (b, ground (arith, recorded_at k, eq_iff job k), listed)
  ]

  Granted-Owned : Owned m'
  Granted-Owned = record {
    distinct = rw g.same_indices v.distinct;
    held = granted_held;
    accounted = granted_accounted;
  }

Answer-Owned :
    {m : Manager} {job : String} {n need : ℤ} {now : ℕ}
    {r : Manager × Result GpuError GpuAllocation}
    → Owned m
    → Answer m job n need now r
    → Owned r.0
Answer-Owned v (off _ e) = rw e v
Answer-Owned v (bad_count _ _ e) = rw e v
Answer-Owned v (again _ _ _ _ e) = rw e v
Answer-Owned v (short _ _ _ _ _ e) = rw e v
Answer-Owned v (granted k m' a _ _ fresh _ e g) = rw e (Granted-Owned v fresh g)

pub allocate-Owned :
    (m : Manager) (job : String) (n need : ℤ) (now : ℕ)
    → Owned m
    → Owned (allocate m job n need now).0
allocate-Owned m job n need now v = Answer-Owned v (allocate-Answer m job n need now v.distinct)

-- A release takes the job's record and its marks away together.
module _ (m : Manager) (job : String) (used : ℕ → Option ℤ) (a : GpuAllocation) (v : Owned m)
    (held_now : Map.get m.allocations job ≡ some a) where
  owner_at-release :
      (i : ℕ)
      → owner_at (release_allocation m job used a).gpus i ≡ (
          if contains a.gpu_indices i
          then Option.map (λ g. owner (vacate g)) (find m.gpus i)
          else owner_at m.gpus i)
  unfolding release_allocation
  owner_at-release i =
      owner_at-scrub m.scrub_policy used a.gpu_indices (modify_all m.gpus a.gpu_indices vacate) i
      ∙ ground (arith, find-modify_all vacate (λ g. refl) (λ g. refl) m.gpus a.gpu_indices i)

  get-release :
      (k : String)
      → Map.get (release_allocation m job used a).allocations k
        ≡ (if str_eq job k then none else Map.get m.allocations k)
  unfolding release_allocation
  get-release k = Map.get-remove m.allocations job k

  released_held :
      (k : String) (i : ℕ)
      → Lists (release_allocation m job used a) k i
      → owner_at (release_allocation m job used a).gpus i ≡ some (true, k)
  released_held k i (b, recorded, listed) = elim (Bool-cases (str_eq job k)) [
    | inl same ↦ ground (arith, get-release k)
    | inr other ↦
        let kept : Map.get m.allocations k ≡ some b = ground (arith, get-release k) in
        let theirs = v.held k i (b, kept, listed) in
        elim (Bool-cases (contains a.gpu_indices i)) [
          | inl mine ↦ let ours = v.held job i (a, held_now, mine) in ground (arith, eq_iff job k)
          | inr not_mine ↦ ground (arith, owner_at-release i)
        ]
  ]

  released_accounted :
      (k : String) (i : ℕ)
      → owner_at (release_allocation m job used a).gpus i ≡ some (true, k)
      → Lists (release_allocation m job used a) k i
  released_accounted k i e = elim (Bool-cases (contains a.gpu_indices i)) [
    | inl mine ↦ absurd (ground (arith, owner_at-release i))
    | inr not_mine ↦
        let (b, recorded, listed) = v.accounted k i (ground (arith, owner_at-release i)) in
        (b, ground (arith, get-release k, eq_iff job k), listed)
  ]

  release_allocation-Owned : Owned (release_allocation m job used a)
  unfolding release_allocation
  release_allocation-Owned = record {
    distinct =
        rw
          (
            indices-scrub m.scrub_policy used a.gpu_indices
                (modify_all m.gpus a.gpu_indices vacate),
            indices-modify_all vacate (λ g. refl) m.gpus a.gpu_indices,
          )
          v.distinct;
    held = released_held;
    accounted = released_accounted;
  }

pub release-Owned :
    (m : Manager) (job : String) (used : ℕ → Option ℤ) → Owned m → Owned (release m job used)
unfolding release
release-Owned m job used v = elim (Bool-cases m.enabled) [
  | inl on ↦ subst Owned (sym (if_true _ _ on)) (elim (Option-cases (Map.get m.allocations job)) [
    | inl e ↦ rw e v
    | inr (a, e) ↦ rw e (release_allocation-Owned m job used a v e)
  ])
  | inr not_on ↦ subst Owned (sym (if_false _ _ not_on)) v
]

pub clear_quarantine-Owned : (m : Manager) (i : ℕ) → Owned m → Owned (clear_quarantine m i).0
unfolding clear_quarantine
clear_quarantine-Owned m i v = elim (Option-cases (find m.gpus i)) [
  | inl e ↦ rw (e, clear_quarantine) v
  | inr (g, e) ↦
      rw (e, clear_quarantine)
        (record {
          distinct = rw (indices-modify readmit (λ g. refl) m.gpus i) v.distinct;
          held = λ k j l. same j ∙ v.held k j l;
          accounted = λ k j o. v.accounted k j (sym (same j) ∙ o);
        })
]
  where
    same : (j : ℕ) → owner_at (modify m.gpus i readmit) j ≡ owner_at m.gpus j
    same j = ground (arith, find-modify readmit (λ g. refl) m.gpus i j)
