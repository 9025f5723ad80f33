-- ===== src/Gpu/Release.antt =====
-- ReleaseGPUs: what the released GPUs look like, and that it undoes a grant.

use joblet.Prelude.{
  ℕ, ◌≡◌, refl, ◌∙◌, sym, inl, inr, true, false, String, Option, none, some, arith, contains,
  Bool-cases, str_eq, eq_iff, if_true, if_false, str_eq_refl, Distinct, Result, ok, suc, subst, ap,
}
use joblet.Prelude.Int.{ℤ, pos}
use joblet.Prelude.Map
use joblet.Gpu.{Manager, scrub_on_release, release_allocation, release, allocate}
use joblet.Gpu.Selection.{GpuError}
use joblet.Gpu.Device.{Gpu, GpuAllocation, find, modify_all, vacate, indices}
use joblet.Gpu.Pool.{find-modify_all}
use joblet.Gpu.Allocation.{Granted, Answer, off, bad_count, again, short, granted, allocate-Answer}
use joblet.Gpu.Scrub.{IsScrubbed, scrub_on_release-scrubs}
use joblet.Gpu.Ownership.{owner_at-scrub}

release-recorded :
    (m : Manager) (job : String) (used : ℕ → Option ℤ) (a : GpuAllocation)
    → m.enabled ≡ true
    → Map.get m.allocations job ≡ some a
    → release m job used ≡ release_allocation m job used a
unfolding release
release-recorded m job used a on e = if_true _ _ on ∙ rw e

-- On an enabled manager with the strict policy, a GPU that a job gives back is idle, belongs to no
-- job, and is either quarantined or reported by `nvidia-smi` to hold at most 64 MB.
pub release-scrubs :
    (m : Manager) (job : String) (used : ℕ → Option ℤ) (a : GpuAllocation) (i : ℕ) (g : Gpu)
    → m.enabled ≡ true
    → m.scrub_policy ≡ "strict"
    → Map.get m.allocations job ≡ some a
    → contains a.gpu_indices i ≡ true
    → find (release m job used).gpus i ≡ some g
    → (g.in_use ≡ false) × (g.job_uuid ≡ "") × IsScrubbed used i g
unfolding release_allocation
release-scrubs m job used a i g on strict e listed found =
    let vacated = modify_all m.gpus a.gpu_indices vacate in
    let at : find (scrub_on_release "strict" used a.gpu_indices vacated) i ≡ some g =
      subst (λ p. find (scrub_on_release p used a.gpu_indices vacated) i ≡ some g) strict
        (subst (λ (x : Manager). find x.gpus i ≡ some g) (release-recorded m job used a on e)
          found) in
    let marks = owner_at-scrub "strict" used a.gpu_indices vacated i in
    let idle = find-modify_all vacate (λ g. refl) (λ g. refl) m.gpus a.gpu_indices i in
    (
      ground (arith, marks, idle),
      ground (arith, marks, idle),
      scrub_on_release-scrubs used a.gpu_indices vacated i listed g at,
    )

-- Idle GPUs carry no job and no time.
abbrev pub IsTidy : Manager → Type 0
IsTidy m = (i : ℕ) (g : Gpu) → find m.gpus i ≡ some g → g.in_use ≡ false → vacate g ≡ g

module _ {m m' : Manager} {job : String} {n now : ℕ} {need : ℤ} {a : GpuAllocation}
    (g : Granted m job n need now m' a) (used : ℕ → Option ℤ) (on : m.enabled ≡ true)
    (lenient : str_eq m.scrub_policy "strict" ≡ false) where
  recorded_own : Map.get m'.allocations job ≡ some a
  recorded_own =
      g.recorded job ∙ Map.get-put m.allocations job job a ∙ if_true _ _ (str_eq_refl job)

  released_gpus : (release m' job used).gpus ≡ modify_all m'.gpus a.gpu_indices vacate
  unfolding release_allocation scrub_on_release
  released_gpus =
      let policy : str_eq m'.scrub_policy "strict" ≡ false = rw (g.same_settings.2) lenient in
      ap (λ (x : Manager). x.gpus)
        (release-recorded m' job used a (g.same_settings.0 ∙ on) recorded_own)
      ∙ if_false _ _ policy

  -- Releasing what was just granted gives every GPU back as it was.
  pub release-Granted_gpus : IsTidy m → (i : ℕ) → find (release m' job used).gpus i ≡ find m.gpus i
  release-Granted_gpus tidy i =
      let back = find-modify_all vacate (λ g. refl) (λ g. refl) m'.gpus a.gpu_indices i in
      elim (Bool-cases (contains a.gpu_indices i)) [
        | inl mine ↦
            let (h, found, free, marked) = g.given i mine in
            let same : vacate h ≡ h = tidy i h found (ground arith) in
            rw released_gpus (ground (arith, back))
        | inr theirs ↦ rw released_gpus (ground (arith, back, g.others i theirs))
      ]

  pub release-Granted_allocations :
      Map.get m.allocations job ≡ none
      → (j : String) → Map.get (release m' job used).allocations j ≡ Map.get m.allocations j
  unfolding release_allocation
  release-Granted_allocations fresh j =
      let step =
        ap (λ (x : Manager). Map.get x.allocations j)
          (release-recorded m' job used a (g.same_settings.0 ∙ on) recorded_own) in
      ground (
        arith,
        step,
        Map.get-remove m'.allocations job j,
        g.recorded j,
        Map.get-put m.allocations job j a,
        eq_iff job j,
      )

-- With distinct indices, idle GPUs that carry no mark of a job, and a scrub policy other than strict,
-- releasing what was just granted to a job without an allocation restores the pool: every index finds
-- the GPU that it found before the grant, and every job has the record that it had.
pub release-allocate :
    (m m' : Manager) (job : String) (k : ℕ) (need : ℤ) (now : ℕ) (a : GpuAllocation)
    (used : ℕ → Option ℤ)
    → Distinct (indices m.gpus)
    → IsTidy m
    → str_eq m.scrub_policy "strict" ≡ false
    → Map.get m.allocations job ≡ none
    → allocate m job (pos (suc k)) need now ≡ (m', ok a)
    → ((i : ℕ) → find (release m' job used).gpus i ≡ find m.gpus i)
      × ((j : String) → Map.get (release m' job used).allocations j ≡ Map.get m.allocations j)
release-allocate m m' job k need now a used d tidy lenient fresh e =
    undo (allocate-Answer m job (pos (suc k)) need now d)
  where
    Undone : Type 0
    Undone =
        ((i : ℕ) → find (release m' job used).gpus i ≡ find m.gpus i)
        × ((j : String) → Map.get (release m' job used).allocations j ≡ Map.get m.allocations j)

    undo : Answer m job (pos (suc k)) need now (allocate m job (pos (suc k)) need now) → Undone
    undo (off _ f) = absurd (cc)
    undo (bad_count _ h _) = absurd (omega arith)
    undo (again b _ _ held f) = absurd (cc)
    undo (short _ _ _ _ _ f) = absurd (cc)
    undo (granted c x b on _ _ _ f g) =
        let same : x ≡ m' = ap (λ (r : Manager × Result GpuError GpuAllocation). r.0) (sym f ∙ e) in
        subst
          (λ (y : Manager).
            ((i : ℕ) → find (release y job used).gpus i ≡ find m.gpus i)
            × ((j : String) → Map.get (release y job used).allocations j ≡ Map.get m.allocations j))
          same
          (
            release-Granted_gpus g used on lenient tidy,
            release-Granted_allocations g used on lenient fresh,
          )
