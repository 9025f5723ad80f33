-- ===== src/Jobs/Prefix.antt =====
-- Shortened UUIDs: resolveUuidByPrefix of internal/joblet/adapters/job_store_adapter.go.
use joblet.Prelude.{
  ◌≡◌, true, false, String, len, starts_with, some, [], ◌∷◌, ok, arith, eq_iff, ◌==◌, keep,
  Bool-cases, inl, inr,
}
use joblet.Prelude.Map.{Map}
use joblet.Prelude.Map
use joblet.Jobs.Domain.{Job}
use joblet.Jobs.{JobStore, resolve_uuid_by_prefix, only_uuid, keys}

-- A text that no key of a map equals is nowhere in it.
keep-keys-none :
    (p : String) (m : Map Job) (k : String) (t : Job)
    → keep (λ u. starts_with u p) (keys m) ≡ []
    → Map.get m k ≡ some t
    → starts_with k p ≡ false
unfolding keys Map.get
keep-keys-none p [] k t e h = absurd (ground arith)
keep-keys-none p ((j, v) ∷ m) k t e h = ground (arith, keep-keys-none p m k t, eq_iff j k)

only_one :
    (p : String) (m : Map Job) (u : String)
    → keep (λ x. starts_with x p) (keys m) ≡ u ∷ []
    → ((t : Job) × (Map.get m u ≡ some t))
      × (starts_with u p ≡ true)
      × ((k : String) (t : Job) → Map.get m k ≡ some t → starts_with k p ≡ true → k ≡ u)
unfolding keys Map.get
only_one p [] u e = absurd (cc)
only_one p ((j, v) ∷ m) u e = elim (Bool-cases (starts_with j p)) [
  | inl begins ↦
      let same : j ≡ u = ground arith in
      let rest : keep (λ x. starts_with x p) (keys m) ≡ [] = ground arith in
      (
        (v, ground (arith, eq_iff j u)),
        ground arith,
        λ k t h b. ground (arith, keep-keys-none p m k t rest, eq_iff j k),
      )
  | inr other ↦
      let rest : keep (λ x. starts_with x p) (keys m) ≡ u ∷ [] = ground arith in
      let ((t, found), begins, unique) = only_one p m u rest in
      ((t, ground (arith, eq_iff j u)), begins, λ k t' h b. ground (arith, unique k t', eq_iff j k))
]

-- A shortened UUID that resolves stands for a task: the only one whose UUID begins with it.
pub resolve_uuid_by_prefix_unique :
    (s : JobStore) (p u : String)
    → (len p == 36) ≡ false
    → resolve_uuid_by_prefix s p ≡ ok u
    → ((t : Job) × (Map.get s.tasks u ≡ some t))
      × (starts_with u p ≡ true)
      × ((k : String) (t : Job) → Map.get s.tasks k ≡ some t → starts_with k p ≡ true → k ≡ u)
unfolding resolve_uuid_by_prefix only_uuid
resolve_uuid_by_prefix_unique s p u short e = only_one p s.tasks u (ground arith)
