-- ===== src/Volume/Tracking.antt =====
-- Volumes and job counts of internal/joblet/adapters/volume_store_adapter.go have the same names.
use joblet.Prelude.{
  ℕ, ◌≡◌, refl, ap, Bool, true, false, String, Option, none, some, List, [], ◌∷◌, arith, str_eq,
  eq_iff, Bool-cases, Option-cases, inl, inr, ltb, if◌then◌else◌, ◌⊎◌, ◌+◌, pred,
}
use joblet.Prelude.Map.{Map}
use joblet.Prelude.Map
use joblet.Volume.Kinds.{Volume}
use joblet.Volume.{
  VolumeStore, empty_name, new_store, validate_volume, store_volume, create_volume, get_volume,
  job_count, remove_volume, increment_job_count, decrement_job_count,
}

unfoldable pub is_some {ℓ} : {A : Type ℓ} → Option A → Bool
is_some none = false
is_some (some _) = true

-- An open store whose counts are those of its volumes, none of them nameless
pub data IsTracked (s : VolumeStore) : Type 0 where
  tracked :
      s.closed ≡ false
      → ((j : String) → is_some (Map.get s.volumes j) ≡ is_some (Map.get s.job_counts j))
      → is_some (Map.get s.volumes "") ≡ false
      → IsTracked s

-- The calls on an open store that change it
pub data Call : Type 0 where
  creates : ℕ → Option Volume → Call
  removes : String → Call
  increments : String → Call
  decrements : String → Call

unfoldable pub call : Call → VolumeStore → VolumeStore
call (creates now v) s = (create_volume now s v).0
call (removes name) s = (remove_volume s name).0
call (increments name) s = (increment_job_count s name).0
call (decrements name) s = (decrement_job_count s name).0

unfoldable pub run : List Call → VolumeStore → VolumeStore
run [] s = s
run (c ∷ cs) s = run cs (call c s)

pub new_store-IsTracked : IsTracked new_store
unfolding new_store is_some
new_store-IsTracked =
    tracked refl (λ j. rw (Map.get_nil {V = Volume} j, Map.get_nil {V = ℕ} j) refl)
      (rw (Map.get_nil {V = Volume} "") refl)

-- What a call does to an open tracked store, a field at a time
pub validated-named : (v : Volume) → validate_volume v ≡ none → str_eq v.name "" ≡ false
unfolding validate_volume
validated-named v e = ground arith

pub create_volume-open :
    (now : ℕ) (s : VolumeStore) (v : Volume)
    → s.closed ≡ false
    → create_volume now s (some v) ≡ (elim (validate_volume v) [
      | some e ↦ (s, some (if str_eq v.name "" then empty_name else e))
      | none ↦ (store_volume now s v, none)
    ])
unfolding create_volume
create_volume-open now s v o = elim (Bool-cases (str_eq v.name "")) [
  | inl bare ↦ elim (Option-cases (validate_volume v)) [
    | inl valid ↦ absurd (ground (arith, validated-named v valid))
    | inr (e, invalid) ↦ ground arith
  ]
  | inr named ↦ ground arith
]

pub remove_volume-open :
    (s : VolumeStore) (name : String)
    → IsTracked s
    → ((remove_volume s name).0 ≡ s)
        × ((ltb 0 (job_count s name) ≡ true) ⊎ (Map.get s.volumes name ≡ none))
      ⊎ (job_count s name ≡ 0)
        × ((remove_volume s name).0 ≡ record s {
          volumes = Map.remove s.volumes name;
          job_counts = Map.remove s.job_counts name;
        })
unfolding remove_volume is_some
remove_volume-open s name (tracked o same bare) = elim (Bool-cases (str_eq name "")) [
  | inl nameless ↦
      let is_bare : name ≡ "" = (eq_iff name "").0 nameless in
      inl (ground arith, inr (rw is_bare (ground arith)))
  | inr named ↦ elim (Bool-cases (ltb 0 (job_count s name))) [
    | inl busy ↦ inl (ground arith, inl busy)
    | inr idle ↦ elim (Option-cases (Map.get s.volumes name)) [
      | inl missing ↦ inl (ground arith, inr missing)
      | inr (v, found) ↦ inr (ground arith, ground arith)
    ]
  ]
]

pub increment_job_count-open :
    (s : VolumeStore) (name : String)
    → IsTracked s
    → ((increment_job_count s name).0 ≡ s) × (Map.get s.volumes name ≡ none)
      ⊎ (is_some (Map.get s.volumes name) ≡ true)
        × ((increment_job_count s name).0
            ≡ record s { job_counts = Map.put s.job_counts name (job_count s name + 1) })
unfolding increment_job_count get_volume is_some
increment_job_count-open s name (tracked o same bare) =
    elim (Option-cases (Map.get s.volumes name)) [
      | inl missing ↦ inl (ground arith, missing)
      | inr (v, found) ↦ elim (Bool-cases (str_eq name "")) [
        | inl nameless ↦
            let is_bare : name ≡ "" = (eq_iff name "").0 nameless in
            absurd (ground (arith, ap (Map.get s.volumes) is_bare))
        | inr named ↦ inr (ground arith, ground arith)
      ]
    ]

pub decrement_job_count-open :
    (s : VolumeStore) (name : String)
    → IsTracked s
    → ((decrement_job_count s name).0 ≡ s)
        × ((Map.get s.volumes name ≡ none) ⊎ (job_count s name ≡ 0))
      ⊎ (is_some (Map.get s.volumes name) ≡ true)
        × ((decrement_job_count s name).0
            ≡ record s { job_counts = Map.put s.job_counts name (pred (job_count s name)) })
unfolding decrement_job_count job_count is_some
decrement_job_count-open s name (tracked o same bare) =
    elim (Option-cases (Map.get s.volumes name)) [
      | inl missing ↦ inl (ground (arith, same name), inl missing)
      | inr (v, found) ↦ elim (Bool-cases (str_eq name "")) [
        | inl nameless ↦
            let is_bare : name ≡ "" = (eq_iff name "").0 nameless in
            absurd (ground (arith, ap (Map.get s.volumes) is_bare))
        | inr named ↦ elim (Bool-cases (ltb 0 (job_count s name))) [
          | inl used ↦ inr (ground arith, ground arith)
          | inr unused ↦ inl (ground arith, inr (ground arith))
        ]
      ]
    ]
