-- ===== src/Volume/Usage.antt =====
-- The volume store of internal/joblet/adapters/volume_store_adapter.go as a table of use counts.
use joblet.Prelude.{
  ℕ, ◌≡◌, refl, sym, ◌∙◌, ap, true, false, String, Option, none, some, List, [], ◌∷◌, arith, str_eq,
  eq_iff, Option-cases, inl, inr, ltb, if◌then◌else◌, ◌⊎◌, ◌+◌, pred, subst,
}
use joblet.Prelude.Map
use joblet.Volume.Kinds.{Volume}
use joblet.Volume.{
  VolumeStore, VolumeError, validate_volume, store_volume, create_volume, job_count, remove_volume,
  increment_job_count, decrement_job_count, new_store,
}
use joblet.Volume.Tracking.{
  is_some, IsTracked, tracked, Call, creates, removes, increments, decrements, call, run,
  new_store-IsTracked, validated-named, create_volume-open, remove_volume-open,
  increment_job_count-open, decrement_job_count-open,
}

-- How often a volume is in use; none for a name without a volume
pub usage : VolumeStore → String → Option ℕ
usage s j = elim (Map.get s.volumes j) [ none ↦ none | some v ↦ some (job_count s j) ]

-- What a call means for the entry of the name j in a table of use counts
pub expected : Call → String → Option ℕ → Option ℕ
expected (creates now none) j u = u
expected (creates now (some v)) j u = elim (validate_volume v) [
  | some e ↦ u
  | none ↦ if str_eq v.name j then some 0 else u
]
expected (removes name) j none = none
expected (removes name) j (some n) =
    if str_eq name j then (if ltb 0 n then some n else none) else some n
expected (increments name) j none = none
expected (increments name) j (some n) = if str_eq name j then some (n + 1) else some n
expected (decrements name) j none = none
expected (decrements name) j (some n) = if str_eq name j then some (pred n) else some n

pub expected_run : List Call → String → Option ℕ → Option ℕ
expected_run [] j u = u
expected_run (c ∷ cs) j u = expected_run cs j (expected c j u)

-- The store after a call is tracked, and its table is the one the call means.
abbrev Refines : Call → VolumeStore → VolumeStore → Type 0
Refines c s t = IsTracked t × ((j : String) → usage t j ≡ expected c j (usage s j))

store_volume-Refines :
    (now : ℕ) (s : VolumeStore) (v : Volume)
    → validate_volume v ≡ none
    → IsTracked s
    → Refines (creates now (some v)) s (store_volume now s v)
unfolding store_volume is_some usage expected job_count
store_volume-Refines now s v valid (tracked o same bare) = (
  tracked o (λ j. ground (arith, same j, put j, count j))
      (ground (arith, put "", validated-named v valid)),
  λ j. ground (arith, put j, count j),
)
  where
    put :
        (j : String)
        → Map.get (Map.put s.volumes v.name (record v { created_time = now })) j ≡ (
            if str_eq v.name j then some (record v { created_time = now }) else Map.get s.volumes j)
    put j = Map.get-put s.volumes v.name j (record v { created_time = now })

    count :
        (j : String)
        → Map.get (Map.put s.job_counts v.name 0) j
          ≡ (if str_eq v.name j then some 0 else Map.get s.job_counts j)
    count j = Map.get-put s.job_counts v.name j 0

removed-Refines :
    (s : VolumeStore) (name : String)
    → job_count s name ≡ 0
    → IsTracked s
    → Refines (removes name) s (record s {
      volumes = Map.remove s.volumes name;
      job_counts = Map.remove s.job_counts name;
    })
unfolding is_some usage expected job_count
removed-Refines s name idle (tracked o same bare) = (
  tracked o
      (λ j.
        ground (arith, same j, Map.get-remove s.volumes name j, Map.get-remove s.job_counts name j))
      (ground (arith, Map.get-remove s.volumes name "")),
  λ j. ground (
    arith,
    Map.get-remove s.volumes name j,
    Map.get-remove s.job_counts name j,
    eq_iff name j,
    same j,
  ),
)

counted-Refines :
    (s : VolumeStore) (name : String) (n : ℕ) (c : Call)
    → is_some (Map.get s.volumes name) ≡ true
    → ((j : String)
        → expected c j (some (job_count s j))
          ≡ (if str_eq name j then some n else some (job_count s j)))
    → ((j : String) → expected c j none ≡ none)
    → IsTracked s
    → Refines c s (record s { job_counts = Map.put s.job_counts name n })
unfolding is_some usage job_count
counted-Refines s name n c there some_means none_means (tracked o same bare) = (
  tracked o (λ j. ground (arith, same j, same name, count j, eq_iff name j)) bare,
  λ j. elim (Option-cases (Map.get s.volumes j)) [
    | inl missing ↦ ground (arith, none_means j)
    | inr (v, found) ↦ ground (arith, some_means j, count j)
  ],
)
  where
    count :
        (j : String)
        → Map.get (Map.put s.job_counts name n) j
          ≡ (if str_eq name j then some n else Map.get s.job_counts j)
    count j = Map.get-put s.job_counts name j n

removes-stays :
    (s : VolumeStore) (name : String)
    → (ltb 0 (job_count s name) ≡ true) ⊎ (Map.get s.volumes name ≡ none)
    → (j : String) → expected (removes name) j (usage s j) ≡ usage s j
unfolding expected usage job_count
removes-stays s name why j = ground (arith, eq_iff name j)

increments-stays :
    (s : VolumeStore) (name : String)
    → Map.get s.volumes name ≡ none
    → (j : String) → expected (increments name) j (usage s j) ≡ usage s j
unfolding expected usage job_count
increments-stays s name missing j = ground (arith, eq_iff name j)

decrements-stays :
    (s : VolumeStore) (name : String)
    → (Map.get s.volumes name ≡ none) ⊎ (job_count s name ≡ 0)
    → (j : String) → expected (decrements name) j (usage s j) ≡ usage s j
unfolding expected usage job_count
decrements-stays s name why j = ground (arith, eq_iff name j)

increments-means :
    (s : VolumeStore) (name j : String)
    → expected (increments name) j (some (job_count s j))
      ≡ (if str_eq name j then some (job_count s name + 1) else some (job_count s j))
unfolding expected job_count
increments-means s name j = ground (arith, eq_iff name j)

decrements-means :
    (s : VolumeStore) (name j : String)
    → expected (decrements name) j (some (job_count s j))
      ≡ (if str_eq name j then some (pred (job_count s name)) else some (job_count s j))
unfolding expected job_count
decrements-means s name j = ground (arith, eq_iff name j)

same-Refines :
    (c : Call) (s t : VolumeStore)
    → t ≡ s
    → ((j : String) → expected c j (usage s j) ≡ usage s j)
    → IsTracked s
    → Refines c s t
same-Refines c s t e stays tr =
    subst (λ (x : VolumeStore). Refines c s x) (sym e) (tr, λ j. sym (stays j))

open_store : (s : VolumeStore) → IsTracked s → s.closed ≡ false
open_store s (tracked o same bare) = o

create_nil : (now : ℕ) (s : VolumeStore) → (create_volume now s none).0 ≡ s
unfolding create_volume
create_nil now s = ground arith

create_volume-stores :
    (now : ℕ) (s : VolumeStore) (v : Volume)
    → s.closed ≡ false
    → validate_volume v ≡ none
    → (create_volume now s (some v)).0 ≡ store_volume now s v
create_volume-stores now s v o valid = ground (arith, create_volume-open now s v o)

create_volume-refuses :
    (now : ℕ) (s : VolumeStore) (v : Volume) (e : VolumeError)
    → s.closed ≡ false
    → validate_volume v ≡ some e
    → (create_volume now s (some v)).0 ≡ s
create_volume-refuses now s v e o invalid = ground (arith, create_volume-open now s v o)

creates-stays :
    (now : ℕ) (s : VolumeStore) (v : Volume) (e : VolumeError)
    → validate_volume v ≡ some e
    → (j : String) → expected (creates now (some v)) j (usage s j) ≡ usage s j
unfolding expected
creates-stays now s v e invalid j = ground arith

call-Refines : (c : Call) (s : VolumeStore) → IsTracked s → Refines c s (call c s)
unfolding call expected
call-Refines (creates now none) s tr =
    same-Refines (creates now none) s (create_volume now s none).0 (create_nil now s) (λ j. refl) tr
call-Refines (creates now (some v)) s tr = elim (Option-cases (validate_volume v)) [
  | inl valid ↦
      subst (λ (x : VolumeStore). Refines (creates now (some v)) s x)
        (sym (create_volume-stores now s v (open_store s tr) valid))
        (store_volume-Refines now s v valid tr)
  | inr (e, invalid) ↦
      same-Refines (creates now (some v)) s (create_volume now s (some v)).0
        (create_volume-refuses now s v e (open_store s tr) invalid)
        (creates-stays now s v e invalid) tr
]
call-Refines (removes name) s tr = elim (remove_volume-open s name tr) [
  | inl (e, why) ↦
      same-Refines (removes name) s (remove_volume s name).0 e (removes-stays s name why) tr
  | inr (idle, e) ↦
      subst (λ (x : VolumeStore). Refines (removes name) s x) (sym e)
        (removed-Refines s name idle tr)
]
call-Refines (increments name) s tr = elim (increment_job_count-open s name tr) [
  | inl (e, missing) ↦
      same-Refines (increments name) s (increment_job_count s name).0 e
        (increments-stays s name missing) tr
  | inr (there, e) ↦
      subst (λ (x : VolumeStore). Refines (increments name) s x) (sym e)
        (counted-Refines s name _ (increments name) there (increments-means s name) (λ j. refl) tr)
]
call-Refines (decrements name) s tr = elim (decrement_job_count-open s name tr) [
  | inl (e, why) ↦
      same-Refines (decrements name) s (decrement_job_count s name).0 e
        (decrements-stays s name why) tr
  | inr (there, e) ↦
      subst (λ (x : VolumeStore). Refines (decrements name) s x) (sym e)
        (counted-Refines s name _ (decrements name) there (decrements-means s name) (λ j. refl) tr)
]

usage-run_from :
    (cs : List Call) (s : VolumeStore) (j : String)
    → IsTracked s
    → usage (run cs s) j ≡ expected_run cs j (usage s j)
unfolding run expected_run
usage-run_from [] s j tr = refl
usage-run_from (c ∷ cs) s j tr =
    let (after, means) = call-Refines c s tr in
    usage-run_from cs (call c s) j after ∙ ap (expected_run cs j) (means j)

usage-new_store : (j : String) → usage new_store j ≡ none
unfolding usage new_store Map.get
usage-new_store j = refl

-- After any calls of the volume store, none of which begins before the one before it has ended, its
-- volumes and counts are the table that the calls mean: a creation sets the count of its name to 0,
-- even of a volume that exists, an increment adds 1 and a decrement takes 1 where there is a volume,
-- and a removal strikes out a volume with count 0.
pub usage-run : (cs : List Call) (j : String) → usage (run cs new_store) j ≡ expected_run cs j none
usage-run cs j =
    usage-run_from cs new_store j new_store-IsTracked ∙ ap (expected_run cs j) (usage-new_store j)
