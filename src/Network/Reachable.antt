-- ===== src/Network/Reachable.antt =====
-- The store's calls as steps: each keeps every assignment's network in place.
use joblet.Prelude.{
  ℕ, ◌≡◌, ◌≢◌, ◌⊎◌, sym, ◌∙◌, ap, inl, inr, true, ◌||◌, String, Option, none, some, arith, length,
  keep, Bool-cases, Option-cases, str_eq, eq_iff, if_true, ltb, subst,
}
use joblet.Prelude.Map.{Map}
use joblet.Prelude.Map
use joblet.Network.{
  NetworkConfig, JobNetworkAllocation, NetworkStore, diverges, new_store, create_network, network,
  list_jobs_in_network, remove_network, assign_job_to_network, job_network_allocation, allocate_ip,
  release_ip, remove_job_from_network, close,
}
use joblet.Network.Address.{NetPackage}
use joblet.Network.Links.{
  exists_in, IsLinked, create_network-IsLinked, same_links, exists_in-remove,
}

-- The calls that change the store. A call of CreateNetwork that does not end takes no step.
pub data Step (net : NetPackage) (s : NetworkStore) : NetworkStore → Type 0 where
  creates :
      (rounds now : ℕ) (c : Option NetworkConfig)
      → (create_network net rounds now s c).1 ≢ some diverges
      → Step net s (create_network net rounds now s c).0
  removes : (name : String) → Step net s (remove_network s name).0
  assigns :
      (now : ℕ) (job name : String) (a : Option JobNetworkAllocation)
      → Step net s (assign_job_to_network now s job name a).0
  unassigns : (job : String) → Step net s (remove_job_from_network s job).0
  lends : (name : String) → Step net s (allocate_ip s name).0
  takes_back : (name ip : String) → Step net s (release_ip s name ip).0
  closes : Step net s (close s)

pub data Reach (net : NetPackage) : NetworkStore → Type 0 where
  start : Reach net new_store
  next : {s t : NetworkStore} → Reach net s → Step net s t → Reach net t

remove_network-cases :
    (s : NetworkStore) (name : String)
    → ((remove_network s name).0 ≡ s)
      ⊎ ((length (keep (λ a. str_eq a.network_name name) (Map.values s.allocations)) ≡ 0)
          × ((remove_network s name).0.networks ≡ Map.remove s.networks name)
          × ((remove_network s name).0.allocations ≡ s.allocations))
unfolding remove_network list_jobs_in_network
remove_network-cases s name = elim (Bool-cases (s.closed || str_eq name "")) [
  | inl early ↦ inl (ground arith)
  | inr late ↦
      elim (Bool-cases
        (ltb 0 (length (keep (λ a. str_eq a.network_name name) (Map.values s.allocations))))) [
          | inl busy ↦ inl (ground arith)
          | inr idle ↦ elim (Option-cases (Map.get s.networks name)) [
            | inl missing ↦ inl (ground arith)
            | inr (c, found) ↦ inr (ground arith, ground arith, ground arith)
          ]
        ]
]

-- RemoveNetwork takes away only a network that no assignment names.
remove_network-IsLinked :
    (s : NetworkStore) (name : String) → IsLinked s → IsLinked (remove_network s name).0
remove_network-IsLinked s name v = elim (remove_network-cases s name) [
  | inl same ↦ rw same v
  | inr (idle, n, a) ↦ λ job b e.
      let old : Map.get s.allocations job ≡ some b =
        ap (λ (m : Map JobNetworkAllocation). Map.get m job) (sym a) ∙ e in
      let other =
        Map.keep-values (λ (x : JobNetworkAllocation). str_eq x.network_name name) s.allocations job
          b idle old in
      rw n (
        exists_in-remove s.networks name b.network_name
          (ground (arith, eq_iff b.network_name name, eq_iff name b.network_name)) (v job b old))
]

assign-cases :
    (now : ℕ) (s : NetworkStore) (job name : String) (a : JobNetworkAllocation)
    → ((assign_job_to_network now s job name (some a)).0 ≡ s)
      ⊎ ((exists_in s.networks name ≡ true)
          × ((assign_job_to_network now s job name (some a)).0.networks ≡ s.networks)
          × ((assign_job_to_network now s job name (some a)).0.allocations
              ≡ Map.put s.allocations job
                  (record a { assigned_at = now; job_uuid = job; network_name = name })))
unfolding assign_job_to_network network exists_in
assign-cases now s job name a = elim (Bool-cases (s.closed || (str_eq job "" || str_eq name ""))) [
  | inl early ↦ inl (ground arith)
  | inr late ↦ elim (Option-cases (Map.get s.networks name)) [
    | inl missing ↦ inl (ground arith)
    | inr (c, found) ↦ inr (ground arith, ground arith, ground arith)
  ]
]

assign-IsLinked :
    (now : ℕ) (s : NetworkStore) (job name : String) (a : Option JobNetworkAllocation)
    → IsLinked s
    → IsLinked (assign_job_to_network now s job name a).0
assign-IsLinked now s job name none v = unfold assign_job_to_network in v
assign-IsLinked now s job name (some a) v = elim (assign-cases now s job name a) [
  | inl same ↦ rw same v
  | inr (there, n, put) ↦ λ k b e.
      let placed =
        Map.get-put s.allocations job k
          (record a { assigned_at = now; job_uuid = job; network_name = name }) in
      let at : Map.get
            (Map.put s.allocations job
              (record a { assigned_at = now; job_uuid = job; network_name = name }))
            k
          ≡ some b =
        ap (λ (m : Map JobNetworkAllocation). Map.get m k) (sym put) ∙ e in
      elim (Bool-cases (str_eq job k)) [
        | inl own ↦ let named : name ≡ b.network_name = ground arith in rw (n, ← named) there
        | inr other ↦ rw n (v k b (ground arith))
      ]
]

release_ip-same :
    (s : NetworkStore) (name ip : String)
    → ((release_ip s name ip).0.networks ≡ s.networks)
      × ((release_ip s name ip).0.allocations ≡ s.allocations)
unfolding release_ip
release_ip-same s name ip = ground arith

allocate_ip-same :
    (s : NetworkStore) (name : String)
    → ((allocate_ip s name).0.networks ≡ s.networks)
      × ((allocate_ip s name).0.allocations ≡ s.allocations)
unfolding allocate_ip
allocate_ip-same s name = ground arith

remove_job-cases :
    (s : NetworkStore) (job : String)
    → ((remove_job_from_network s job).0 ≡ s)
      ⊎ (((remove_job_from_network s job).0.networks ≡ s.networks)
          × ((remove_job_from_network s job).0.allocations ≡ Map.remove s.allocations job))
unfolding remove_job_from_network
remove_job-cases s job = elim (Bool-cases (s.closed || str_eq job "")) [
  | inl early ↦ inl (ground arith)
  | inr late ↦ elim (Option-cases (job_network_allocation s job)) [
    | inl missing ↦ inl (ground arith)
    | inr (a, found) ↦
        let kept = release_ip-same s a.network_name a.ip_address in inr (ground arith, ground arith)
  ]
]

remove_job-IsLinked :
    (s : NetworkStore) (job : String) → IsLinked s → IsLinked (remove_job_from_network s job).0
remove_job-IsLinked s job v = elim (remove_job-cases s job) [
  | inl same ↦ rw same v
  | inr (n, a) ↦ λ k b e.
      let at : Map.get (Map.remove s.allocations job) k ≡ some b =
        ap (λ (m : Map JobNetworkAllocation). Map.get m k) (sym a) ∙ e in
      rw n (v k b (ground (arith, Map.get-remove s.allocations job k)))
]

-- Close on an open store drops every assignment with the networks.
close-IsLinked : (s : NetworkStore) → IsLinked s → IsLinked (close s)
unfolding close
close-IsLinked s v = elim (Bool-cases s.closed) [
  | inl shut ↦ subst IsLinked (sym (if_true _ _ shut)) v
  | inr running ↦ λ job a e. absurd (ground (arith, Map.get_nil {V = JobNetworkAllocation} job))
]

Step-IsLinked : (net : NetPackage) {s t : NetworkStore} → Step net s t → IsLinked s → IsLinked t
Step-IsLinked net {s} (creates rounds now c ends) v =
    create_network-IsLinked net rounds now s c ends v
Step-IsLinked net {s} (removes name) v = remove_network-IsLinked s name v
Step-IsLinked net {s} (assigns now job name a) v = assign-IsLinked now s job name a v
Step-IsLinked net {s} (unassigns job) v = remove_job-IsLinked s job v
Step-IsLinked net {s} (lends name) v =
    same_links s (allocate_ip s name).0 (allocate_ip-same s name).0 (allocate_ip-same s name).1 v
Step-IsLinked net {s} (takes_back name ip) v =
    same_links s (release_ip s name ip).0 (release_ip-same s name ip).0
      (release_ip-same s name ip).1 v
Step-IsLinked net {s} closes v = close-IsLinked s v

-- After any calls of the network store, none of which begins before the one before it has ended,
-- every job assignment names a network that exists. A CreateNetwork that does not end takes no step.
pub Reach-IsLinked : (net : NetPackage) {s : NetworkStore} → Reach net s → IsLinked s
Reach-IsLinked net start =
    λ job a e. absurd (ground (arith, Map.get_nil {V = JobNetworkAllocation} job))
Reach-IsLinked net (next r st) = Step-IsLinked net st (Reach-IsLinked net r)
