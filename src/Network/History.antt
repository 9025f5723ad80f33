-- ===== src/Network/History.antt =====
-- Each call of internal/joblet/adapters/network_store_adapter.go keeps every address once in its pool.
use joblet.Prelude.{
  ℕ, ◌≡◌, refl, sym, ◌∙◌, ap, ◌||◌, String, Option, none, some, arith, inl, inr, Bool-cases,
  Option-cases, length, str_eq, if◌then◌else◌, subst, Result, ok, err, Result-cases, if_true,
  if_false, ◌⊎◌, ltb,
}
use joblet.Prelude.Map
use joblet.Network.{
  NetworkConfig, JobNetworkAllocation, NetworkStore, NetError, initialize_ip_pool, store_network,
  create_network, remove_network, assign_job_to_network, allocate_ip, release_ip,
  remove_job_from_network, close, validate_network_config, list_jobs_in_network,
  job_network_allocation,
}
use joblet.Network.Address.{NetPackage}
use joblet.Network.Pool.{IpPool}
use joblet.Network.Copies.{IsSound}
use joblet.Network.Sound.{IsFaithful, build_pool-IsSound}
use joblet.Network.Lending.{AllSound, allocate_ip-lends, release_ip-returns}
use joblet.Network.Reachable.{
  Reach, start, next, Step, creates, removes, assigns, unassigns, lends, takes_back, closes,
}

same_pools : (s t : NetworkStore) → t.ip_pools ≡ s.ip_pools → AllSound s → AllSound t
same_pools s t e v name p f = v name p (ap (λ (m : Map.Map IpPool). Map.get m name) (sym e) ∙ f)

removed_pool :
    (s t : NetworkStore) (name : String)
    → t.ip_pools ≡ Map.remove s.ip_pools name
    → AllSound s
    → AllSound t
removed_pool s t name e v other p f = v other p (
    ground
      (arith, Map.get-remove s.ip_pools name other, ap (λ (m : Map.Map IpPool). Map.get m other) e))

fresh_pool :
    (s t : NetworkStore) (name : String) (q : IpPool)
    → t.ip_pools ≡ Map.put s.ip_pools name q
    → IsSound q
    → AllSound s
    → AllSound t
fresh_pool s t name q e sound v other p f = elim (Bool-cases (str_eq name other)) [
  | inl own ↦ let same : q ≡ p = ground (arith, read) in subst IsSound same sound
  | inr foreign ↦ v other p (ground (arith, read))
]
  where
    read : (if str_eq name other then some q else Map.get s.ip_pools other) ≡ some p
    read =
        sym (Map.get-put s.ip_pools name other q)
        ∙ ap (λ (m : Map.Map IpPool). Map.get m other) (sym e)
        ∙ f

initialize_ip_pool-IsSound :
    (net : NetPackage) (rounds : ℕ) (cidr : String) (p : IpPool)
    → IsFaithful net
    → initialize_ip_pool net rounds cidr ≡ ok p
    → IsSound p
unfolding initialize_ip_pool
initialize_ip_pool-IsSound net rounds cidr p f e = elim (Option-cases (net.parse_cidr cidr)) [
  | inl bad ↦ absurd (ground arith)
  | inr (n, parsed) ↦ build_pool-IsSound net rounds n p f (ground arith)
]

-- The pools after CreateNetwork: the same, or a new one for the name
create_network-pools :
    (net : NetPackage) (rounds now : ℕ) (s : NetworkStore) (c : NetworkConfig)
    → ((create_network net rounds now s (some c)).0.ip_pools ≡ s.ip_pools)
      ⊎ ((q : IpPool) × (initialize_ip_pool net rounds c.cidr ≡ ok q)
          × ((create_network net rounds now s (some c)).0.ip_pools ≡ Map.put s.ip_pools c.name q))
unfolding create_network store_network
create_network-pools net rounds now s c =
    elim (Result-cases (initialize_ip_pool net rounds c.cidr)) [
      | inl (e, failed) ↦ inl (ground arith)
      | inr (q, made) ↦ elim (Bool-cases (s.closed || str_eq c.name "")) [
        | inl early ↦ inl (ground arith)
        | inr late ↦ elim (Option-cases (validate_network_config net c)) [
          | inr (e, invalid) ↦ inl (ground arith)
          | inl valid ↦ elim (Bool-cases (str_eq c.cidr "")) [
            | inl bare ↦ inl (ground arith)
            | inr has_cidr ↦ inr (q, made, ground arith)
          ]
        ]
      ]
    ]

remove_network-pools :
    (s : NetworkStore) (name : String)
    → ((remove_network s name).0.ip_pools ≡ s.ip_pools)
      ⊎ ((remove_network s name).0.ip_pools ≡ Map.remove s.ip_pools name)
unfolding remove_network
remove_network-pools s name =
    elim (Bool-cases
      (s.closed || (str_eq name "" || ltb 0 (length (list_jobs_in_network s name))))) [
        | inl early ↦ inl (ground arith)
        | inr late ↦ elim (Option-cases (Map.get s.networks name)) [
          | inl missing ↦ inl (ground arith)
          | inr (c, found) ↦ inr (ground arith)
        ]
      ]

assign-pools :
    (now : ℕ) (s : NetworkStore) (job name : String) (a : Option JobNetworkAllocation)
    → (assign_job_to_network now s job name a).0.ip_pools ≡ s.ip_pools
unfolding assign_job_to_network
assign-pools now s job name none = refl
assign-pools now s job name (some a) = ground arith

allocate_ip-err :
    (s : NetworkStore) (name : String) (e : NetError)
    → (allocate_ip s name).1 ≡ err e
    → (allocate_ip s name).0.ip_pools ≡ s.ip_pools
unfolding allocate_ip
allocate_ip-err s name e f = ground arith

release_ip-some :
    (s : NetworkStore) (name ip : String) (e : NetError)
    → (release_ip s name ip).1 ≡ some e
    → (release_ip s name ip).0.ip_pools ≡ s.ip_pools
unfolding release_ip
release_ip-some s name ip e f = ground arith

allocate_ip-AllSound :
    (s : NetworkStore) (name : String) → AllSound s → AllSound (allocate_ip s name).0
allocate_ip-AllSound s name v = elim (Result-cases (allocate_ip s name).1) [
  | inl (e, failed) ↦ same_pools s (allocate_ip s name).0 (allocate_ip-err s name e failed) v
  | inr (ip, lent) ↦
      let (before, after, copies_kept, sound) =
        allocate_ip-lends s (allocate_ip s name).0 name ip v
          (ap (λ (r : Result NetError String). ((allocate_ip s name).0, r)) lent) in
      sound
]

release_ip-AllSound :
    (s : NetworkStore) (name ip : String) → AllSound s → AllSound (release_ip s name ip).0
release_ip-AllSound s name ip v = elim (Option-cases (release_ip s name ip).1) [
  | inr (e, failed) ↦ same_pools s (release_ip s name ip).0 (release_ip-some s name ip e failed) v
  | inl returned ↦
      let (before, after, copies_kept, sound) =
        release_ip-returns s (release_ip s name ip).0 name ip v
          (ap (λ (r : Option NetError). ((release_ip s name ip).0, r)) returned) in
      sound
]

-- The pools after RemoveJobFromNetwork: the same, or those after a ReleaseIP
remove_job-pools :
    (s : NetworkStore) (job : String)
    → ((remove_job_from_network s job).0.ip_pools ≡ s.ip_pools)
      ⊎ ((name ip : String) × ((remove_job_from_network s job).0.ip_pools
            ≡ (release_ip s name ip).0.ip_pools))
unfolding remove_job_from_network
remove_job-pools s job = elim (Bool-cases (s.closed || str_eq job "")) [
  | inl early ↦ inl (ground arith)
  | inr late ↦ elim (Option-cases (job_network_allocation s job)) [
    | inl missing ↦ inl (ground arith)
    | inr (a, found) ↦ elim (Bool-cases (str_eq a.ip_address "")) [
      | inl bare ↦ inl (ground arith)
      | inr has_ip ↦ inr (a.network_name, a.ip_address, ground arith)
    ]
  ]
]

remove_job-AllSound :
    (s : NetworkStore) (job : String) → AllSound s → AllSound (remove_job_from_network s job).0
remove_job-AllSound s job v = elim (remove_job-pools s job) [
  | inl same ↦ same_pools s (remove_job_from_network s job).0 same v
  | inr (name, ip, e) ↦
      same_pools (release_ip s name ip).0 (remove_job_from_network s job).0 e
        (release_ip-AllSound s name ip v)
]

create_network-AllSound :
    (net : NetPackage) (rounds now : ℕ) (s : NetworkStore) (c : Option NetworkConfig)
    → IsFaithful net
    → AllSound s
    → AllSound (create_network net rounds now s c).0
create_network-AllSound net rounds now s none f v = unfold create_network in v
create_network-AllSound net rounds now s (some c) f v =
    elim (create_network-pools net rounds now s c) [
      | inl same ↦ same_pools s (create_network net rounds now s (some c)).0 same v
      | inr (q, made, e) ↦
          fresh_pool s (create_network net rounds now s (some c)).0 c.name q e
            (initialize_ip_pool-IsSound net rounds c.cidr q f made) v
    ]

close-AllSound : (s : NetworkStore) → AllSound s → AllSound (close s)
unfolding close
close-AllSound s v = elim (Bool-cases s.closed) [
  | inl shut ↦ subst AllSound (sym (if_true _ _ shut)) v
  | inr running ↦
      subst AllSound (sym (if_false _ _ running))
        (λ name p e. absurd (ground (arith, Map.get_nil {V = IpPool} name)))
]

Step-AllSound :
    (net : NetPackage) {s t : NetworkStore}
    → IsFaithful net
    → Step net s t
    → AllSound s
    → AllSound t
Step-AllSound net {s} f (creates rounds now c ends) v =
    create_network-AllSound net rounds now s c f v
Step-AllSound net {s} f (removes name) v = elim (remove_network-pools s name) [
  | inl same ↦ same_pools s (remove_network s name).0 same v
  | inr gone ↦ removed_pool s (remove_network s name).0 name gone v
]
Step-AllSound net {s} f (assigns now job name a) v =
    same_pools s (assign_job_to_network now s job name a).0 (assign-pools now s job name a) v
Step-AllSound net {s} f (unassigns job) v = remove_job-AllSound s job v
Step-AllSound net {s} f (lends name) v = allocate_ip-AllSound s name v
Step-AllSound net {s} f (takes_back name ip) v = release_ip-AllSound s name ip v
Step-AllSound net {s} f closes v = close-AllSound s v

-- When different addresses of one length print differently, then after any calls in any order on an
-- empty store, every pool has each address at most once, free or lent. A call of CreateNetwork that
-- does not end is left out.
pub Reach-AllSound :
    (net : NetPackage) {s : NetworkStore} → IsFaithful net → Reach net s → AllSound s
Reach-AllSound net f start = λ name p e. absurd (ground (arith, Map.get_nil {V = IpPool} name))
Reach-AllSound net f (next r st) = Step-AllSound net f st (Reach-AllSound net f r)
