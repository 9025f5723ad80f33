-- ===== src/Network/Links.antt =====
-- Every job's assignment names a network that exists, whatever calls are made in whatever order.
use joblet.Prelude.{
  ℕ, ◌≡◌, ◌≢◌, ◌⊎◌, refl, sym, ◌∙◌, ap, inl, inr, Bool, true, false, ◌||◌, String, Option, none,
  some, Result, ok, err, arith, Bool-cases, Option-cases, str_eq,
}
use joblet.Prelude.Map.{Map}
use joblet.Prelude.Map
use joblet.Network.{
  NetworkConfig, JobNetworkAllocation, NetworkStore, NetError, diverges, parses,
  validate_network_config, build_pool, initialize_ip_pool, store_network, create_network,
}
use joblet.Network.Address.{NetPackage}
use joblet.Network.Pool.{IpPool}

-- Is there a network of that name?
unfoldable pub exists_in : Map NetworkConfig → String → Bool
exists_in m name = elim (Map.get m name) [ none ↦ false | some _ ↦ true ]

abbrev pub IsLinked : NetworkStore → Type 0
IsLinked s =
    (job : String) (a : JobNetworkAllocation)
    → Map.get s.allocations job ≡ some a
    → exists_in s.networks a.network_name ≡ true

exists_in-put :
    (m : Map NetworkConfig) (k : String) (c : NetworkConfig) (n : String)
    → exists_in m n ≡ true
    → exists_in (Map.put m k c) n ≡ true
unfolding exists_in
exists_in-put m k c n h = ground (arith, Map.get-put m k n c)

pub exists_in-remove :
    (m : Map NetworkConfig) (k n : String)
    → str_eq k n ≡ false
    → exists_in m n ≡ true
    → exists_in (Map.remove m k) n ≡ true
unfolding exists_in
exists_in-remove m k n other h = ground (arith, Map.get-remove m k n)

-- An operation that keeps networks and assignments keeps the links.
pub same_links :
    (s t : NetworkStore)
    → t.networks ≡ s.networks
    → t.allocations ≡ s.allocations
    → IsLinked s
    → IsLinked t
same_links s t n a v job b e =
    rw n (v job b (ap (λ (m : Map JobNetworkAllocation). Map.get m job) (sym a) ∙ e))

-- For a config that passed validation the pool's loop can only fail to end.
parses-validated :
    (net : NetPackage) (c : NetworkConfig)
    → validate_network_config net c ≡ none
    → str_eq c.cidr "" ≡ false
    → parses (net.parse_cidr c.cidr) ≡ true
unfolding validate_network_config
parses-validated net c e h = elim (Bool-cases (parses (net.parse_cidr c.cidr))) [
  | inl yes_it_does ↦ yes_it_does
  | inr fails ↦ absurd (ground arith)
]

initialize_ip_pool-err :
    (net : NetPackage) (rounds : ℕ) (cidr : String) (e : NetError)
    → parses (net.parse_cidr cidr) ≡ true
    → initialize_ip_pool net rounds cidr ≡ err e
    → e ≡ diverges
unfolding initialize_ip_pool build_pool parses
initialize_ip_pool-err net rounds cidr e h f = ground arith

store_network-keeps :
    (net : NetPackage) (rounds now : ℕ) (s : NetworkStore) (c : NetworkConfig)
    → validate_network_config net c ≡ none
    → (store_network net rounds now s c).1 ≢ some diverges
    → ((store_network net rounds now s c).0.networks
        ≡ Map.put s.networks c.name (record c { created_at = now; updated_at = now }))
      × ((store_network net rounds now s c).0.allocations ≡ s.allocations)
unfolding store_network
store_network-keeps net rounds now s c valid ends = elim (Bool-cases (str_eq c.cidr "")) [
  | inl bare ↦ (ground arith, ground arith)
  | inr has_cidr ↦ pooled has_cidr (initialize_ip_pool net rounds c.cidr) refl
]
  where
    Kept : Type 0
    Kept =
        ((store_network net rounds now s c).0.networks
          ≡ Map.put s.networks c.name (record c { created_at = now; updated_at = now }))
        × ((store_network net rounds now s c).0.allocations ≡ s.allocations)

    pooled :
        str_eq c.cidr "" ≡ false
        → (r : Result NetError IpPool) → initialize_ip_pool net rounds c.cidr ≡ r
        → Kept
    pooled h (ok p) i = (ground arith, ground arith)
    pooled h (err e) i =
        let same = initialize_ip_pool-err net rounds c.cidr e (parses-validated net c valid h) i in
        absurd (ends (ground arith))

put-IsLinked :
    (s t : NetworkStore) (k : String) (c : NetworkConfig)
    → t.networks ≡ Map.put s.networks k c
    → t.allocations ≡ s.allocations
    → IsLinked s
    → IsLinked t
put-IsLinked s t k c n a v job b e = rw n (
    exists_in-put s.networks k c b.network_name
      (v job b (ap (λ (m : Map JobNetworkAllocation). Map.get m job) (sym a) ∙ e)))

-- A call either leaves the store alone or passed its checks.
create_network-cases :
    (net : NetPackage) (rounds now : ℕ) (s : NetworkStore) (c : NetworkConfig)
    → ((create_network net rounds now s (some c)).0 ≡ s)
      ⊎ ((validate_network_config net c ≡ none)
          × (create_network net rounds now s (some c) ≡ store_network net rounds now s c))
unfolding create_network
create_network-cases net rounds now s c = elim (Bool-cases (s.closed || str_eq c.name "")) [
  | inl early ↦ inl (ground arith)
  | inr late ↦ elim (Option-cases (validate_network_config net c)) [
    | inl valid ↦ inr (valid, ground arith)
    | inr (e, invalid) ↦ inl (ground arith)
  ]
]

pub create_network-IsLinked :
    (net : NetPackage) (rounds now : ℕ) (s : NetworkStore) (c : Option NetworkConfig)
    → (create_network net rounds now s c).1 ≢ some diverges
    → IsLinked s
    → IsLinked (create_network net rounds now s c).0
create_network-IsLinked net rounds now s none ends v = unfold create_network in v
create_network-IsLinked net rounds now s (some c) ends v =
    elim (create_network-cases net rounds now s c) [
      | inl same ↦ rw same v
      | inr (valid, stored) ↦
          let (n, a) = store_network-keeps net rounds now s c valid (rw stored at ends) in
          rw stored (put-IsLinked s (store_network net rounds now s c).0 c.name _ n a v)
    ]
