-- ===== src/Network/Recreate.antt =====
-- Creating a network that exists already: the store overwrites it, and its address pool starts anew.
use joblet.Prelude.{
  ℕ, ◌≡◌, refl, ◌∙◌, ap, false, String, none, some, [], Result, ok, err, arith, str_eq, str_eq_refl,
  if_true,
}
use joblet.Prelude.Map
use joblet.Network.{
  NetworkConfig, NetworkStore, NetError, build_pool, initialize_ip_pool, store_network,
  create_network,
}
use joblet.Network.Address.{NetPackage}
use joblet.Network.Pool.{IpPool, is_allocated}
use joblet.Network.Lending.{is_lent}

-- A call of CreateNetwork that succeeds passed every check and ran the part behind them.
pub create_network-stores :
    (net : NetPackage) (rounds now : ℕ) (s s' : NetworkStore) (c : NetworkConfig)
    → create_network net rounds now s (some c) ≡ (s', none)
    → store_network net rounds now s c ≡ (s', none)
unfolding create_network
create_network-stores net rounds now s s' c e = ground arith

initialize_ip_pool-empty :
    (net : NetPackage) (rounds : ℕ) (cidr : String) (p : IpPool)
    → initialize_ip_pool net rounds cidr ≡ ok p
    → p.allocated ≡ []
unfolding initialize_ip_pool build_pool
initialize_ip_pool-empty net rounds cidr p e = ground arith

is_allocated-empty : (ip : String) → is_allocated [] ip ≡ false
unfolding is_allocated Map.get
is_allocated-empty ip = refl

-- When CreateNetwork succeeds for a config with a CIDR, no address of that network's pool is lent
-- afterwards, whatever was lent before, while the jobs' assignments stay as they were.
pub create_network-forgets :
    (net : NetPackage) (rounds now : ℕ) (s s' : NetworkStore) (c : NetworkConfig) (ip : String)
    → str_eq c.cidr "" ≡ false
    → create_network net rounds now s (some c) ≡ (s', none)
    → (is_lent s' c.name ip ≡ false) × (s'.allocations ≡ s.allocations)
unfolding store_network is_lent
create_network-forgets net rounds now s s' c ip has_cidr e =
    let f = create_network-stores net rounds now s s' c e in
    forget (initialize_ip_pool net rounds c.cidr) refl f
  where
    forget :
        (r : Result NetError IpPool)
        → initialize_ip_pool net rounds c.cidr ≡ r
        → store_network net rounds now s c ≡ (s', none)
        → (is_lent s' c.name ip ≡ false) × (s'.allocations ≡ s.allocations)
    forget (err x) i f = absurd (ground arith)
    forget (ok pool) i f =
        let pools : s'.ip_pools ≡ Map.put s.ip_pools c.name pool = ground arith in
        let here : Map.get s'.ip_pools c.name ≡ some pool =
          ap (λ (m : Map.Map IpPool). Map.get m c.name) pools
          ∙ Map.get-put s.ip_pools c.name c.name pool
          ∙ if_true _ _ (str_eq_refl c.name) in
        let empty = initialize_ip_pool-empty net rounds c.cidr pool i in
        (rw (here, is_lent, empty) (is_allocated-empty ip), ground arith)
