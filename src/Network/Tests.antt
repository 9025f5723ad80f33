-- ===== src/Network/Tests.antt =====
-- A network of four addresses under the calls of internal/joblet/adapters/network_store_adapter.go.
use joblet.Prelude.{
  ℕ, ◌+◌, ◌%◌, ◌^◌, ◌≡◌, ◌≢◌, refl, true, false, String, none, some, List, [], ◌∷◌, arith, length,
  str_eq, str_eq→eq, All, if◌then◌else◌, subst,
}
use joblet.Network.Copies.{IsSound}
use joblet.Prelude.Map
use joblet.Network.{
  NetworkConfig, JobNetworkAllocation, NetworkStore, new_store, create_network, store_network,
  validate_network_config, all_ips, is_valid_type, parses, initialize_ip_pool, build_pool,
  allocate_ip, release_ip, assign_job_to_network, remove_network, diverges,
}
use joblet.Network.Address.{
  IpNet, NetPackage, next_ip, increment, contains_ip, contains_bytes, broadcast, broadcast_bytes,
  equal_ip, addresses,
}
use joblet.Network.Unary.{show_unary, show_unary-IsFaithful}
use joblet.Network.History.{Reach-AllSound}
use joblet.Network.Distinct.{Unique}
use joblet.Network.Pool.{IpPool, take_ip, give_back, is_allocated}
use joblet.Network.Addressing.{IsBytes, value, next_ip-successor}
use joblet.Network.Broadcast.{IsInner}
use joblet.Network.Ending.{advance, addresses-lists_hosts}
use joblet.Network.Lending.{AllSound, copies_in, is_lent, allocate_ip-lends, release_ip-returns}
use joblet.Network.Recreate.{create_network-forgets}
use joblet.Network.Links.{IsLinked}
use joblet.Network.Reachable.{start, next, creates, assigns, removes, Reach-IsLinked, lends}

abbrev four : IpNet
four = record { ip = 10 ∷ 0 ∷ 0 ∷ 0 ∷ []; mask = 255 ∷ 255 ∷ 255 ∷ 252 ∷ [] }

-- A package that knows one network and prints addresses in unary.
abbrev net_package : NetPackage
net_package = record {
  parse_cidr = λ s. if str_eq s "10.0.0.0/30" then some four else none;
  is_ip = λ s. str_eq s "10.0.0.1";
  show_ip = show_unary;
}

abbrev config : NetworkConfig
config = record {
  name = "lan";
  kind = "bridge";
  cidr = "10.0.0.0/30";
  bridge_name = "br0";
  gateway = "10.0.0.1";
  dns = [];
  metadata = [];
  created_at = 0;
  updated_at = 0;
}

abbrev allocation : JobNetworkAllocation
allocation = record {
  job_uuid = "";
  network_name = "";
  ip_address = "10.0.0.1";
  mac_address = "02:00:00:00:00:01";
  hostname = "a";
  metadata = [];
  assigned_at = 0;
}

next_ip-successor_example :
    (value (next_ip (10 ∷ 0 ∷ 255 ∷ 255 ∷ [])) ≡ (value (10 ∷ 0 ∷ 255 ∷ 255 ∷ []) + 1) % 256 ^ 4)
    × (length (next_ip (10 ∷ 0 ∷ 255 ∷ 255 ∷ [])) ≡ 4)
    × IsBytes (next_ip (10 ∷ 0 ∷ 255 ∷ 255 ∷ []))
next_ip-successor_example =
    next_ip-successor (10 ∷ 0 ∷ 255 ∷ 255 ∷ [])
      (omega arith, (omega arith, (omega arith, (omega arith, tt))))

addresses-lists_hosts_example :
    (ips : List (List ℕ)) × (addresses 5 four (10 ∷ 0 ∷ 0 ∷ 0 ∷ []) ≡ some ips)
    × All (IsInner four) ips
    × Unique ips
unfolding advance contains_ip contains_bytes next_ip increment
addresses-lists_hosts_example =
    addresses-lists_hosts 4 four (10 ∷ 0 ∷ 0 ∷ 0 ∷ [])
      (omega arith, (omega arith, (omega arith, (omega arith, tt))))
      (
        (0, omega arith, refl),
        ((0, omega arith, refl), ((0, omega arith, refl), ((2, omega arith, refl), tt))),
      )
      refl

abbrev created : NetworkStore
created = (create_network net_package 5 7 new_store (some config)).0

abbrev two_free : IpPool
two_free = record { allocated = []; available = "10.0.0.1" ∷ "10.0.0.2" ∷ [] }

-- The pool as CreateNetwork leaves it
abbrev fresh : NetworkStore
fresh = record {
  networks = ("lan", config) ∷ [];
  allocations = [];
  ip_pools = ("lan", two_free) ∷ [];
  closed = false;
}

abbrev lent_one : NetworkStore
lent_one = (allocate_ip fresh "lan").0

apart : (ip : String) → str_eq "10.0.0.1" ip ≡ true → str_eq "10.0.0.2" ip ≡ false
apart ip h = subst (λ t. str_eq "10.0.0.2" t ≡ false) (str_eq→eq "10.0.0.1" ip h) refl

fresh-AllSound : AllSound fresh
unfolding Map.get is_allocated
fresh-AllSound name p e = subst IsSound pool (λ ip. ground (arith, apart ip))
  where
    pool : two_free ≡ p
    pool = ground arith

allocate_ip-lends_example :
    (is_lent fresh "lan" "10.0.0.1" ≡ false)
    × (is_lent lent_one "lan" "10.0.0.1" ≡ true)
    × ((n j : String) → copies_in lent_one n j ≡ copies_in fresh n j)
    × AllSound lent_one
unfolding allocate_ip take_ip Map.get Map.put
allocate_ip-lends_example = allocate_ip-lends fresh lent_one "lan" "10.0.0.1" fresh-AllSound refl

abbrev given_back : NetworkStore
given_back = (release_ip lent_one "lan" "10.0.0.1").0

release_ip-returns_example :
    (is_lent lent_one "lan" "10.0.0.1" ≡ true)
    × (is_lent given_back "lan" "10.0.0.1" ≡ false)
    × ((n j : String) → copies_in given_back n j ≡ copies_in lent_one n j)
    × AllSound given_back
unfolding allocate_ip take_ip release_ip give_back is_allocated Map.get Map.put Map.remove
release_ip-returns_example =
    let (before, after, same, sound) =
      allocate_ip-lends fresh lent_one "lan" "10.0.0.1" fresh-AllSound refl in
    release_ip-returns lent_one given_back "lan" "10.0.0.1" sound refl

-- The network is created again while its first address is lent.
abbrev again : NetworkStore
again = (create_network net_package 5 9 lent_one (some config)).0

create_network-forgets_example :
    (is_lent again "lan" "10.0.0.1" ≡ false) × (again.allocations ≡ lent_one.allocations)
unfolding create_network store_network validate_network_config all_ips is_valid_type parses
    initialize_ip_pool build_pool allocate_ip take_ip addresses equal_ip contains_ip contains_bytes
    next_ip increment broadcast broadcast_bytes Map.get Map.put
create_network-forgets_example =
    create_network-forgets net_package 5 9 lent_one again config "10.0.0.1" refl refl

abbrev assigned : NetworkStore
assigned = (assign_job_to_network 8 created "job-a" "lan" (some allocation)).0

no_divergence : (create_network net_package 5 7 new_store (some config)).1 ≢ some diverges
unfolding create_network store_network validate_network_config all_ips is_valid_type parses
    initialize_ip_pool build_pool addresses equal_ip contains_ip contains_bytes next_ip increment
    broadcast broadcast_bytes Map.get Map.put
no_divergence e = ground arith

-- The network is then not removed, as the job is assigned to it.
Reach-IsLinked_example : IsLinked (remove_network assigned "lan").0
Reach-IsLinked_example = Reach-IsLinked net_package (
    next
      (next (next start (creates 5 7 (some config) no_divergence))
        (assigns 8 "job-a" "lan" (some allocation)))
      (removes "lan"))

Reach-AllSound_example : AllSound (allocate_ip created "lan").0
Reach-AllSound_example =
    Reach-AllSound net_package show_unary-IsFaithful
      (next (next start (creates 5 7 (some config) no_divergence)) (lends "lan"))
