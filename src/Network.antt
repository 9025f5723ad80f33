-- ===== src/Network.antt =====
-- internal/joblet/adapters/network_store_adapter.go over the stores of in_memory_stores.go, as
-- `NewNetworkStore` puts them together; calls that do not overlap. No lock spans the
-- two parts of RemoveNetwork or of AssignJobToNetwork.
-- Create of a simple store overwrites and never fails, so no call sees a conflict.
pub mod Address
pub mod Pool
pub mod Addressing
pub mod Broadcast
pub mod Ending
pub mod Distinct
pub mod Sound
pub mod History
pub mod Unary
pub mod Copies
pub mod Lending
pub mod Recreate
pub mod Links
pub mod Reachable
pub mod Tests
use joblet.Prelude.{
  ℕ, Bool, true, false, not, ◌&&◌, ◌||◌, String, Option, none, some, List, [], ◌∷◌, map, Result, ok,
  err, length, keep, ltb, str_eq, if◌then◌else◌,
}
use joblet.Prelude.Map.{Map}
use joblet.Prelude.Map
use Address.{IpNet, NetPackage, addresses}
use Pool.{IpPool, take_ip, give_back}

pub record NetworkConfig : Type 0 where
  pub name : String
  pub kind : String
  pub cidr : String
  pub bridge_name : String
  pub gateway : String
  pub dns : List String
  pub metadata : Map String
  pub created_at : ℕ
  pub updated_at : ℕ

pub record JobNetworkAllocation : Type 0 where
  pub job_uuid : String
  pub network_name : String
  pub ip_address : String
  pub mac_address : String
  pub hostname : String
  pub metadata : Map String
  pub assigned_at : ℕ

pub record NetworkStore : Type 0 where
  pub networks : Map NetworkConfig
  pub allocations : Map JobNetworkAllocation
  pub ip_pools : Map IpPool
  pub closed : Bool

-- `diverges` stands for a call whose loop does not end within the rounds given.
pub data NetError : Type 0 where
  is_closed nil_config nil_allocation empty_name empty_job empty_ip : NetError
  no_type invalid_type invalid_cidr invalid_gateway invalid_dns : NetError
  in_use no_network no_assignment no_pool no_address not_allocated diverges : NetError

abbrev pub new_store : NetworkStore
new_store = record { networks = []; allocations = []; ip_pools = []; closed = false }

all_ips : NetPackage → List String → Bool
all_ips net [] = true
all_ips net (d ∷ ds) = net.is_ip d && all_ips net ds

pub is_valid_type : String → Bool
is_valid_type t = str_eq t "bridge" || str_eq t "host" || str_eq t "none" || str_eq t "custom"

parses : {A : Type 0} → Option A → Bool
parses none = false
parses (some _) = true

-- validateNetworkConfig; `none` is success.
pub validate_network_config : NetPackage → NetworkConfig → Option NetError
unfolding all_ips is_valid_type parses
validate_network_config net c =
    if str_eq c.name ""
    then some empty_name
    else if str_eq c.kind ""
    then some no_type
    else if not (is_valid_type c.kind)
    then some invalid_type
    else if not (str_eq c.cidr "") && not (parses (net.parse_cidr c.cidr))
    then some invalid_cidr
    else if not (str_eq c.gateway "") && not (net.is_ip c.gateway)
    then some invalid_gateway
    else if all_ips net c.dns
    then none
    else some invalid_dns

-- The pool that initializeIPPool builds for a parsed network.
pub build_pool : NetPackage → ℕ → IpNet → Result NetError IpPool
build_pool net rounds n = elim (addresses rounds n n.ip) [
  | none ↦ err diverges
  | some ips ↦ ok (record { allocated = []; available = map net.show_ip ips })
]

-- initializeIPPool
pub initialize_ip_pool : NetPackage → ℕ → String → Result NetError IpPool
initialize_ip_pool net rounds cidr = elim (net.parse_cidr cidr) [
  | none ↦ err invalid_cidr
  | some n ↦ build_pool net rounds n
]

-- The part of CreateNetwork behind its checks, with the timestamps set to `now`.
pub store_network :
    NetPackage → ℕ → ℕ → NetworkStore → NetworkConfig → NetworkStore × Option NetError
store_network net rounds now s c =
    let stored = record s {
      networks = Map.put s.networks c.name (record c { created_at = now; updated_at = now });
    } in
    let pooled : NetworkStore × Option NetError = elim (initialize_ip_pool net rounds c.cidr) [
      | ok pool ↦ (record stored { ip_pools = Map.put s.ip_pools c.name pool }, none)
      | err e ↦ (record stored { networks = Map.remove stored.networks c.name }, some e)
    ] in
    if str_eq c.cidr "" then (stored, none) else pooled

-- CreateNetwork
pub create_network :
    NetPackage → ℕ → ℕ → NetworkStore → Option NetworkConfig → NetworkStore × Option NetError
create_network net rounds now s none = (s, some (if s.closed then is_closed else nil_config))
create_network net rounds now s (some c) =
    if s.closed
    then (s, some is_closed)
    else if str_eq c.name ""
    then (s, some empty_name)
    else (elim (validate_network_config net c) [
      | some e ↦ (s, some e)
      | none ↦ store_network net rounds now s c
    ])

-- Network
pub network : NetworkStore → String → Option NetworkConfig
network s name = if s.closed || str_eq name "" then none else Map.get s.networks name

-- ListNetworks
pub list_networks : NetworkStore → List NetworkConfig
list_networks s = if s.closed then [] else Map.values s.networks

-- ListJobsInNetwork
pub list_jobs_in_network : NetworkStore → String → List JobNetworkAllocation
list_jobs_in_network s name =
    if s.closed then [] else keep (λ a. str_eq a.network_name name) (Map.values s.allocations)

-- RemoveNetwork
pub remove_network : NetworkStore → String → NetworkStore × Option NetError
unfolding list_jobs_in_network
remove_network s name =
    let removed : NetworkStore × Option NetError = elim (Map.get s.networks name) [
      | none ↦ (s, some no_network)
      | some _ ↦ (
        record s { networks = Map.remove s.networks name; ip_pools = Map.remove s.ip_pools name },
        none,
      )
    ] in
    if s.closed
    then (s, some is_closed)
    else if str_eq name ""
    then (s, some empty_name)
    else if ltb 0 (length (list_jobs_in_network s name))
    then (s, some in_use)
    else removed

-- AssignJobToNetwork
pub assign_job_to_network :
    ℕ
    → NetworkStore
    → String
    → String
    → Option JobNetworkAllocation
    → NetworkStore × Option NetError
unfolding network
assign_job_to_network now s job name none = (
  s,
  some (
      if s.closed
      then is_closed
      else if str_eq job ""
      then empty_job
      else if str_eq name ""
      then empty_name
      else nil_allocation),
)
assign_job_to_network now s job name (some a) =
    let assigned : NetworkStore × Option NetError = elim (network s name) [
      | none ↦ (s, some no_network)
      | some _ ↦ (
        record s {
          allocations =
              Map.put s.allocations job
                (record a { assigned_at = now; job_uuid = job; network_name = name });
        },
        none,
      )
    ] in
    if s.closed
    then (s, some is_closed)
    else if str_eq job ""
    then (s, some empty_job)
    else if str_eq name ""
    then (s, some empty_name)
    else assigned

-- JobNetworkAllocation
pub job_network_allocation : NetworkStore → String → Option JobNetworkAllocation
job_network_allocation s job = if s.closed || str_eq job "" then none else Map.get s.allocations job

-- AllocateIP
pub allocate_ip : NetworkStore → String → NetworkStore × Result NetError String
allocate_ip s name =
    let from_pool : NetworkStore × Result NetError String = elim (Map.get s.ip_pools name) [
      | none ↦ (s, err no_pool)
      | some pool ↦ (elim (take_ip pool) [
        | none ↦ (s, err no_address)
        | some (ip, pool') ↦ (record s { ip_pools = Map.put s.ip_pools name pool' }, ok ip)
      ])
    ] in
    if s.closed
    then (s, err is_closed)
    else if str_eq name ""
    then (s, err empty_name)
    else from_pool

-- ReleaseIP
pub release_ip : NetworkStore → String → String → NetworkStore × Option NetError
release_ip s name ip =
    let to_pool : NetworkStore × Option NetError = elim (Map.get s.ip_pools name) [
      | none ↦ (s, some no_pool)
      | some pool ↦ (elim (give_back pool ip) [
        | none ↦ (s, some not_allocated)
        | some pool' ↦ (record s { ip_pools = Map.put s.ip_pools name pool' }, none)
      ])
    ] in
    if s.closed
    then (s, some is_closed)
    else if str_eq name ""
    then (s, some empty_name)
    else if str_eq ip ""
    then (s, some empty_ip)
    else to_pool

-- RemoveJobFromNetwork: a failed ReleaseIP is only logged.
pub remove_job_from_network : NetworkStore → String → NetworkStore × Option NetError
unfolding job_network_allocation release_ip
remove_job_from_network s job =
    let removed : NetworkStore × Option NetError = elim (job_network_allocation s job) [
      | none ↦ (s, some no_assignment)
      | some a ↦
          let freed =
            if str_eq a.ip_address "" then s else (release_ip s a.network_name a.ip_address).0 in
          (record freed { allocations = Map.remove freed.allocations job }, none)
    ] in
    if s.closed then (s, some is_closed) else if str_eq job "" then (s, some empty_job) else removed

-- Close
pub close : NetworkStore → NetworkStore
close s =
    if s.closed then s else record { networks = []; allocations = []; ip_pools = []; closed = true }
