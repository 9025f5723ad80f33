-- ===== src/Network/Pool.antt =====
-- internal/joblet/adapters/network_store_adapter.go: ipPool, and AllocateIP and ReleaseIP on it.
use joblet.Prelude.{Bool, true, String, Option, none, some, List, [], ◌∷◌, ◌++◌, if◌then◌else◌}
use joblet.Prelude.Map.{Map}
use joblet.Prelude.Map

pub record IpPool : Type 0 where
  pub allocated : Map Bool
  pub available : List String

-- pool.allocated[ip]
unfoldable pub is_allocated : Map Bool → String → Bool
is_allocated m ip = elim (Map.get m ip) [ none ↦ Bool.false | some b ↦ b ]

-- AllocateIP on a pool; `none` when no address is left.
unfoldable pub take_ip : IpPool → Option (String × IpPool)
take_ip p = elim p.available [
  | [] ↦ none
  | ip ∷ rest ↦ some (ip, record { allocated = Map.put p.allocated ip true; available = rest })
]

-- ReleaseIP on a pool; `none` when the address is not allocated.
unfoldable pub give_back : IpPool → String → Option IpPool
give_back p ip =
    if is_allocated p.allocated ip
    then some (record { allocated = Map.remove p.allocated ip; available = p.available ++ ip ∷ [] })
    else none
