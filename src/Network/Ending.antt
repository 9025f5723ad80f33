-- ===== src/Network/Ending.antt =====
-- When the loop of initializeIPPool in internal/joblet/adapters/network_store_adapter.go ends.
use joblet.Prelude.{
  ℕ, zero, suc, ◌≡◌, false, some, List, [], ◌∷◌, arith, inl, inr, Bool-cases, ◌||◌, if◌then◌else◌,
}
use joblet.Network.Address.{IpNet, equal_ip, contains_ip, next_ip, broadcast, addresses}
use joblet.Network.Addressing.{IsBytes, addresses-inside}
use joblet.Network.Broadcast.{IsMaskByte, IsInner, IsHost-IsInner}
use joblet.Network.Distinct.{Unique, addresses-Unique}
use joblet.Prelude.{All}

-- The address that so many calls of nextIP lead to
unfoldable pub advance : ℕ → List ℕ → List ℕ
advance zero ip = ip
advance (suc d) ip = advance d (next_ip ip)

addresses-ends :
    (d : ℕ) (net : IpNet) (ip : List ℕ)
    → contains_ip net (advance d ip) ≡ false
    → (ips : List (List ℕ)) × (addresses (suc d) net ip ≡ some ips)
unfolding addresses advance
addresses-ends zero net ip out = ([], ground arith)
addresses-ends (suc d) net ip out = elim (Bool-cases (contains_ip net ip)) [
  | inl within ↦
      let (ips, e) = addresses-ends d net (next_ip ip) out in
      (if equal_ip ip net.ip || equal_ip ip (broadcast net) then ips else ip ∷ ips, ground arith)
  | inr outside ↦ ([], ground arith)
]

All-into {ℓ κ κ'} :
    {A : Type ℓ} {P : A → Type κ} {Q : A → Type κ'}
    → ((x : A) → P x → Q x)
    → (xs : List A) → All P xs
    → All Q xs
All-into f [] h = tt
All-into f (x ∷ xs) (h, hs) = (f x h, All-into f xs hs)

-- For a network of bytes whose mask bytes are those of a prefix, and where the address that d steps of
-- nextIP lead to is outside the network, the loop ends within d + 1 rounds; each address that it
-- lists lies in the network and is neither the network's own, first address nor its last one, which
-- is the broadcast address, and none is listed twice.
pub addresses-lists_hosts :
    (d : ℕ) (net : IpNet) (ip : List ℕ)
    → IsBytes net.ip
    → All IsMaskByte net.mask
    → contains_ip net (advance d ip) ≡ false
    → (ips : List (List ℕ)) × (addresses (suc d) net ip ≡ some ips)
      × All (IsInner net) ips
      × Unique ips
addresses-lists_hosts d net ip bytes mask out =
    let (ips, e) = addresses-ends d net ip out in
    (
      ips,
      e,
      All-into (IsHost-IsInner net bytes mask) ips (addresses-inside (suc d) net ip ips e),
      addresses-Unique (suc d) net ip ips e,
    )
