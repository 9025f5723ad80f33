-- ===== src/Network/Address.antt =====
-- internal/joblet/adapters/network_store_adapter.go: addresses as bytes, most significant first, and
-- the loop that lists a network's addresses. The package `net` parses and prints them.
use Prim.Native.Nat.{bit_and, bit_or}
use joblet.Prelude.{
  ℕ, zero, suc, ◌+◌, ◌-◌, ◌%◌, Bool, true, false, ◌&&◌, ◌||◌, String, Option, none, some, List, [],
  ◌∷◌, ◌==◌, if◌then◌else◌,
}

-- net.IPNet
pub record IpNet : Type 0 where
  pub ip : List ℕ
  pub mask : List ℕ

-- What the adapter uses of package `net`: ParseCIDR, ParseIP as a test, and IP.String.
pub record NetPackage : Type 0 where
  pub parse_cidr : String → Option IpNet
  pub is_ip : String → Bool
  pub show_ip : List ℕ → String

-- ip.Equal
unfoldable pub equal_ip : List ℕ → List ℕ → Bool
equal_ip [] [] = true
equal_ip (x ∷ xs) (y ∷ ys) = (x == y) && equal_ip xs ys
equal_ip _ _ = false

-- ipNet.Contains: every byte agrees with the network's under the mask.
unfoldable pub contains_bytes : List ℕ → List ℕ → List ℕ → Bool
contains_bytes [] [] [] = true
contains_bytes (n ∷ ns) (m ∷ ms) (a ∷ rest) =
    (bit_and n m == bit_and a m) && contains_bytes ns ms rest
contains_bytes _ _ _ = false

unfoldable pub contains_ip : IpNet → List ℕ → Bool
contains_ip net ip = contains_bytes net.ip net.mask ip

-- The increment of nextIP from the last byte on, with the carry into the bytes before it: the
-- loop stops at the first byte that does not wrap to 0.
unfoldable pub increment : List ℕ → List ℕ × Bool
increment [] = ([], true)
increment (a ∷ low) =
    let (rest, carry) = increment low in
    if carry then ((a + 1) % 256 ∷ rest, ((a + 1) % 256) == 0) else (a ∷ rest, false)

-- nextIP
unfoldable pub next_ip : List ℕ → List ℕ
unfolding increment
next_ip ip = (increment ip).0

-- getBroadcastAddress; `^m` on a byte is 255 - m
unfoldable pub broadcast_bytes : List ℕ → List ℕ → List ℕ
broadcast_bytes (n ∷ ns) (m ∷ ms) = bit_or n (255 - m) ∷ broadcast_bytes ns ms
broadcast_bytes _ _ = []

unfoldable pub broadcast : IpNet → List ℕ
broadcast net = broadcast_bytes net.ip net.mask

-- The loop of initializeIPPool from the address `ip`; `none` when the rounds run out.
unfoldable pub addresses : ℕ → IpNet → List ℕ → Option (List (List ℕ))
addresses zero net ip = none
addresses (suc rounds) net ip =
    let rest = addresses rounds net (next_ip ip) in
    let kept : Option (List (List ℕ)) = elim rest [
      | none ↦ none
      | some ips ↦
          some (if equal_ip ip net.ip || equal_ip ip (broadcast net) then ips else ip ∷ ips)
    ] in
    if contains_ip net ip then kept else some []
