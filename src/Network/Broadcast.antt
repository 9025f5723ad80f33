-- ===== src/Network/Broadcast.antt =====
-- getBroadcastAddress of internal/joblet/adapters/network_store_adapter.go gives the last address of a
-- network whose mask bytes are those of a prefix.
use Prim.Native.Nat.{bit_or}
use joblet.Prelude.{
  ℕ, zero, suc, ◌+◌, ◌-◌, ◌*◌, ◌/◌, ◌^◌, ◌<◌, ◌≤◌, ◌≡◌, ◌≢◌, refl, sym, ap, ◌∙◌, subst, arith, Bool,
  true, false, ◌&&◌, List, [], ◌∷◌, All, ◌==◌, ==→eq, ==_refl, inl, inr, Bool-cases,
}
use joblet.Network.Address.{IpNet, contains_ip, equal_ip, broadcast, broadcast_bytes}
use joblet.Network.Addressing.{IsBytes, IsHost}

-- A byte of a mask: 8 - k bits 1 and then k bits 0
abbrev pub IsMaskByte : ℕ → Type 0
IsMaskByte m = (k : ℕ) × (k ≤ 8) × (m ≡ 256 - 2 ^ k)

-- The largest byte of the block of 2 ^ k bytes that n is in, for the mask byte m = 256 - 2 ^ k
abbrev pub last_byte : ℕ → ℕ → ℕ
last_byte n m = n / (256 - m) * (256 - m) + (255 - m)

abbrev pub last_bytes : List ℕ → List ℕ → List ℕ
last_bytes (n ∷ ns) (m ∷ ms) = last_byte n m ∷ last_bytes ns ms
last_bytes _ _ = []

-- The last address of a network
abbrev pub last_address : IpNet → List ℕ
last_address net = last_bytes net.ip net.mask

-- An address inside the network other than its first and its last one
abbrev pub IsInner : IpNet → List ℕ → Type 0
IsInner net a = (contains_ip net a ≡ true) × (a ≢ net.ip) × (a ≢ last_address net)

-- Does the test hold for all numbers below n?
abbrev all_below : ℕ → (ℕ → Bool) → Bool
all_below zero p = true
all_below (suc n) p = p n && all_below n p

all_below-at : (n : ℕ) (p : ℕ → Bool) (i : ℕ) → all_below n p ≡ true → i < n → p i ≡ true
all_below-at zero p i h l = absurd (omega (arith, l))
all_below-at (suc n) p i h l = elim (Bool-cases (i == n)) [
  | inl same ↦ let here : p n ≡ true = ground (arith, h) in ap p (==→eq i n same) ∙ here
  | inr other ↦ all_below-at n p i (ground (arith, h)) (ground (arith, l, other))
]

abbrev agrees : ℕ → ℕ → Bool
agrees n k = bit_or n (255 - (256 - 2 ^ k)) == last_byte n (256 - 2 ^ k)

all_agree : all_below 256 (λ n. all_below 9 (agrees n)) ≡ true
all_agree = refl

or-last_byte : (n m : ℕ) → n < 256 → IsMaskByte m → bit_or n (255 - m) ≡ last_byte n m
or-last_byte n m small (k, le, e) =
    let row = all_below-at 256 (λ n. all_below 9 (agrees n)) n all_agree small in
    let one = ==→eq _ _ (all_below-at 9 (agrees n) k row (omega (arith, le))) in
    subst (λ m. bit_or n (255 - m) ≡ last_byte n m) (sym e) one

broadcast_bytes-last :
    (ns ms : List ℕ) → IsBytes ns → All IsMaskByte ms → broadcast_bytes ns ms ≡ last_bytes ns ms
unfolding broadcast_bytes
broadcast_bytes-last [] ms b h = refl
broadcast_bytes-last (n ∷ ns) [] b h = refl
broadcast_bytes-last (n ∷ ns) (m ∷ ms) (small, b) (mask, h) =
    let first = or-last_byte n m small mask in
    let rest = broadcast_bytes-last ns ms b h in
    ap (λ x. x ∷ broadcast_bytes ns ms) first ∙ ap (λ l. last_byte n m ∷ l) rest

equal_ip_refl : (a : List ℕ) → equal_ip a a ≡ true
unfolding equal_ip
equal_ip_refl [] = refl
equal_ip_refl (x ∷ xs) = ground (arith, ==_refl x, equal_ip_refl xs)

differs : (a b : List ℕ) → equal_ip a b ≡ false → a ≢ b
differs a b h e =
    let same : equal_ip a b ≡ true = subst (λ c. equal_ip a c ≡ true) e (equal_ip_refl a) in
    ground (arith, h, same)

pub IsHost-IsInner :
    (net : IpNet)
    → IsBytes net.ip
    → All IsMaskByte net.mask
    → (a : List ℕ) → IsHost net a
    → IsInner net a
unfolding broadcast
IsHost-IsInner net b h a (inside, own, last) =
    let e = broadcast_bytes-last net.ip net.mask b h in
    (
      inside,
      differs a net.ip own,
      differs a (last_address net) (subst (λ l. equal_ip a l ≡ false) e last),
    )
