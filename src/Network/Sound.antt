-- ===== src/Network/Sound.antt =====
-- Every pool of internal/joblet/adapters/network_store_adapter.go has each address once, free or
-- lent, whatever calls are made in whatever order.
use joblet.Prelude.{
  ℕ, ◌≤◌, ◌≡◌, refl, true, false, String, List, [], ◌∷◌, map, arith, inl, inr, Option-cases, length,
  All, str_eq, eq_iff, subst, ok,
}
use joblet.Prelude.Map
use joblet.Network.{build_pool}
use joblet.Network.Address.{IpNet, NetPackage, equal_ip, contains_ip, contains_bytes, addresses}
use joblet.Network.Addressing.{IsHost, addresses-inside}
use joblet.Network.Pool.{IpPool, is_allocated}
use joblet.Network.Copies.{count, IsSound}
use joblet.Network.Distinct.{listed, Unique, addresses-Unique}

-- IP.String gives different texts to different addresses of one length.
abbrev pub IsFaithful : NetPackage → Type 0
IsFaithful net =
    (a b : List ℕ)
    → length a ≡ length b
    → str_eq (net.show_ip a) (net.show_ip b) ≡ true
    → equal_ip a b ≡ true

contains_bytes-length : (n m a : List ℕ) → contains_bytes n m a ≡ true → length a ≡ length n
unfolding contains_bytes
contains_bytes-length [] [] [] e = refl
contains_bytes-length [] [] (x ∷ a) e = absurd (ground arith)
contains_bytes-length [] (y ∷ m) a e = absurd (ground arith)
contains_bytes-length (z ∷ n) [] a e = absurd (ground arith)
contains_bytes-length (z ∷ n) (y ∷ m) [] e = absurd (ground arith)
contains_bytes-length (z ∷ n) (y ∷ m) (x ∷ a) e = ground (arith, contains_bytes-length n m a)

contains_ip-length : (n : IpNet) (a : List ℕ) → contains_ip n a ≡ true → length a ≡ length n.ip
unfolding contains_ip
contains_ip-length n a e = contains_bytes-length n.ip n.mask a e

count-absent :
    (net : NetPackage) (n : IpNet) (a : List ℕ) (ips : List (List ℕ)) (s : String)
    → IsFaithful net
    → length a ≡ length n.ip
    → All (IsHost n) ips
    → listed a ips ≡ false
    → str_eq (net.show_ip a) s ≡ true
    → count s (map net.show_ip ips) ≡ 0
unfolding listed
count-absent net n a [] s f l h out e = refl
count-absent net n a (x ∷ ips) s f l h out e = ground (
  arith,
  count-absent net n a ips s f l,
  contains_ip-length n x,
  f x a,
  eq_iff (net.show_ip a) s,
  eq_iff (net.show_ip x) s,
  eq_iff (net.show_ip x) (net.show_ip a),
)

count-Unique :
    (net : NetPackage) (n : IpNet) (ips : List (List ℕ)) (s : String)
    → IsFaithful net
    → All (IsHost n) ips
    → Unique ips
    → count s (map net.show_ip ips) ≤ 1
unfolding Unique
count-Unique net n [] s f h u = omega arith
count-Unique net n (x ∷ ips) s f h u = ground (
  arith,
  count-Unique net n ips s f h.1 u.1,
  count-absent net n x ips s f,
  contains_ip-length n x,
)

pub build_pool-IsSound :
    (net : NetPackage) (rounds : ℕ) (n : IpNet) (p : IpPool)
    → IsFaithful net
    → build_pool net rounds n ≡ ok p
    → IsSound p
unfolding build_pool is_allocated Map.get
build_pool-IsSound net rounds n p f e = elim (Option-cases (addresses rounds n n.ip)) [
  | inl endless ↦ absurd (ground arith)
  | inr (ips, l) ↦
      let made : record { allocated = []; available = map net.show_ip ips } ≡ p = ground arith in
      subst IsSound made (λ s. ground (
        arith,
        count-Unique net n ips s f (addresses-inside rounds n n.ip ips l)
            (addresses-Unique rounds n n.ip ips l),
      ))
]
