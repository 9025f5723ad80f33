-- ===== src/Network/Addressing.antt =====
-- nextIP as arithmetic, and which addresses the pool's loop lists.
use native.Mathlib.Nat.{pow-suc, add-zero, mod_self, mod-eq_of_lt}
use joblet.Prelude.{
  subst, ap, ℕ, zero, suc, ◌+◌, ◌*◌, ◌%◌, ◌^◌, ◌<◌, ◌≡◌, refl, inl, inr, Bool, true, false, ◌||◌,
  some, List, [], ◌∷◌, arith, length, All, Bool-cases, Option-cases, ◌==◌, if◌then◌else◌,
}
use joblet.Network.Address.{IpNet, equal_ip, contains_ip, increment, next_ip, broadcast, addresses}

-- The number that the bytes of an address stand for.
abbrev pub value : List ℕ → ℕ
value [] = 0
value (a ∷ rest) = a * 256 ^ length rest + value rest

abbrev pub IsBytes : List ℕ → Type 0
IsBytes = All λ b. b < 256

record Incremented (ip : List ℕ) (r : List ℕ × Bool) : Type 0 where
  bytes : IsBytes r.0
  same_length : length r.0 ≡ length ip
  total : value r.0 + (if r.1 then 256 ^ length ip else 0) ≡ value ip + 1

increment-Incremented : (ip : List ℕ) → IsBytes ip → Incremented ip (increment ip)
unfolding increment
increment-Incremented [] b = record { bytes = tt; same_length = refl; total = refl }
increment-Incremented (a ∷ rest) b =
    let ih = increment-Incremented rest b.1 in
    let p = 256 ^ length rest in
    let size = pow-suc 256 (length rest) in
    elim (Bool-cases (increment rest).1) [
      | inr still ↦
          let tail : value (increment rest).0 ≡ value rest + 1 = ground (arith, ih.total) in
          rw still (record {
            bytes = (b.0, ih.bytes);
            same_length = ap suc ih.same_length;
            total = rw (ih.same_length, tail) (omega arith);
          })
      | inl carry ↦
          let tail : value (increment rest).0 + p ≡ value rest + 1 = ground (arith, ih.total) in
          elim (Bool-cases (((a + 1) % 256) == 0)) [
            | inl wrap ↦
                let full : a ≡ 255 = ground arith in
                rw (carry, wrap)
                  (record {
                    bytes = (omega arith, ih.bytes);
                    same_length = ap suc ih.same_length;
                    total = rw (ih.same_length, full, size) (omega arith);
                  })
            | inr room ↦
                let below : (a + 1) % 256 ≡ a + 1 = ground arith in
                rw (carry, room)
                  (record {
                    bytes = (omega arith, ih.bytes);
                    same_length = ap suc ih.same_length;
                    total = rw (ih.same_length, below) (omega arith);
                  })
          ]
    ]

value-lt : (ip : List ℕ) → IsBytes ip → value ip < 256 ^ length ip
value-lt [] b = omega arith
value-lt (a ∷ rest) b = let ih = value-lt rest b.1 in rw (pow-suc 256 (length rest)) (grind arith)

wrapped :
    (x v size : ℕ) (carry : Bool)
    → x + (if carry then size else 0) ≡ v + 1
    → x < size
    → v < size
    → x ≡ (v + 1) % size
wrapped x v size true e h k =
    let zero_out : x ≡ 0 = omega arith in
    let all : v + 1 ≡ size = omega arith in rw (zero_out, all, mod_self size)
wrapped x v size false e h k = rw (← e) (rw (add-zero x, mod-eq_of_lt h))

-- On bytes below 256, nextIP adds 1 to the number that the address stands for, and wraps from the last address of the
-- family, all bytes 255, to the first. The result has as many bytes, all of them in range.
pub next_ip-successor :
    (ip : List ℕ)
    → IsBytes ip
    → (value (next_ip ip) ≡ (value ip + 1) % 256 ^ length ip)
      × (length (next_ip ip) ≡ length ip)
      × IsBytes (next_ip ip)
unfolding next_ip
next_ip-successor ip b =
    let r = increment-Incremented ip b in
    let low = value-lt ip b in
    let high = value-lt (increment ip).0 r.bytes in
    (
      wrapped (value (increment ip).0) (value ip) (256 ^ length ip) (increment ip).1 r.total
          (rw r.same_length at high) low,
      r.same_length,
      r.bytes,
    )

-- What makes an address one that a pool may hand out.
abbrev pub IsHost : IpNet → List ℕ → Type 0
IsHost net a =
    (contains_ip net a ≡ true) × (equal_ip a net.ip ≡ false) × (equal_ip a (broadcast net) ≡ false)

-- Every address that the loop of initializeIPPool lists lies in the network and is neither the
-- network's own address nor its broadcast address.
pub addresses-inside :
    (rounds : ℕ) (net : IpNet) (ip : List ℕ) (ips : List (List ℕ))
    → addresses rounds net ip ≡ some ips
    → All (IsHost net) ips
unfolding addresses
addresses-inside zero net ip ips e = absurd (cc)
addresses-inside (suc rounds) net ip ips e = elim (Bool-cases (contains_ip net ip)) [
  | inr out ↦ let same : [] ≡ ips = ground arith in subst (All (IsHost net)) same tt
  | inl within ↦ elim (Option-cases (addresses rounds net (next_ip ip))) [
    | inl stop ↦ absurd (ground arith)
    | inr (more, r) ↦
        let ih = addresses-inside rounds net (next_ip ip) more r in
        elim (Bool-cases (equal_ip ip net.ip || equal_ip ip (broadcast net))) [
          | inl skip ↦ let same : more ≡ ips = ground arith in subst (All (IsHost net)) same ih
          | inr listed ↦
              let same : ip ∷ more ≡ ips = ground arith in
              subst (All (IsHost net)) same ((within, ground arith, ground arith), ih)
        ]
  ]
]
