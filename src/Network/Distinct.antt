-- ===== src/Network/Distinct.antt =====
-- The loop of initializeIPPool in internal/joblet/adapters/network_store_adapter.go lists no address
-- twice: an address that came again would make it run for ever.
use joblet.Prelude.{
  ℕ, zero, suc, ◌≤◌, ◌≡◌, refl, sym, ◌∙◌, ap, Bool, true, false, ◌||◌, some, List, [], ◌∷◌, arith,
  inl, inr, Bool-cases, Option-cases, length, subst,
}
use joblet.Network.Address.{IpNet, equal_ip, contains_ip, next_ip, broadcast, addresses}

-- Does an address stand in the list?
unfoldable pub listed : List ℕ → List (List ℕ) → Bool
listed a [] = false
listed a (x ∷ xs) = equal_ip x a || listed a xs

-- No address stands twice.
unfoldable pub Unique : List (List ℕ) → Type 0
Unique [] = Unit {0}
Unique (x ∷ xs) = (listed x xs ≡ false) × Unique xs

equal_ip→eq : (a b : List ℕ) → equal_ip a b ≡ true → a ≡ b
unfolding equal_ip
equal_ip→eq [] [] e = refl
equal_ip→eq [] (y ∷ b) e = absurd (ground arith)
equal_ip→eq (x ∷ a) [] e = absurd (ground arith)
equal_ip→eq (x ∷ a) (y ∷ b) e = ground (arith, equal_ip→eq a b)

-- Whatever the rounds, the loop lists the same.
addresses-agree :
    (r r' : ℕ) (net : IpNet) (ip : List ℕ) (a b : List (List ℕ))
    → addresses r net ip ≡ some a
    → addresses r' net ip ≡ some b
    → a ≡ b
unfolding addresses
addresses-agree zero r' net ip a b e f = absurd (ground arith)
addresses-agree (suc r) zero net ip a b e f = absurd (ground arith)
addresses-agree (suc r) (suc r') net ip a b e f =
    elim (Option-cases (addresses r net (next_ip ip))) [
      | inl none_left ↦ ground arith
      | inr (x, p) ↦ elim (Option-cases (addresses r' net (next_ip ip))) [
        | inl none_left ↦ ground arith
        | inr (y, q) ↦ ground (arith, addresses-agree r r' net (next_ip ip) x y p q)
      ]
    ]

-- From an address that the loop lists, the loop lists no more than from the start.
addresses-suffix :
    (r : ℕ) (net : IpNet) (ip : List ℕ) (ips : List (List ℕ)) (a : List ℕ)
    → addresses r net ip ≡ some ips
    → listed a ips ≡ true
    → (r' : ℕ) × (b : List (List ℕ)) × (addresses r' net a ≡ some b) × (length b ≤ length ips)
unfolding addresses listed
addresses-suffix zero net ip ips a e l = absurd (ground arith)
addresses-suffix (suc r) net ip ips a e l = elim (Bool-cases (equal_ip ip a)) [
  | inl here ↦ (
    suc r,
    ips,
    subst (λ x. addresses (suc r) net x ≡ some ips) (equal_ip→eq ip a here) e,
    omega arith,
  )
  | inr later ↦ elim (Option-cases (addresses r net (next_ip ip))) [
    | inl none_left ↦ absurd (ground arith)
    | inr (rest, p) ↦
        let (r', b, q, short) = addresses-suffix r net (next_ip ip) rest a p (ground arith) in
        (r', b, q, ground arith)
  ]
]

-- An address that the loop lists is not listed again from the next address on.
unrepeated :
    (r : ℕ) (net : IpNet) (ip : List ℕ) (rest : List (List ℕ))
    → addresses r net (next_ip ip) ≡ some rest
    → addresses (suc r) net ip ≡ some (ip ∷ rest)
    → listed ip rest ≡ false
unrepeated r net ip rest p e = elim (Bool-cases (listed ip rest)) [
  | inr once ↦ once
  | inl twice ↦
      let (r', b, q, short) = addresses-suffix r net (next_ip ip) rest ip p twice in
      let same = addresses-agree (suc r) r' net ip (ip ∷ rest) b e q in
      absurd (ground (arith, ap length same))
]

-- The loop lists no address twice.
pub addresses-Unique :
    (r : ℕ) (net : IpNet) (ip : List ℕ) (ips : List (List ℕ))
    → addresses r net ip ≡ some ips
    → Unique ips
unfolding addresses Unique
addresses-Unique zero net ip ips e = absurd (ground arith)
addresses-Unique (suc r) net ip ips e = elim (Bool-cases (contains_ip net ip)) [
  | inr outside ↦ let none_listed : [] ≡ ips = ground arith in subst Unique none_listed tt
  | inl within ↦ elim (Option-cases (addresses r net (next_ip ip))) [
    | inl none_left ↦ absurd (ground arith)
    | inr (rest, p) ↦
        let ih = addresses-Unique r net (next_ip ip) rest p in
        elim (Bool-cases (equal_ip ip net.ip || equal_ip ip (broadcast net))) [
          | inl skipped ↦ let same : rest ≡ ips = ground arith in subst Unique same ih
          | inr kept ↦
              let same : ip ∷ rest ≡ ips = ground arith in
              subst Unique same (unrepeated r net ip rest p (e ∙ ap some (sym same)), ih)
        ]
  ]
]
