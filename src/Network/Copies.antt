-- ===== src/Network/Copies.antt =====
-- The copies of an address in one pool, which taking and giving back keep.
use joblet.Prelude.{
  ℕ, ◌+◌, ◌≤◌, ◌≡◌, inl, inr, Bool, true, false, String, some, List, [], ◌∷◌, ◌++◌, arith,
  Bool-cases, str_eq, eq_iff, str_eq_refl, if◌then◌else◌,
}
use joblet.Prelude.Map.{Map}
use joblet.Prelude.Map
use joblet.Network.Pool.{IpPool, is_allocated, take_ip, give_back}

-- How often an address stands in a list.
abbrev pub count : String → List String → ℕ
count ip [] = 0
count ip (j ∷ js) = if str_eq j ip then count ip js + 1 else count ip js

count-append : (ip : String) (xs ys : List String) → count ip (xs ++ ys) ≡ count ip xs + count ip ys
count-append ip [] ys = omega arith
count-append ip (x ∷ xs) ys = ground (arith, count-append ip xs ys)

-- The copies of an address in a pool, free and lent. A sound pool has at most one of each.
abbrev pub copies : IpPool → String → ℕ
copies p ip = count ip p.available + (if is_allocated p.allocated ip then 1 else 0)

abbrev pub IsSound : IpPool → Type 0
IsSound p = (ip : String) → copies p ip ≤ 1

is_allocated-put :
    (m : Map Bool) (ip j : String)
    → is_allocated (Map.put m ip true) j ≡ (if str_eq ip j then true else is_allocated m j)
unfolding is_allocated
is_allocated-put m ip j = ground (arith, Map.get-put m ip j true)

is_allocated-remove :
    (m : Map Bool) (ip j : String)
    → is_allocated (Map.remove m ip) j ≡ (if str_eq ip j then false else is_allocated m j)
unfolding is_allocated
is_allocated-remove m ip j = ground (arith, Map.get-remove m ip j)

take_free :
    (m : Map Bool) (free : List String) (ip : String) (p' : IpPool)
    → IsSound (record { allocated = m; available = free })
    → take_ip (record { allocated = m; available = free }) ≡ some (ip, p')
    → (is_allocated m ip ≡ false)
      × (is_allocated p'.allocated ip ≡ true)
      × ((j : String) → copies p' j ≡ copies (record { allocated = m; available = free }) j)
unfolding take_ip
take_free m [] ip p' sound e = absurd (cc)
take_free m (x ∷ rest) ip p' sound e =
    let idle : is_allocated m ip ≡ false = ground (arith, sound ip, str_eq_refl ip) in
    (
      idle,
      ground (arith, is_allocated-put m ip ip, str_eq_refl ip),
      λ j. ground (arith, is_allocated-put m ip j, eq_iff ip j, str_eq_refl ip),
    )

-- Taking an address out of a sound pool: it was free and is lent, and every address has as many
-- copies as before.
pub take_ip-copies :
    (p p' : IpPool) (ip : String)
    → IsSound p
    → take_ip p ≡ some (ip, p')
    → (is_allocated p.allocated ip ≡ false)
      × (is_allocated p'.allocated ip ≡ true)
      × ((j : String) → copies p' j ≡ copies p j)
take_ip-copies p p' ip sound e = take_free p.allocated p.available ip p' sound e

-- Giving an address back: it was lent and is free, and every address has as many copies as before.
pub give_back-copies :
    (p p' : IpPool) (ip : String)
    → give_back p ip ≡ some p'
    → (is_allocated p.allocated ip ≡ true)
      × (is_allocated p'.allocated ip ≡ false)
      × ((j : String) → copies p' j ≡ copies p j)
unfolding give_back
give_back-copies p p' ip e = elim (Bool-cases (is_allocated p.allocated ip)) [
  | inr idle ↦ absurd (ground arith)
  | inl lent ↦ (
    lent,
    ground (arith, is_allocated-remove p.allocated ip ip, str_eq_refl ip),
    λ j. ground (
      arith,
      is_allocated-remove p.allocated ip j,
      eq_iff ip j,
      count-append j p.available (ip ∷ []),
    ),
  )
]
