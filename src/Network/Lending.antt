-- ===== src/Network/Lending.antt =====
-- AllocateIP and ReleaseIP: an address is free or lent, never both, and none is lost.
use joblet.Prelude.{
  if_true, if_false, ℕ, ◌≡◌, refl, sym, ◌∙◌, inl, inr, Bool, true, false, String, none, some, ok,
  arith, Bool-cases, Option-cases, str_eq, eq_iff, str_eq_refl, if◌then◌else◌,
}
use joblet.Prelude.Map.{Map}
use joblet.Prelude.Map
use joblet.Network.{NetworkStore, allocate_ip, release_ip}
use joblet.Network.Copies.{copies, IsSound, take_ip-copies, give_back-copies}
use joblet.Network.Pool.{IpPool, is_allocated, take_ip, give_back}

-- Every pool of the store is sound.
abbrev pub AllSound : NetworkStore → Type 0
AllSound s = (name : String) (p : IpPool) → Map.get s.ip_pools name ≡ some p → IsSound p

-- The copies of an address that a network's pool has; none where there is no pool.
unfoldable pub copies_in : NetworkStore → String → String → ℕ
copies_in s name ip = elim (Map.get s.ip_pools name) [ none ↦ 0 | some p ↦ copies p ip ]

-- Is the address lent by the network's pool?
unfoldable pub is_lent : NetworkStore → String → String → Bool
is_lent s name ip = elim (Map.get s.ip_pools name) [
  | none ↦ false
  | some p ↦ is_allocated p.allocated ip
]

-- One pool replaced by another with the same copies.
record Swapped (s s' : NetworkStore) (name : String) (p p' : IpPool) : Type 0 where
  before : Map.get s.ip_pools name ≡ some p
  after :
      (n : String)
      → Map.get s'.ip_pools n ≡ (if str_eq name n then some p' else Map.get s.ip_pools n)
  same : (j : String) → copies p' j ≡ copies p j

module _ {s s' : NetworkStore} {name : String} {p p' : IpPool} (w : Swapped s s' name p p') where
  swapped_copies : (n j : String) → copies_in s' n j ≡ copies_in s n j
  unfolding copies_in
  swapped_copies n j = elim (Bool-cases (str_eq name n)) [
    | inl hit ↦
        let here : Map.get s.ip_pools n ≡ some p = ground (arith, w.before, eq_iff name n) in
        let now : Map.get s'.ip_pools n ≡ some p' = ground (arith, w.after n) in
        rw (here, now, copies_in) (w.same j)
    | inr miss ↦ let now = w.after n ∙ if_false _ _ miss in rw (now, copies_in) refl
  ]

  swapped_sound : AllSound s → AllSound s'
  swapped_sound sound n q e j = elim (Bool-cases (str_eq name n)) [
    | inl hit ↦
        let same : p' ≡ q = ground (arith, w.after n) in
        rw (← same) (omega (arith, w.same j, sound name p w.before j))
    | inr miss ↦ sound n q (sym (if_false _ _ miss) ∙ sym (w.after n) ∙ e) j
  ]

allocate_ip-Swapped :
    (s s' : NetworkStore) (name ip : String)
    → AllSound s
    → allocate_ip s name ≡ (s', ok ip)
    → (p : IpPool) × (p' : IpPool) × Swapped s s' name p p'
      × (is_allocated p.allocated ip ≡ false)
      × (is_allocated p'.allocated ip ≡ true)
unfolding allocate_ip
allocate_ip-Swapped s s' name ip sound e = elim (Option-cases (Map.get s.ip_pools name)) [
  | inl missing ↦ absurd (ground arith)
  | inr (p, found) ↦ elim (Option-cases (take_ip p)) [
    | inl dry ↦ absurd (ground arith)
    | inr ((ip', p'), took) ↦
        let same : ip' ≡ ip = ground arith in
        let pools : s'.ip_pools ≡ Map.put s.ip_pools name p' = ground arith in
        let (idle, lent, kept) = take_ip-copies p p' ip (sound name p found) (rw same at took) in
        (
          p,
          p',
          record {
            before = found;
            after = λ n. rw pools (Map.get-put s.ip_pools name n p');
            same = kept;
          },
          idle,
          lent,
        )
  ]
]

-- In a store whose pools have every address at most once, AllocateIP hands out an address that was
-- not lent; afterwards it is lent, and in every network every address has as many copies as before,
-- so none appears twice and none is lost.
pub allocate_ip-lends :
    (s s' : NetworkStore) (name ip : String)
    → AllSound s
    → allocate_ip s name ≡ (s', ok ip)
    → (is_lent s name ip ≡ false)
      × (is_lent s' name ip ≡ true)
      × ((n j : String) → copies_in s' n j ≡ copies_in s n j)
      × AllSound s'
unfolding is_lent
allocate_ip-lends s s' name ip sound e =
    let (p, p', w, idle, lent) = allocate_ip-Swapped s s' name ip sound e in
    let now = w.after name ∙ if_true _ _ (str_eq_refl name) in
    (rw (w.before, is_lent) idle, rw (now, is_lent) lent, swapped_copies w, swapped_sound w sound)

release_ip-Swapped :
    (s s' : NetworkStore) (name ip : String)
    → release_ip s name ip ≡ (s', none)
    → (p : IpPool) × (p' : IpPool) × Swapped s s' name p p'
      × (is_allocated p.allocated ip ≡ true)
      × (is_allocated p'.allocated ip ≡ false)
unfolding release_ip
release_ip-Swapped s s' name ip e = elim (Option-cases (Map.get s.ip_pools name)) [
  | inl missing ↦ absurd (ground arith)
  | inr (p, found) ↦ elim (Option-cases (give_back p ip)) [
    | inl refused ↦ absurd (ground arith)
    | inr (p', gave) ↦
        let pools : s'.ip_pools ≡ Map.put s.ip_pools name p' = ground arith in
        let (lent, idle, kept) = give_back-copies p p' ip gave in
        (
          p,
          p',
          record {
            before = found;
            after = λ n. rw pools (Map.get-put s.ip_pools name n p');
            same = kept;
          },
          lent,
          idle,
        )
  ]
]

-- In a store whose pools have every address at most once, ReleaseIP succeeds only for an address that
-- is lent; afterwards it is not lent any more, and in every network every address has as many copies
-- as before.
pub release_ip-returns :
    (s s' : NetworkStore) (name ip : String)
    → AllSound s
    → release_ip s name ip ≡ (s', none)
    → (is_lent s name ip ≡ true)
      × (is_lent s' name ip ≡ false)
      × ((n j : String) → copies_in s' n j ≡ copies_in s n j)
      × AllSound s'
unfolding is_lent
release_ip-returns s s' name ip sound e =
    let (p, p', w, lent, idle) = release_ip-Swapped s s' name ip e in
    let now = w.after name ∙ if_true _ _ (str_eq_refl name) in
    (rw (w.before, is_lent) lent, rw (now, is_lent) idle, swapped_copies w, swapped_sound w sound)
