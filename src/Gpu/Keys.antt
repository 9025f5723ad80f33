-- ===== src/Gpu/Keys.antt =====
-- The pieces from which the strategies are built keep numeric keys distinct, and add none.
use joblet.Prelude.{
  ◌∙◌, ℕ, zero, suc, ◌*◌, ◌/◌, ◌<◌, ◌≡◌, refl, inl, inr, Bool, false, ◌&&◌, ◌||◌, some, List, [],
  ◌∷◌, map, arith, ltb, leb, length, take, get_elem?, keep, contains, Distinct, Option-cases,
  Bool-cases, ◌==◌,
}
use joblet.Gpu.Selection.{picks, spread_out}
use joblet.Prelude.Sort.{insert_by, sort_slice}
use joblet.Gpu.Sorting.{spread_out-picks}

module _ {ℓ} {A : Type ℓ} (key : A → ℕ) where
  abbrev pub keys : List A → List ℕ
  keys = map key

  module _ (less : A → A → Bool) where
    contains-insert_by :
        (x : A) (ys : List A) (a : ℕ)
        → contains (keys (insert_by less x ys)) a ≡ ((key x == a) || contains (keys ys) a)
    unfolding insert_by
    contains-insert_by x [] a = refl
    contains-insert_by x (y ∷ ys) a = ground (arith, contains-insert_by x ys a)

    pub contains-sort_slice :
        (xs : List A) (a : ℕ) → contains (keys (sort_slice less xs)) a ≡ contains (keys xs) a
    unfolding sort_slice
    contains-sort_slice [] a = refl
    contains-sort_slice (x ∷ xs) a =
        ground (arith, contains-insert_by x (sort_slice less xs) a, contains-sort_slice xs a)

    Distinct-insert_by :
        (x : A) (ys : List A)
        → contains (keys ys) (key x) ≡ false
        → Distinct (keys ys)
        → Distinct (keys (insert_by less x ys))
    unfolding insert_by
    Distinct-insert_by x [] new d = (refl, tt)
    Distinct-insert_by x (y ∷ ys) new d =
        ground (arith, Distinct-insert_by x ys, contains-insert_by x ys (key y))

    pub Distinct-sort_slice :
        (xs : List A) → Distinct (keys xs) → Distinct (keys (sort_slice less xs))
    unfolding sort_slice
    Distinct-sort_slice [] d = tt
    Distinct-sort_slice (x ∷ xs) d =
        Distinct-insert_by x (sort_slice less xs) (contains-sort_slice xs (key x) ∙ d.0)
          (Distinct-sort_slice xs d.1)

  contains-keep :
      (p : A → Bool) (xs : List A) (a : ℕ)
      → contains (keys xs) a ≡ false
      → contains (keys (keep p xs)) a ≡ false
  contains-keep p [] a h = refl
  contains-keep p (x ∷ xs) a h = ground (arith, contains-keep p xs a)

  pub Distinct-keep :
      (p : A → Bool) (xs : List A) → Distinct (keys xs) → Distinct (keys (keep p xs))
  Distinct-keep p [] d = tt
  Distinct-keep p (x ∷ xs) d = ground (arith, Distinct-keep p xs, contains-keep p xs (key x))

  contains-take :
      (n : ℕ) (xs : List A) (a : ℕ)
      → contains (keys xs) a ≡ false
      → contains (keys (take n xs)) a ≡ false
  contains-take zero xs a h = refl
  contains-take (suc n) [] a h = refl
  contains-take (suc n) (x ∷ xs) a h = ground (arith, contains-take n xs a)

  pub Distinct-take : (n : ℕ) (xs : List A) → Distinct (keys xs) → Distinct (keys (take n xs))
  Distinct-take zero xs d = tt
  Distinct-take (suc n) [] d = tt
  Distinct-take (suc n) (x ∷ xs) d = (contains-take n xs (key x) d.0, Distinct-take n xs d.1)

  -- What a pick at position `p` leaves behind does not hold its key again.
  contains-get_elem? :
      (xs : List A) (p : ℕ) (x : A) (a : ℕ)
      → get_elem? xs p ≡ some x
      → contains (keys xs) a ≡ false
      → (key x == a) ≡ false
  contains-get_elem? [] p x a e h = absurd (cc)
  contains-get_elem? (y ∷ ys) zero x a e h = ground arith
  contains-get_elem? (y ∷ ys) (suc p) x a e h = ground (arith, contains-get_elem? ys p x a e)

  -- Two positions hold different keys.
  Distinct-get_elem? :
      (xs : List A) (p q : ℕ) (x y : A)
      → Distinct (keys xs)
      → p < q
      → get_elem? xs p ≡ some x
      → get_elem? xs q ≡ some y
      → (key y == key x) ≡ false
  Distinct-get_elem? [] p q x y d lt e f = absurd (cc)
  Distinct-get_elem? (z ∷ zs) p zero x y d lt e f = absurd (omega arith)
  Distinct-get_elem? (z ∷ zs) zero (suc q) x y d lt e f =
      let same : z ≡ x = cc in contains-get_elem? zs q y (key x) f (rw same at d.0)
  Distinct-get_elem? (z ∷ zs) (suc p) (suc q) x y d lt e f =
      Distinct-get_elem? zs p q x y d.1 (omega arith) e f

  contains-picks :
      (xs : List A) (k i step p : ℕ) (x : A)
      → Distinct (keys xs)
      → p < i * step
      → get_elem? xs p ≡ some x
      → contains (keys (picks k i step xs)) (key x) ≡ false
  unfolding picks
  contains-picks xs zero i step p x d lt e = refl
  contains-picks xs (suc k) i step p x d lt e = elim (Option-cases (get_elem? xs (i * step))) [
    | inl none_here ↦ rw (none_here, picks) (contains-picks xs k (suc i) step p x d (grind arith) e)
    | inr (y, here) ↦
        rw (here, picks)
          (ground (
            arith,
            Distinct-get_elem? xs p (i * step) x y d lt e here,
            contains-picks xs k (suc i) step p x d (grind arith) e,
          ))
  ]

  Distinct-picks :
      (xs : List A) (k i step : ℕ)
      → Distinct (keys xs)
      → 0 < step
      → Distinct (keys (picks k i step xs))
  unfolding picks
  Distinct-picks xs zero i step d pos = tt
  Distinct-picks xs (suc k) i step d pos = elim (Option-cases (get_elem? xs (i * step))) [
    | inl none_here ↦ rw (none_here, picks) (Distinct-picks xs k (suc i) step d pos)
    | inr (y, here) ↦
        rw (here, picks)
          (
            contains-picks xs k (suc i) step (i * step) y d (grind arith) here,
            Distinct-picks xs k (suc i) step d pos,
          )
  ]

  pub Distinct-spread_out :
      (xs : List A) (n : ℕ) → Distinct (keys xs) → Distinct (keys (spread_out xs n))
  Distinct-spread_out xs n d = elim (Bool-cases (ltb 1 n && leb (n * 2) (length xs))) [
    | inl e ↦
        let (same, pos, _) = spread_out-picks xs n e in
        rw same (Distinct-picks xs n 0 (length xs / n) d pos)
    | inr e ↦ unfold spread_out in rw e (Distinct-take n xs d)
  ]
