-- ===== src/Scheduler/Heap/Slice.antt =====
-- Writes and swaps in the slice: its length, the times at its indices, and the items it holds.
use mathlib.Core.List.{Perm, Permᴰ, perm_middle, append-nil}
use mathlib.Core.Logic.{∥∥₁_elim}
use mathlib.Core.List.Perm
use native.Mathlib.Nat.{ℕ_set}
use joblet.Prelude.{
  ℕ, zero, suc, ◌+◌, ◌<◌, ◌≡◌, refl, ap, ◌∙◌, subst, arith, Bool-cases, Option-cases, some, List,
  [], ◌∷◌, ◌++◌, ◌==◌, length, get_elem?, set, take, get_elem?-inside, false, ==→eq, inl, inr,
  if◌then◌else◌,
}
use joblet.Scheduler.Heap.{ScheduledJob, time_at, swap}

module _ {ℓ} {A : Type ℓ} where
  pub length-set : (a : List A) (i : ℕ) (v : A) → length (set a i v) ≡ length a
  length-set [] n w = omega arith
  length-set (_ ∷ xs) zero w = omega arith
  length-set (_ ∷ xs) (suc n) w = omega (arith, length-set xs n w)

  get_elem?-set_other :
      (a : List A) (i j : ℕ) (v : A) → (i == j) ≡ false → get_elem? (set a i v) j ≡ get_elem? a j
  get_elem?-set_other [] i j v h = refl
  get_elem?-set_other (x ∷ a) zero zero v h = ground arith
  get_elem?-set_other (x ∷ a) zero (suc j) v h = refl
  get_elem?-set_other (x ∷ a) (suc i) zero v h = refl
  get_elem?-set_other (x ∷ a) (suc i) (suc j) v h = get_elem?-set_other a i j v (ground arith)

  get_elem?-set_same :
      (a : List A) (i : ℕ) (v : A) → i < length a → get_elem? (set a i v) i ≡ some v
  get_elem?-set_same [] i v h = absurd (omega arith)
  get_elem?-set_same (x ∷ a) zero v h = refl
  get_elem?-set_same (x ∷ a) (suc i) v h = get_elem?-set_same a i v (omega arith)

  -- A write trades the old element for the new one.
  pub set-perm :
      (a : List A) (i : ℕ) (x v : A) → get_elem? a i ≡ some x → Perm (x ∷ set a i v) (v ∷ a)
  set-perm [] i x v h = ground arith
  set-perm (y ∷ a) zero x v h =
      let e : y ≡ x = cc in subst (λ z. Perm (z ∷ v ∷ a) (v ∷ y ∷ a)) e (Perm.swap v y a)
  set-perm (y ∷ a) (suc i) x v h =
      Perm.trans (Perm.swap y x _) (Perm.trans (Perm.cons y (set-perm a i x v h)) (Perm.swap v y a))

  -- The other elements, which a write leaves
  pub set_parts :
      (a : List A) (i : ℕ) (x v : A)
      → get_elem? a i ≡ some x
      → (others : List A) × Perm (x ∷ others) a × Perm (v ∷ others) (set a i v)
  set_parts [] i x v h = ground arith
  set_parts (y ∷ a) zero x v h =
      let e : y ≡ x = cc in (a, subst (λ z. Perm (z ∷ a) (y ∷ a)) e Perm.rfl, Perm.rfl)
  set_parts (y ∷ a) (suc i) x v h =
      let (others, parts, written) = set_parts a i x v h in
      (
        y ∷ others,
        Perm.trans (Perm.swap y x _) (Perm.cons y parts),
        Perm.trans (Perm.swap y v _) (Perm.cons y written),
      )

  pub append_last-perm : (a : List A) (x : A) → Perm (a ++ (x ∷ [])) (x ∷ a)
  append_last-perm a x = subst (λ b. Perm (a ++ (x ∷ [])) (x ∷ b)) (append-nil a) (perm_middle a [])

  -- The sum of a number for each element
  abbrev pub sum_of : (A → ℕ) → List A → ℕ
  sum_of f [] = 0
  sum_of f (x ∷ a) = f x + sum_of f a

  steps-sum_of : (f : A → ℕ) {a b : List A} → Permᴰ a b → sum_of f a ≡ sum_of f b
  steps-sum_of f Permᴰ.nil = refl
  steps-sum_of f (Permᴰ.cons same rest) = omega (arith, ap f same, steps-sum_of f rest)
  steps-sum_of f (Permᴰ.swap first second) = omega (arith, ap f first, ap f second)
  steps-sum_of f (Permᴰ.trans p q) = steps-sum_of f p ∙ steps-sum_of f q

  -- It does not depend on the order.
  pub sum_of-perm : (f : A → ℕ) {a b : List A} → Perm a b → sum_of f a ≡ sum_of f b
  sum_of-perm f p = ∥∥₁_elim p (ℕ_set _ _) (steps-sum_of f)

  length-sum_of : (a : List A) → length a ≡ sum_of (λ _. 1) a
  length-sum_of [] = omega arith
  length-sum_of (_ ∷ a) = omega (arith, length-sum_of a)

  pub length-perm : {a b : List A} → Perm a b → length a ≡ length b
  length-perm {a = a} {b = b} p =
      omega (arith, length-sum_of a, length-sum_of b, sum_of-perm (λ _. 1) p)

  pub take_all :
      (n : ℕ) (a : List A) (x : A)
      → length a ≡ suc n
      → get_elem? a n ≡ some x
      → take n a ++ (x ∷ []) ≡ a
  take_all n [] x h e = ground arith
  take_all zero (y ∷ []) x h e = cc
  take_all zero (y ∷ z ∷ a) x h e = absurd (omega arith)
  take_all (suc n) (y ∷ a) x h e = ap (◌∷◌ y) (take_all n a x (omega arith) e)

  -- The first elements and the last one are all of them.
  pub take-perm :
      (n : ℕ) (a : List A) (x : A)
      → length a ≡ suc n
      → get_elem? a n ≡ some x
      → Perm (x ∷ take n a) a
  take-perm n a x h e =
      subst (λ b. Perm (x ∷ take n a) b) (take_all n a x h e)
        (Perm.symm (append_last-perm (take n a) x))

pub time_at-set :
    (a : List ScheduledJob) (i c : ℕ) (v : ScheduledJob)
    → i < length a
    → time_at (set a i v) c ≡ (if i == c then v.scheduled_time else time_at a c)
time_at-set [] i c v h = absurd (omega arith)
time_at-set (x ∷ a) zero zero v h = refl
time_at-set (x ∷ a) (suc i) (suc c) v h = ground (arith, time_at-set a i c v)
time_at-set (x ∷ a) zero (suc c) v h = ground arith
time_at-set (x ∷ a) (suc i) zero v h = ground arith

pub time_at-get_elem? :
    (a : List ScheduledJob) (i : ℕ) (x : ScheduledJob)
    → get_elem? a i ≡ some x
    → time_at a i ≡ x.scheduled_time
time_at-get_elem? [] i x h = ground arith
time_at-get_elem? (y ∷ a) zero x h = cc
time_at-get_elem? (y ∷ a) (suc i) x h = time_at-get_elem? a i x h

pub time_at-take :
    (n : ℕ) (a : List ScheduledJob) (c : ℕ) → c < n → time_at (take n a) c ≡ time_at a c
time_at-take zero a c h = absurd (omega arith)
time_at-take (suc n) [] c h = refl
time_at-take (suc n) (x ∷ a) zero h = refl
time_at-take (suc n) (x ∷ a) (suc c) h = time_at-take n a c (omega arith)

pub time_at-append :
    (a b : List ScheduledJob) (c : ℕ) → c < length a → time_at (a ++ b) c ≡ time_at a c
time_at-append [] b c h = absurd (omega arith)
time_at-append (x ∷ a) b zero h = refl
time_at-append (x ∷ a) b (suc c) h = time_at-append a b c (omega arith)

pub length-swap : (a : List ScheduledJob) (i j : ℕ) → length (swap a i j) ≡ length a
unfolding swap
length-swap a i j = elim (Option-cases (get_elem? a i)) [
  | inl e ↦ ground (arith, e)
  | inr (x, e) ↦ elim (Option-cases (get_elem? a j)) [
    | inl f ↦ ground (arith, e, f)
    | inr (y, f) ↦ ground (arith, e, f, length-set (set a i y) j x, length-set a i y)
  ]
]

module _ (a : List ScheduledJob) (i j : ℕ) (hi : i < length a) (hj : j < length a) where
  swap-eq :
      (x y : ScheduledJob)
      → get_elem? a i ≡ some x
      → get_elem? a j ≡ some y
      → swap a i j ≡ set (set a i y) j x
  unfolding swap
  swap-eq x y p q = ground (arith, p, q)

  pub time_at-swap :
      (c : ℕ)
      → time_at (swap a i j) c
        ≡ (if j == c then time_at a i else if i == c then time_at a j else time_at a c)
  time_at-swap c =
      let (x, p) = get_elem?-inside a i hi in
      let (y, q) = get_elem?-inside a j hj in
      rw (
        swap-eq x y p q,
        time_at-set (set a i y) j c x (rw length-set hj),
        time_at-set a i c y hi,
        time_at-get_elem? a i x p,
        time_at-get_elem? a j y q,
      )

  -- The element at j after the first write of the swap
  kept :
      (x y : ScheduledJob)
      → get_elem? a i ≡ some x
      → get_elem? a j ≡ some y
      → get_elem? (set a i y) j ≡ some y
  kept x y p q = elim (Bool-cases (i == j)) [
    | inl same ↦
        subst (λ c. get_elem? (set a i y) c ≡ some y) (==→eq i j same) (get_elem?-set_same a i y hi)
    | inr other ↦ get_elem?-set_other a i j y other ∙ q
  ]

  pub swap-perm : Perm (swap a i j) a
  swap-perm =
      let (x, p) = get_elem?-inside a i hi in
      let (y, q) = get_elem?-inside a j hj in
      rw (swap-eq x y p q) (
        Perm.cons_inv (Perm.trans (set-perm (set a i y) j y x (kept x y p q)) (set-perm a i x y p)))

  pub get_elem?-swap :
      (x : ScheduledJob) → get_elem? a i ≡ some x → get_elem? (swap a i j) j ≡ some x
  get_elem?-swap x p =
      let (y, q) = get_elem?-inside a j hj in
      rw (swap-eq x y p q) (get_elem?-set_same (set a i y) j x (rw length-set hj))

pub swap-outside :
    (a : List ScheduledJob) (i j n : ℕ) → i < n → j < n → get_elem? (swap a i j) n ≡ get_elem? a n
unfolding swap
swap-outside a i j n hi hj = elim (Option-cases (get_elem? a i)) [
  | inl e ↦ ground (arith, e)
  | inr (x, e) ↦ elim (Option-cases (get_elem? a j)) [
    | inl f ↦ ground (arith, e, f)
    | inr (y, f) ↦ ground (
      arith,
      e,
      f,
      get_elem?-set_other (set a i y) j n x (ground arith),
      get_elem?-set_other a i n y (ground arith),
    )
  ]
]
