-- ===== src/Prelude/Sort.antt =====
-- Go's sort.Slice as an insertion sort: its result is ordered by the comparison, and elements that
-- compare equal may stand in another order in Go.
use mathlib.Core.List.{Perm}
use mathlib.Core.List.Perm
use Prim.Native.Nat.{suc}
use mathlib.Core.Path.{◌≡◌, refl}
use mathlib.Core.Logic.{inl, inr}
use mathlib.Core.Bool.{Bool, true, false}
use mathlib.Core.List.{List, [], ◌∷◌}
use native.Mathlib.Omega.{arith}
use joblet.Prelude.Lists.{length, All}
use joblet.Prelude.Tests.{if◌then◌else◌, Bool-cases}

module _ {ℓ} {A : Type ℓ} (less : A → A → Bool) where
  unfoldable pub insert_by : A → List A → List A
  insert_by x [] = x ∷ []
  insert_by x (y ∷ ys) = let rest = insert_by x ys in if less y x then y ∷ rest else x ∷ y ∷ ys

  unfoldable pub sort_slice : List A → List A
  sort_slice [] = []
  sort_slice (x ∷ xs) = insert_by x (sort_slice xs)

module _ {ℓ} {A : Type ℓ} (less : A → A → Bool) where
  length-insert_by : (x : A) (ys : List A) → length (insert_by less x ys) ≡ suc (length ys)
  unfolding insert_by
  length-insert_by x [] = refl
  length-insert_by x (y ∷ ys) = ground (arith, length-insert_by x ys)

  pub length-sort_slice : (xs : List A) → length (sort_slice less xs) ≡ length xs
  unfolding sort_slice
  length-sort_slice [] = refl
  length-sort_slice (x ∷ xs) =
      omega (arith, length-insert_by x (sort_slice less xs), length-sort_slice xs)

  module _ {κ} (P : A → Type κ) where
    All-insert_by : (x : A) (ys : List A) → P x → All P ys → All P (insert_by less x ys)
    unfolding insert_by
    All-insert_by x [] p all = (p, all)
    All-insert_by x (y ∷ ys) p all = elim (Bool-cases (less y x)) [
      | inl e ↦ rw e (all.0, All-insert_by x ys p all.1)
      | inr e ↦ rw e (p, all)
    ]

    pub All-sort_slice : (xs : List A) → All P xs → All P (sort_slice less xs)
    unfolding sort_slice
    All-sort_slice [] all = all
    All-sort_slice (x ∷ xs) all =
        All-insert_by x (sort_slice less xs) all.0 (All-sort_slice xs all.1)

module _ {ℓ} {A : Type ℓ} (less : A → A → Bool) where
  insert_by-perm : (x : A) (ys : List A) → Perm (insert_by less x ys) (x ∷ ys)
  unfolding insert_by
  insert_by-perm x [] = Perm.rfl
  insert_by-perm x (y ∷ ys) = elim (Bool-cases (less y x)) [
    | inl e ↦ rw e (Perm.trans (Perm.cons y (insert_by-perm x ys)) (Perm.swap x y ys))
    | inr e ↦ rw e Perm.rfl
  ]

  pub sort_slice-perm : (xs : List A) → Perm (sort_slice less xs) xs
  unfolding sort_slice
  sort_slice-perm [] = Perm.rfl
  sort_slice-perm (x ∷ xs) =
      Perm.trans (insert_by-perm x (sort_slice less xs)) (Perm.cons x (sort_slice-perm xs))

  -- No element stands before one that is less.
  abbrev pub IsSortedBy : List A → Type 0
  IsSortedBy [] = Unit
  IsSortedBy (x ∷ []) = Unit
  IsSortedBy (x ∷ y ∷ ys) = (less y x ≡ false) × IsSortedBy (y ∷ ys)

  module _ (asym : (x y : A) → less x y ≡ true → less y x ≡ false) where
    insert_by-IsSortedBy : (x : A) (ys : List A) → IsSortedBy ys → IsSortedBy (insert_by less x ys)
    unfolding insert_by
    insert_by-IsSortedBy x [] h = tt
    insert_by-IsSortedBy x (y ∷ []) h = elim (Bool-cases (less y x)) [
      | inl e ↦ rw e (asym y x e, tt)
      | inr e ↦ rw e (e, tt)
    ]
    insert_by-IsSortedBy x (y ∷ z ∷ zs) (h, hs) =
        let ih = insert_by-IsSortedBy x (z ∷ zs) hs in
        elim (Bool-cases (less y x)) [
          | inr e ↦ rw e (e, (h, hs))
          | inl e ↦ elim (Bool-cases (less z x)) [
            | inl f ↦ rw (e, f) (h, rw f at ih)
            | inr f ↦ rw (e, f) (asym y x e, rw f at ih)
          ]
        ]

    pub sort_slice-IsSortedBy : (xs : List A) → IsSortedBy (sort_slice less xs)
    unfolding sort_slice
    sort_slice-IsSortedBy [] = tt
    sort_slice-IsSortedBy (x ∷ xs) =
        insert_by-IsSortedBy x (sort_slice less xs) (sort_slice-IsSortedBy xs)
