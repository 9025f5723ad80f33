-- ===== src/Gpu/Pool.antt =====
-- What a write through pointers into the pool does to a lookup, and which GPUs a strategy selects.
use mathlib.Core.Option
use joblet.Prelude.{
  ℕ, ◌≤◌, ◌≡◌, refl, ◌⊎◌, inl, inr, Bool, true, Option, none, some, List, [], ◌∷◌, arith, length,
  length-take, contains, keep, Distinct, All, Bool-cases, ◌==◌, if◌then◌else◌,
}
use joblet.Prelude.Int.{ℤ}
use joblet.Gpu.Device.{Gpu, find, modify, modify_all, indices}
use joblet.Gpu.Selection.{
  Strategy, first_fit, pack, spread, best_fit, by_index, by_index_desc, by_waste, choose,
}
use joblet.Prelude.Sort.{sort_slice, All-sort_slice, length-sort_slice}
use joblet.Gpu.Sorting.{All-take, All-spread_out, length-spread_out}
use joblet.Gpu.Keys.{Distinct-take, Distinct-sort_slice, Distinct-spread_out}

module _ (f : Gpu → Gpu) (same_index : (g : Gpu) → (f g).index ≡ g.index) where
  pub find-modify :
      (gs : List Gpu) (i j : ℕ)
      → find (modify gs i f) j ≡ (if i == j then Option.map f (find gs j) else find gs j)
  unfolding find modify
  find-modify [] i j = ground arith
  find-modify (g ∷ gs) i j = ground (arith, same_index g, find-modify gs i j)

  pub find-modify_all :
      (idempotent : (g : Gpu) → f (f g) ≡ f g) (gs : List Gpu) (is : List ℕ) (j : ℕ)
      → find (modify_all gs is f) j
        ≡ (if contains is j then Option.map f (find gs j) else find gs j)
  unfolding modify_all
  find-modify_all idempotent gs [] j = refl
  find-modify_all idempotent gs (i ∷ is) j =
      let ih = find-modify_all idempotent (modify gs i f) is j in
      let here = find-modify gs i j in
      elim (Option-view (find gs j)) [
        | inl e ↦ ground (arith, ih, here)
        | inr (g, e) ↦ ground (arith, ih, here, idempotent g)
      ]
    where
      Option-view : (o : Option Gpu) → (o ≡ none) ⊎ ((g : Gpu) × (o ≡ some g))
      Option-view none = inl refl
      Option-view (some g) = inr (g, refl)

  pub indices-modify : (gs : List Gpu) (i : ℕ) → indices (modify gs i f) ≡ indices gs
  unfolding modify
  indices-modify [] i = refl
  indices-modify (g ∷ gs) i = ground (arith, same_index g, indices-modify gs i)

  pub indices-modify_all : (gs : List Gpu) (is : List ℕ) → indices (modify_all gs is f) ≡ indices gs
  unfolding modify_all
  indices-modify_all gs [] = refl
  indices-modify_all gs (i ∷ is) =
      ground (arith, indices-modify_all (modify gs i f) is, indices-modify gs i)

-- The strategies select as many GPUs as are asked for, all from the list, none twice.
pub length-choose :
    (s : Strategy) (gs : List Gpu) (n : ℕ) (need : ℤ)
    → n ≤ length gs
    → length (choose s gs n need) ≡ n
unfolding choose
length-choose first_fit gs n need h = length-take n gs h
length-choose pack gs n need h =
    length-take n (sort_slice by_index gs) (rw (length-sort_slice by_index gs) h)
length-choose spread gs n need h =
    length-spread_out (sort_slice by_index_desc gs) n (rw (length-sort_slice by_index_desc gs) h)
length-choose best_fit gs n need h =
    length-take n (sort_slice (by_waste need) gs) (rw (length-sort_slice (by_waste need) gs) h)

pub All-choose {ℓ} :
    (P : Gpu → Type ℓ) (s : Strategy) (gs : List Gpu) (n : ℕ) (need : ℤ)
    → All P gs
    → All P (choose s gs n need)
unfolding choose
All-choose P first_fit gs n need h = All-take P n gs h
All-choose P pack gs n need h =
    All-take P n (sort_slice by_index gs) (All-sort_slice by_index P gs h)
All-choose P spread gs n need h =
    All-spread_out P (sort_slice by_index_desc gs) n (All-sort_slice by_index_desc P gs h)
All-choose P best_fit gs n need h =
    All-take P n (sort_slice (by_waste need) gs) (All-sort_slice (by_waste need) P gs h)

pub Distinct-choose :
    (s : Strategy) (gs : List Gpu) (n : ℕ) (need : ℤ)
    → Distinct (indices gs)
    → Distinct (indices (choose s gs n need))
unfolding choose
Distinct-choose first_fit gs n need h = Distinct-take _ n gs h
Distinct-choose pack gs n need h =
    Distinct-take _ n (sort_slice by_index gs) (Distinct-sort_slice _ by_index gs h)
Distinct-choose spread gs n need h =
    Distinct-spread_out _ (sort_slice by_index_desc gs) n (Distinct-sort_slice _ by_index_desc gs h)
Distinct-choose best_fit gs n need h =
    Distinct-take _ n (sort_slice (by_waste need) gs) (Distinct-sort_slice _ (by_waste need) gs h)

All-mono {ℓ κ} :
    {P : Gpu → Type ℓ} {Q : Gpu → Type κ} (gs : List Gpu)
    → ((g : Gpu) → P g → Q g)
    → All P gs
    → All Q gs
All-mono [] f h = tt
All-mono (g ∷ gs) f h = (f g h.0, All-mono gs f h.1)

contains-find :
    (gs : List Gpu) (i : ℕ) (g : Gpu) → find gs i ≡ some g → contains (indices gs) i ≡ true
unfolding find
contains-find [] i g e = cc
contains-find (h ∷ gs) i g e = ground (arith, contains-find gs i g)

-- In a pool with distinct indices every GPU is the one that its index finds.
pub All-find : (gs : List Gpu) → Distinct (indices gs) → All (λ g. find gs g.index ≡ some g) gs
unfolding find
All-find [] d = tt
All-find (h ∷ gs) d = (ground arith, All-mono gs step (All-find gs d.1))
  where
    step : (g : Gpu) → find gs g.index ≡ some g → find (h ∷ gs) g.index ≡ some g
    step g e = ground (arith, contains-find gs g.index g)

pub All-keep {ℓ} :
    (P : Gpu → Type ℓ) (p : Gpu → Bool) (gs : List Gpu)
    → All P gs
    → All (λ g. P g × (p g ≡ true)) (keep p gs)
All-keep P p [] h = tt
All-keep P p (g ∷ gs) h = elim (Bool-cases (p g)) [
  | inl e ↦ rw e ((h.0, e), All-keep P p gs h.1)
  | inr e ↦ rw e (All-keep P p gs h.1)
]

-- An index among those of the list is that of one of its GPUs.
pub All-contains {ℓ} :
    (P : Gpu → Type ℓ) (gs : List Gpu) (i : ℕ)
    → All P gs
    → contains (indices gs) i ≡ true
    → (g : Gpu) × P g × (g.index ≡ i)
All-contains P [] i h e = absurd (cc)
All-contains P (g ∷ gs) i h e = elim (Bool-cases (g.index == i)) [
  | inl hit ↦ (g, h.0, ground arith)
  | inr miss ↦ All-contains P gs i h.1 (ground arith)
]
