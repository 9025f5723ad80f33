-- ===== src/Scheduler/Heap/Up.antt =====
-- heap.up puts an item that is due before its parent in its place.
use mathlib.Core.List.Perm
use mathlib.Core.Logic.{◌≢◌}
use joblet.Prelude.{
  ℕ, zero, suc, ◌≤◌, ◌<◌, ◌≡◌, List, refl, get_elem?, arith, length, Bool-cases, inl, inr, true,
  ◌==◌, if_true, if_false, subst, sym,
}
use joblet.Prelude.Int.{◌≤ℤ◌}
use joblet.Scheduler.Heap.{ScheduledJob, time_at, parent, less, swap, up_loop, up}
use joblet.Scheduler.Heap.Order.{IsBridged, Sifted}
use joblet.Scheduler.Heap.Slice.{length-swap, time_at-swap, swap-perm, swap-outside}

-- Only the edge above i may be out of order.
pub record UpInv (n : ℕ) (a : List ScheduledJob) (i : ℕ) : Type 0 where
  pub inside : i < n
  pub size : n ≤ length a
  pub edges : (c : ℕ) → 0 < c → c < n → c ≢ i → time_at a (parent c) ≤ℤ time_at a c
  pub bridged : IsBridged n a i

swap-UpInv :
    (n : ℕ) (a : List ScheduledJob) (i : ℕ)
    → UpInv n a i
    → 0 < i
    → less a i (parent i) ≡ true
    → UpInv n (swap a i (parent i)) (parent i)
swap-UpInv n a i v positive below =
    let at = time_at-swap a i (parent i) (omega arith) (omega arith) in
    record {
      inside = omega arith;
      size = omega (arith, length-swap a i (parent i));
      edges = λ c p q r. ground (arith, at c, at (parent c), v.edges c, v.bridged c);
      bridged =
          λ c p q r s. ground (arith, at c, at (parent (parent i)), v.edges c, v.edges (parent i));
    }

-- Enough rounds of the loop bring the slice in heap order.
pub up_loop-Sifted :
    (k n : ℕ) (a : List ScheduledJob) (i : ℕ) → i < k → UpInv n a i → Sifted n a (up_loop k a i)
unfolding up_loop
up_loop-Sifted zero n a i f v = absurd (omega arith)
up_loop-Sifted (suc k) n a i f v = elim (Bool-cases (parent i == i)) [
  | inl root ↦
      subst (Sifted n a) (sym (if_true _ _ root)) (λ c p q. ground (arith, v.edges c), Perm.rfl)
  | inr inner ↦
      subst (Sifted n a) (sym (if_false _ _ inner)) (elim (Bool-cases (less a i (parent i))) [
        | inl below ↦
            let positive : 0 < i = ground arith in
            let moved = swap-UpInv n a i v positive below in
            let (ordered, same) =
              up_loop-Sifted k n (swap a i (parent i)) (parent i) (omega arith) moved in
            let swapped =
              swap-perm a i (parent i) (omega (arith, v.inside, v.size))
                (omega (arith, v.inside, v.size)) in
            subst (Sifted n a) (sym (if_true _ _ below)) (ordered, Perm.trans same swapped)
        | inr settled ↦
            subst (Sifted n a) (sym (if_false _ _ settled))
              (λ c p q. ground (arith, v.edges c), Perm.rfl)
      ])
]

pub up-Sifted : (n : ℕ) (a : List ScheduledJob) (i : ℕ) → UpInv n a i → Sifted n a (up a i)
unfolding up
up-Sifted n a i v = up_loop-Sifted (suc i) n a i (omega arith) v

-- The loop leaves what stands after its start.
up_loop-outside :
    (k : ℕ) (a : List ScheduledJob) (i n : ℕ) → i < n → get_elem? (up_loop k a i) n ≡ get_elem? a n
unfolding up_loop
up_loop-outside zero a i n h = refl
up_loop-outside (suc k) a i n h =
    let ih = up_loop-outside k (swap a i (parent i)) (parent i) n (omega arith) in
    let kept = swap-outside a i (parent i) n h (omega arith) in
    elim (Bool-cases (parent i == i)) [
      | inl root ↦ ground (arith, root)
      | inr inner ↦ elim (Bool-cases (less a i (parent i))) [
        | inr settled ↦ ground (arith, inner, settled)
        | inl below ↦ ground (arith, inner, below, ih, kept)
      ]
    ]

pub up-outside : (a : List ScheduledJob) (i n : ℕ) → i < n → get_elem? (up a i) n ≡ get_elem? a n
unfolding up
up-outside a i n h = up_loop-outside (suc i) a i n h
