-- ===== src/Scheduler/Queue.antt =====
-- What each method of PriorityQueue does to the items, and that it keeps the heap order.
use native.Mathlib.Bridge.{le_prop}
use mathlib.Core.List.{Perm, Mem, not-mem-nil, forall_mem-cons}
use mathlib.Core.List.Perm
use joblet.Prelude.{
  ℕ, suc, ◌+◌, ◌-◌, ◌<◌, ◌≡◌, ◌⊎◌, inl, inr, refl, sym, ap, ◌∙◌, All, Bool, subst, String, Option,
  none, some, List, [], ◌∷◌, ◌++◌, arith, length, get_elem?, set, take, Bool-cases, true, false,
  ◌==◌, str_eq, str_eq→eq, if_true, if_false, length-append, length-take, ==→eq,
}
use joblet.Prelude.Int.{ℤ, ◌≤ℤ◌}
use joblet.Jobs.Domain.{Job}
use joblet.Scheduler.{PriorityQueue, next, index_of, remove, retimed, update}
use joblet.Scheduler.Heap.{
  ScheduledJob, time_at, parent, swap, down, heap_push, heap_remove, heap_pop, heap_fix,
}
use joblet.Scheduler.Heap.Order.{IsHeapTo, IsHeap, Sifted, root_first}
use joblet.Scheduler.Heap.Up.{UpInv, up-Sifted}
use joblet.Scheduler.Heap.Down.{
  SplitInv, DownInv, settle, settle-Sifted, down-Sifted, settle-outside, down-outside,
}
use joblet.Scheduler.Heap.Slice.{
  length-set, length-swap, time_at-swap, time_at-set, time_at-take, time_at-append, swap-perm,
  get_elem?-swap, take-perm, length-perm, append_last-perm, set_parts,
}

-- A heap of these items
abbrev pub HeapOf : List ScheduledJob → List ScheduledJob → Type 0
HeapOf items q = IsHeap q × Perm q items

Sifted-HeapOf : {a b : List ScheduledJob} → Sifted (length a) a b → HeapOf a b
Sifted-HeapOf {a = a} {b = b} (ordered, same) =
    (subst (λ n. IsHeapTo n b) (sym (length-perm same)) ordered, same)

pub heap_push-HeapOf :
    (q : PriorityQueue) (x : ScheduledJob) → IsHeap q → HeapOf (x ∷ q) (heap_push q x)
unfolding heap_push
heap_push-HeapOf q x h =
    let size = length-append q (x ∷ []) in
    let at = time_at-append q (x ∷ []) in
    let inv : UpInv (length (q ++ (x ∷ []))) (q ++ (x ∷ [])) (length q) = record {
      inside = omega (arith, size);
      size = omega arith;
      edges = λ c p r s. ground (arith, size, at c, at (parent c), h c);
      bridged = λ c p r s t. absurd (omega (arith, size));
    } in
    let (ordered, same) = Sifted-HeapOf (up-Sifted _ _ _ inv) in
    (ordered, Perm.trans same (append_last-perm q x))

pub heap_fix-HeapOf :
    (q : PriorityQueue) (i : ℕ) (x : ScheduledJob)
    → IsHeap q
    → i < length q
    → HeapOf (set q i x) (heap_fix (set q i x) i)
unfolding heap_fix
heap_fix-HeapOf q i x h p =
    let at = λ (c : ℕ). time_at-set q i c x p in
    let inv : SplitInv (length (set q i x)) (set q i x) i = record {
      inside = omega (arith, length-set q i x);
      size = omega arith;
      edges = λ c r s t u. ground (arith, length-set q i x, at c, at (parent c), h c);
      bridged = λ c r s t u. ground (arith, length-set q i x, at c, at (parent i), h c, h i);
    } in
    Sifted-HeapOf (settle-Sifted _ _ _ inv)

-- The first n of n + 1 items in heap order, and the last one
cut-HeapOf :
    (n : ℕ) (q b : List ScheduledJob) (x : ScheduledJob)
    → length q ≡ suc n
    → Sifted n q b
    → get_elem? b n ≡ some x
    → IsHeap (take n b) × Perm (x ∷ take n b) q
cut-HeapOf n q b x size (ordered, same) last =
    let whole : length b ≡ suc n = length-perm same ∙ size in
    let shorter = length-take n b (omega arith) in
    let at = time_at-take n b in
    (
      λ c p r. ground (arith, shorter, ordered c, at c, at (parent c)),
      Perm.trans (take-perm n b x whole last) same,
    )

-- heap.Remove takes out the item at the index, and heap.Pop the first.
pub heap_remove-HeapOf :
    (q : PriorityQueue) (i : ℕ) (x : ScheduledJob)
    → IsHeap q
    → get_elem? q i ≡ some x
    → i < length q
    → IsHeap (heap_remove q i) × Perm (x ∷ heap_remove q i) q
unfolding heap_remove
heap_remove-HeapOf q i x h e p =
    let n = length q - 1 in
    let size : length q ≡ suc n = omega arith in
    let Goal : List ScheduledJob → Type 0 = λ b. IsHeap (take n b) × Perm (x ∷ take n b) q in
    elim (Bool-cases (n == i)) [
      | inl last ↦ subst Goal (sym (if_true q (settle n (swap q i n) i) last)) (
          cut-HeapOf n q q x size (λ c r s. h c r (omega arith), Perm.rfl)
            (subst (λ m. get_elem? q m ≡ some x) (sym (==→eq n i last)) e))
      | inr inner ↦
          let inside : i < n = ground arith in
          let at = time_at-swap q i n p (omega arith) in
          let inv : SplitInv n (swap q i n) i = record {
            inside = inside;
            size = omega (arith, length-swap q i n);
            edges = λ c r s t u. ground (arith, at c, at (parent c), h c);
            bridged = λ c r s t u. ground (arith, at c, at (parent i), h c, h i);
          } in
          let (ordered, same) = settle-Sifted n (swap q i n) i inv in
          let swapped = swap-perm q i n p (omega arith) in
          subst Goal (sym (if_false q (settle n (swap q i n) i) inner)) (
            cut-HeapOf n q (settle n (swap q i n) i) x size (ordered, Perm.trans same swapped)
              (settle-outside n (swap q i n) i inside ∙ get_elem?-swap q i n p (omega arith) x e))
    ]

pub heap_pop-HeapOf :
    (q : PriorityQueue) (x : ScheduledJob)
    → IsHeap q
    → get_elem? q 0 ≡ some x
    → 0 < length q
    → ((heap_pop q).0 ≡ some x) × IsHeap (heap_pop q).1 × Perm (x ∷ (heap_pop q).1) q
unfolding heap_pop
heap_pop-HeapOf q x h e p =
    let n = length q - 1 in
    let at = time_at-swap q 0 n p (omega arith) in
    let inv : DownInv n (swap q 0 n) 0 = record {
      size = omega (arith, length-swap q 0 n);
      edges = λ c r s t. ground (arith, at c, at (parent c), h c);
      bridged = λ c r s t u. absurd (omega arith);
    } in
    let (ordered, same) = down-Sifted n (swap q 0 n) 0 inv in
    let last : get_elem? (down (swap q 0 n) 0 n).0 n ≡ some x =
      down-outside (swap q 0 n) 0 n ∙ get_elem?-swap q 0 n p (omega arith) x e in
    let sifted : Sifted n q (down (swap q 0 n) 0 n).0 =
      (ordered, Perm.trans same (swap-perm q 0 n p (omega arith))) in
    let (heap, perm) = cut-HeapOf n q (down (swap q 0 n) 0 n).0 x (omega arith) sifted last in
    (last, heap, perm)

pub Mem-time :
    (q : PriorityQueue) (b : ℤ)
    → ((i : ℕ) → i < length q → b ≤ℤ time_at q i)
    → (y : ScheduledJob) → Mem y q
    → b ≤ℤ y.scheduled_time
Mem-time [] b h = λ y m. absurd (not-mem-nil m)
Mem-time (x ∷ q) b h =
    (forall_mem-cons λ y. le_prop).1
      (h 0 (omega arith), Mem-time q b λ i p. h (suc i) (omega arith))

-- What Next does: it takes the item x, of those that are due first.
pub record Taken (q : PriorityQueue) (x : ScheduledJob) (r : Option Job × PriorityQueue)
    : Type 0 where
  pub answer : r.0 ≡ some x.job
  pub heap : IsHeap r.1
  pub rest : Perm (x ∷ r.1) q
  pub first : (y : ScheduledJob) → Mem y q → x.scheduled_time ≤ℤ y.scheduled_time

-- Next on a queue in heap order answers none if it is empty; if not, it takes out one item, whose
-- job it answers, no other item is due earlier, and the queue stays in heap order.
pub next_first :
    (q : PriorityQueue)
    → IsHeap q
    → ((q ≡ []) × (next q ≡ (none, []))) ⊎ ((x : ScheduledJob) × Taken q x (next q))
unfolding next
next_first [] h = inl (refl, refl)
next_first (x ∷ q) h =
    let (popped, heap, rest) = heap_pop-HeapOf (x ∷ q) x h refl (omega arith) in
    let eq : next (x ∷ q) ≡ (some x.job, (heap_pop (x ∷ q)).1) = ground (arith, popped) in
    inr (
      x,
      subst (Taken (x ∷ q) x) (sym eq) (record {
        answer = refl;
        heap = heap;
        rest = rest;
        first = Mem-time (x ∷ q) x.scheduled_time λ i p. root_first (x ∷ q) i h p;
      }),
    )

-- No item has the UUID.
abbrev pub Absent : String → PriorityQueue → Type 0
Absent id q = All (λ x. str_eq x.job.uuid id ≡ false) q

index_of-found :
    (q : PriorityQueue) (id : String) (k : ℕ)
    → ((index_of q id k ≡ none) × Absent id q)
      ⊎ ((i : ℕ) × (x : ScheduledJob) × (index_of q id k ≡ some (k + i))
          × (get_elem? q i ≡ some x)
          × i < length q
          × (x.job.uuid ≡ id))
unfolding index_of
index_of-found [] id k = inl (refl, tt)
index_of-found (x ∷ q) id k = elim (Bool-cases (str_eq x.job.uuid id)) [
  | inl same ↦ inr (0, x, ground (arith, same), refl, omega arith, str_eq→eq _ _ same)
  | inr other ↦ elim (index_of-found q id (suc k)) [
    | inl (gone, absent) ↦ inl (ground (arith, other, gone), (other, absent))
    | inr (i, y, found, at, inside, named) ↦
        inr (suc i, y, ground (arith, other, found), at, omega arith, named)
  ]
]

-- Remove on a queue in heap order: either no item has the UUID, the answer is false and the queue is
-- unchanged, or the answer is true, one item with the UUID is gone, and the heap order is kept.
pub remove_one :
    (q : PriorityQueue) (id : String)
    → IsHeap q
    → ((remove q id ≡ (q, false)) × Absent id q)
      ⊎ ((x : ScheduledJob) × ((remove q id).1 ≡ true)
          × (x.job.uuid ≡ id)
          × IsHeap (remove q id).0
          × Perm (x ∷ (remove q id).0) q)
unfolding remove
remove_one q id h = elim (index_of-found q id 0) [
  | inl (gone, absent) ↦ inl (ground (arith, gone), absent)
  | inr (i, x, found, at, inside, named) ↦
      let eq : remove q id ≡ (heap_remove q i, true) = ground (arith, found) in
      let (heap, rest) = heap_remove-HeapOf q i x h at inside in
      inr (
        x,
        ap (λ r. r.1) eq,
        named,
        subst (λ (r : PriorityQueue × Bool). IsHeap r.0) (sym eq) heap,
        subst (λ (r : PriorityQueue × Bool). Perm (x ∷ r.0) q) (sym eq) rest,
      )
]

-- Update on a queue in heap order: either no item has the UUID, the answer is false and the queue is
-- unchanged, or the answer is true, one item with the UUID has the new time, in its job too, the
-- others are as before, and the heap order is kept.
pub update_one :
    (q : PriorityQueue) (id : String) (t : ℤ)
    → IsHeap q
    → ((update q id t ≡ (q, false)) × Absent id q)
      ⊎ ((x : ScheduledJob) × (others : List ScheduledJob) × ((update q id t).1 ≡ true)
          × (x.job.uuid ≡ id)
          × Perm (x ∷ others) q
          × IsHeap (update q id t).0
          × Perm (retimed x t ∷ others) (update q id t).0)
unfolding update
update_one q id t h = elim (index_of-found q id 0) [
  | inl (gone, absent) ↦ inl (ground (arith, gone), absent)
  | inr (i, x, found, at, inside, named) ↦
      let b = set q i (retimed x t) in
      let eq : update q id t ≡ (heap_fix b i, true) = ground (arith, found, at) in
      let (heap, same) = heap_fix-HeapOf q i (retimed x t) h inside in
      let (others, parts, retimed_parts) = set_parts q i x (retimed x t) at in
      inr (
        x,
        others,
        ap (λ r. r.1) eq,
        named,
        parts,
        subst (λ (r : PriorityQueue × Bool). IsHeap r.0) (sym eq) heap,
        subst (λ (r : PriorityQueue × Bool). Perm (retimed x t ∷ others) r.0) (sym eq)
            (Perm.trans retimed_parts (Perm.symm same)),
      )
]
