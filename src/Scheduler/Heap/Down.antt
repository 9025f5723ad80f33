-- ===== src/Scheduler/Heap/Down.antt =====
-- heap.down puts an item that is due after one of its children in its place, and the pair of
-- heap.down and heap.up an item at any place.
use mathlib.Core.List.Perm
use mathlib.Core.Logic.{◌≢◌}
use joblet.Prelude.{
  ℕ, zero, suc, ◌+◌, ◌-◌, ◌*◌, ◌≤◌, ◌<◌, ◌≡◌, ◌⊎◌, inl, inr, refl, List, get_elem?, arith, length,
  Bool-cases, true, ltb, lt→ltb, ◌∙◌, if◌then◌else◌, if_true, if_false, subst, sym,
}
use joblet.Prelude.Int.{◌≤ℤ◌}
use joblet.Scheduler.Heap.{
  ScheduledJob, time_at, parent, less, swap, smaller_child, down_loop, down, up,
}
use joblet.Scheduler.Heap.Order.{IsBridged, Sifted}
use joblet.Scheduler.Heap.Slice.{length-swap, time_at-swap, swap-perm, swap-outside}
use joblet.Scheduler.Heap.Up.{UpInv, up-Sifted, up-outside}

-- Only the edges at i may be out of order.
pub record SplitInv (n : ℕ) (a : List ScheduledJob) (i : ℕ) : Type 0 where
  pub inside : i < n
  pub size : n ≤ length a
  pub edges : (c : ℕ) → 0 < c → c < n → c ≢ i → parent c ≢ i → time_at a (parent c) ≤ℤ time_at a c
  pub bridged : IsBridged n a i

-- Only the edges below i may be out of order.
pub record DownInv (n : ℕ) (a : List ScheduledJob) (i : ℕ) : Type 0 where
  pub size : n ≤ length a
  pub edges : (c : ℕ) → 0 < c → c < n → parent c ≢ i → time_at a (parent c) ≤ℤ time_at a c
  pub bridged : IsBridged n a i

-- m is the child of i that is due first.
record IsFirstChild (n : ℕ) (a : List ScheduledJob) (i m : ℕ) : Type 0 where
  inside : m < n
  child : (m ≡ 2 * i + 1) ⊎ (m ≡ 2 * i + 2)
  first : (c : ℕ) → 0 < c → c < n → parent c ≡ i → time_at a m ≤ℤ time_at a c

smaller_child-IsFirstChild :
    (n : ℕ) (a : List ScheduledJob) (i : ℕ)
    → 2 * i + 1 < n
    → IsFirstChild n a i (smaller_child n a i)
smaller_child-IsFirstChild n a i h = record {
  inside = ground arith;
  child = ground arith;
  first = λ c p q r.
      let which : (c ≡ 2 * i + 1) ⊎ (c ≡ 2 * i + 2) = omega arith in
      elim which [ inl e ↦ rw e (ground arith) | inr e ↦ rw e (ground arith) ];
}

swap-DownInv :
    (n : ℕ) (a : List ScheduledJob) (i m : ℕ)
    → SplitInv n a i
    → IsFirstChild n a i m
    → less a m i ≡ true
    → DownInv n (swap a i m) m
swap-DownInv n a i m v s below =
    let at =
      time_at-swap a i m (omega (arith, v.inside, v.size)) (omega (arith, s.inside, v.size)) in
    record {
      size = omega (arith, length-swap a i m, v.size);
      edges = λ c p q r.
          ground (arith, at c, at (parent c), v.edges c, v.bridged m, s.first c, s.child);
      bridged = λ c p q r t. ground (arith, at c, at (parent m), v.edges c, s.child);
    }

DownInv-SplitInv : {n : ℕ} {a : List ScheduledJob} {i : ℕ} → i < n → DownInv n a i → SplitInv n a i
DownInv-SplitInv h v = record {
  inside = h;
  size = v.size;
  edges = λ c p q r. v.edges c p q;
  bridged = v.bridged;
}

-- The children of i are due no earlier: the loop stops.
abbrev Settled : ℕ → List ScheduledJob → ℕ → Type 0
Settled n a i = (c : ℕ) → 0 < c → c < n → parent c ≡ i → time_at a i ≤ℤ time_at a c

pub down_loop-Sifted :
    (k n : ℕ) (a : List ScheduledJob) (i : ℕ)
    → n - i < k
    → DownInv n a i
    → Sifted n a (down_loop k n a i).0
unfolding down_loop
down_loop-Sifted zero n a i f v = absurd (omega arith)
down_loop-Sifted (suc k) n a i f v = elim (Bool-cases (ltb (2 * i + 1) n)) [
  | inr leaf ↦
      subst (λ (r : List ScheduledJob × ℕ). Sifted n a r.0) (sym (if_false _ _ leaf))
        (λ c p q. ground (arith, v.edges c), Perm.rfl)
  | inl parental ↦
      let m = smaller_child n a i in
      let s = smaller_child-IsFirstChild n a i (ground arith) in
      let split = DownInv-SplitInv (ground arith) v in
      subst (λ (r : List ScheduledJob × ℕ). Sifted n a r.0) (sym (if_true _ _ parental))
        (elim (Bool-cases (less a m i)) [
          | inr settled ↦
              subst (λ (r : List ScheduledJob × ℕ). Sifted n a r.0) (sym (if_false _ _ settled))
                (λ c p q. ground (arith, v.edges c, s.first c), Perm.rfl)
          | inl below ↦
              let (ordered, same) =
                down_loop-Sifted k n (swap a i m) m (omega (arith, s.inside, s.child))
                  (swap-DownInv n a i m split s below) in
              let swapped =
                swap-perm a i m (omega (arith, s.inside, s.child, v.size))
                  (omega (arith, s.inside, v.size)) in
              subst (λ (r : List ScheduledJob × ℕ). Sifted n a r.0) (sym (if_true _ _ below))
                (ordered, Perm.trans same swapped)
        ])
]

-- The loop ends at its start or below it.
down_loop-later : (k n : ℕ) (a : List ScheduledJob) (i : ℕ) → i ≤ (down_loop k n a i).1
unfolding down_loop
down_loop-later zero n a i = omega arith
down_loop-later (suc k) n a i =
    let m = smaller_child n a i in
    let ih = down_loop-later k n (swap a i m) m in
    elim (Bool-cases (ltb (2 * i + 1) n)) [
      | inr leaf ↦ ground (arith, leaf)
      | inl parental ↦ elim (Bool-cases (less a m i)) [
        | inr settled ↦ ground (arith, parental, settled)
        | inl below ↦ ground (arith, parental, below, ih)
      ]
    ]

-- The way heap.Remove and heap.Fix put the item at i in its place
abbrev pub settle : ℕ → List ScheduledJob → ℕ → List ScheduledJob
settle n a i = let (b, moved) = down a i n in if moved then b else up b i

-- One round of the loop at i: it stops there, or goes on from the first child.
down_loop_cases :
    (n : ℕ) (a : List ScheduledJob) (i : ℕ)
    → SplitInv n a i
    → ((down_loop (suc n) n a i ≡ (a, i)) × UpInv n a i)
      ⊎ (i < (down_loop (suc n) n a i).1 × Sifted n a (down_loop (suc n) n a i).0)
unfolding down_loop
down_loop_cases n a i v =
    let m = smaller_child n a i in
    let stop : Settled n a i → UpInv n a i = λ h. record {
      inside = v.inside;
      size = v.size;
      edges = λ c p q r. ground (arith, v.edges c, h c);
      bridged = v.bridged;
    } in
    elim (Bool-cases (ltb (2 * i + 1) n)) [
      | inr leaf ↦ inl (if_false _ _ leaf, stop (λ c p q r. absurd (ground arith)))
      | inl parental ↦
          let s = smaller_child-IsFirstChild n a i (ground arith) in
          elim (Bool-cases (less a m i)) [
            | inr settled ↦ inl (
              if_true _ _ parental ∙ if_false _ _ settled,
              stop (λ c p q r. ground (arith, s.first c)),
            )
            | inl below ↦
                let eq : down_loop (suc n) n a i ≡ down_loop n n (swap a i m) m =
                  if_true _ _ parental ∙ if_true _ _ below in
                let (ordered, same) =
                  down_loop-Sifted n n (swap a i m) m (omega (arith, s.inside, s.child))
                    (swap-DownInv n a i m v s below) in
                let swapped =
                  swap-perm a i m (omega (arith, v.inside, v.size))
                    (omega (arith, s.inside, v.size)) in
                let later = down_loop-later n n (swap a i m) m in
                inr (
                  subst (λ (r : List ScheduledJob × ℕ). i < r.1 × Sifted n a r.0) (sym eq)
                    (omega (arith, later, s.child), (ordered, Perm.trans same swapped)))
          ]
    ]

pub settle-Sifted :
    (n : ℕ) (a : List ScheduledJob) (i : ℕ) → SplitInv n a i → Sifted n a (settle n a i)
unfolding down
settle-Sifted n a i v = elim (down_loop_cases n a i v) [
  | inl (stays, up_inv) ↦
      subst (λ (r : List ScheduledJob × ℕ). Sifted n a (if ltb i r.1 then r.0 else up r.0 i))
        (sym stays)
        (subst (Sifted n a) (sym (if_false a (up a i) (ground arith))) (up-Sifted n a i up_inv))
  | inr (later, sifted) ↦ subst (Sifted n a) (sym (if_true _ _ (lt→ltb _ _ later))) sifted
]

pub down-Sifted :
    (n : ℕ) (a : List ScheduledJob) (i : ℕ) → DownInv n a i → Sifted n a (down a i n).0
unfolding down
down-Sifted n a i v = down_loop-Sifted (suc n) n a i (omega arith) v

-- The loop leaves what stands after the first n items.
down_loop-outside :
    (k n : ℕ) (a : List ScheduledJob) (i : ℕ) → get_elem? (down_loop k n a i).0 n ≡ get_elem? a n
unfolding down_loop
down_loop-outside zero n a i = refl
down_loop-outside (suc k) n a i =
    let m = smaller_child n a i in
    let ih = down_loop-outside k n (swap a i m) m in
    elim (Bool-cases (ltb (2 * i + 1) n)) [
      | inr leaf ↦ ground (arith, leaf)
      | inl parental ↦ elim (Bool-cases (less a m i)) [
        | inr settled ↦ ground (arith, parental, settled)
        | inl below ↦
            let s = smaller_child-IsFirstChild n a i (ground arith) in
            let kept = swap-outside a i m n (omega (arith, s.inside, s.child)) s.inside in
            ground (arith, parental, below, ih, kept)
      ]
    ]

pub down-outside : (a : List ScheduledJob) (i n : ℕ) → get_elem? (down a i n).0 n ≡ get_elem? a n
unfolding down
down-outside a i n = down_loop-outside (suc n) n a i

pub settle-outside :
    (n : ℕ) (a : List ScheduledJob) (i : ℕ) → i < n → get_elem? (settle n a i) n ≡ get_elem? a n
settle-outside n a i h =
    let below = down-outside a i n in
    elim (Bool-cases (down a i n).1) [
      | inl moved ↦ ground (arith, moved, below)
      | inr stays ↦ ground (arith, stays, below, up-outside (down a i n).0 i n h)
    ]
