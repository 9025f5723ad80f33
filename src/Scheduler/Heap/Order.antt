-- ===== src/Scheduler/Heap/Order.antt =====
-- The heap order.
use mathlib.Core.List.{Perm}
use joblet.Prelude.{ℕ, zero, suc, ◌<◌, ◌≡◌, List, arith, length}
use joblet.Prelude.Int.{◌≤ℤ◌}
use joblet.Scheduler.Heap.{ScheduledJob, time_at, parent}

-- Among the first n items none is due before its parent.
abbrev pub IsHeapTo : ℕ → List ScheduledJob → Type 0
IsHeapTo n a = (c : ℕ) → 0 < c → c < n → time_at a (parent c) ≤ℤ time_at a c

abbrev pub IsHeap : List ScheduledJob → Type 0
IsHeap a = IsHeapTo (length a) a

-- No child of i is due before the parent of i.
abbrev pub IsBridged : ℕ → List ScheduledJob → ℕ → Type 0
IsBridged n a i =
    (c : ℕ) → 0 < c → c < n → parent c ≡ i → 0 < i → time_at a (parent i) ≤ℤ time_at a c

-- The items of `a` in another order, in heap order up to n
abbrev pub Sifted : ℕ → List ScheduledJob → List ScheduledJob → Type 0
Sifted n a b = IsHeapTo n b × Perm b a

root_first_below :
    (k : ℕ) (a : List ScheduledJob) (i : ℕ)
    → IsHeap a
    → i < k
    → i < length a
    → time_at a 0 ≤ℤ time_at a i
root_first_below zero a i h f p = absurd (omega arith)
root_first_below (suc k) a i h f p = ground (arith, h i, root_first_below k a (parent i) h)

pub root_first :
    (a : List ScheduledJob) (i : ℕ) → IsHeap a → i < length a → time_at a 0 ≤ℤ time_at a i
root_first a i h p = root_first_below (suc i) a i h (omega arith) p
