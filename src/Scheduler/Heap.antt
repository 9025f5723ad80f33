-- ===== src/Scheduler/Heap.antt =====
-- The slice of the priority queue and Go's container/heap on it: the heap.Interface methods of
-- internal/joblet/scheduler/priority_queue.go and the sifting loops they run under. An item's Index
-- is its position in the slice, which Swap and Push keep, and is left out.
pub mod Slice
pub mod Order
pub mod Up
pub mod Down
use joblet.Prelude.{
  ℕ, zero, suc, ◌+◌, ◌-◌, ◌*◌, ◌/◌, Bool, false, ◌&&◌, Option, none, some, List, [], ◌∷◌, ◌++◌, ltb,
  ◌==◌, length, get_elem?, set, take, if◌then◌else◌,
}
use joblet.Prelude.Int.{ℤ, pos, ltb_ℤ}
use joblet.Jobs.Domain.{Job}

-- ScheduledJob; a time is in nanoseconds since 1970.
pub record ScheduledJob : Type 0 where
  pub job : Job
  pub scheduled_time : ℤ

-- The time of the item at an index; no caller passes one out of range.
abbrev pub time_at : List ScheduledJob → ℕ → ℤ
time_at [] i = pos 0
time_at (x ∷ a) zero = x.scheduled_time
time_at (x ∷ a) (suc i) = time_at a i

-- Less
abbrev pub less : List ScheduledJob → ℕ → ℕ → Bool
less a i j = ltb_ℤ (time_at a i) (time_at a j)

-- Swap
unfoldable pub swap : List ScheduledJob → ℕ → ℕ → List ScheduledJob
swap a i j = elim (get_elem? a i) [
  | none ↦ a
  | some x ↦ elim (get_elem? a j) [ none ↦ a | some y ↦ set (set a i y) j x ]
]

abbrev pub parent : ℕ → ℕ
parent c = (c - 1) / 2

-- The loop of heap.up; it ends after at most i rounds.
unfoldable pub up_loop : ℕ → List ScheduledJob → ℕ → List ScheduledJob
up_loop zero a i = a
up_loop (suc k) a i =
    let risen = up_loop k (swap a i (parent i)) (parent i) in
    if parent i == i then a else if less a i (parent i) then risen else a

-- heap.up
unfoldable pub up : List ScheduledJob → ℕ → List ScheduledJob
up a i = up_loop (suc i) a i

-- The child of i that heap.down compares with it, among the first n items
abbrev pub smaller_child : ℕ → List ScheduledJob → ℕ → ℕ
smaller_child n a i =
    if ltb (2 * i + 2) n && less a (2 * i + 2) (2 * i + 1) then 2 * i + 2 else 2 * i + 1

-- The loop of heap.down over the first n items, with the index where it ends
unfoldable pub down_loop : ℕ → ℕ → List ScheduledJob → ℕ → List ScheduledJob × ℕ
down_loop zero n a i = (a, i)
down_loop (suc k) n a i =
    let child = smaller_child n a i in
    let sunk = down_loop k n (swap a i child) child in
    if ltb (2 * i + 1) n then (if less a child i then sunk else (a, i)) else (a, i)

-- heap.down: the slice, and whether the item moved
unfoldable pub down : List ScheduledJob → ℕ → ℕ → List ScheduledJob × Bool
down a i n = let (b, j) = down_loop (suc n) n a i in (b, ltb i j)

-- Push, then heap.Push
unfoldable pub heap_push : List ScheduledJob → ScheduledJob → List ScheduledJob
heap_push a x = up (a ++ (x ∷ [])) (length a)

-- heap.Remove and Pop, without the item, which the caller reads
unfoldable pub heap_remove : List ScheduledJob → ℕ → List ScheduledJob
heap_remove a i =
    let n = length a - 1 in
    let (b, moved) = down (swap a i n) i n in
    take n (if n == i then a else if moved then b else up b i)

-- heap.Pop: the item that Pop takes off the end, and the slice
unfoldable pub heap_pop : List ScheduledJob → Option ScheduledJob × List ScheduledJob
heap_pop a = let n = length a - 1 in let (b, _) = down (swap a 0 n) 0 n in (get_elem? b n, take n b)

-- heap.Fix
unfoldable pub heap_fix : List ScheduledJob → ℕ → List ScheduledJob
heap_fix a i = let (b, moved) = down a i (length a) in if moved then b else up b i
