-- ===== src/Scheduler/History.antt =====
-- Every history of calls to the priority queue.

use joblet.Prelude.{
  ◌≡◌, ◌⊎◌, inl, inr, sym, subst, String, Option, none, some, List, [], ◌∷◌, arith, Option-cases,
  Bool,
}
use joblet.Prelude.Int.{ℤ}
use joblet.Jobs.Domain.{Job}
use joblet.Scheduler.{PriorityQueue, new_queue, add, next, remove, update}
use joblet.Scheduler.Heap.{ScheduledJob, heap_push}
use joblet.Scheduler.Heap.Order.{IsHeap}
use joblet.Scheduler.Queue.{HeapOf, heap_push-HeapOf, Taken, next_first, remove_one, update_one}

-- A call that changes the queue
pub data Call : Type 0 where
  call_add : Job → Call
  call_next : Call
  call_remove : String → Call
  call_update : String → ℤ → Call

unfoldable pub call : PriorityQueue → Call → PriorityQueue
call q (call_add j) = add q j
call q call_next = (next q).1
call q (call_remove id) = (remove q id).0
call q (call_update id t) = (update q id t).0

unfoldable pub calls : PriorityQueue → List Call → PriorityQueue
calls q [] = q
calls q (c ∷ cs) = calls (call q c) cs

-- Add on a queue in heap order: a job without a time is ignored; one with a time is put in.
pub add-HeapOf :
    (q : PriorityQueue) (j : Job)
    → IsHeap q
    → ((j.scheduled_time ≡ none) × (add q j ≡ q))
      ⊎ ((t : ℤ) × (j.scheduled_time ≡ some t)
          × HeapOf (record { job = j; scheduled_time = t } ∷ q) (add q j))
unfolding add
add-HeapOf q j h = elim (Option-cases j.scheduled_time) [
  | inl e ↦ inl (e, ground (arith, e))
  | inr (t, e) ↦
      let x : ScheduledJob = record { job = j; scheduled_time = t } in
      let eq : add q j ≡ heap_push q x = ground (arith, e) in
      inr (t, e, subst (HeapOf (x ∷ q)) (sym eq) (heap_push-HeapOf q x h))
]

pub call-IsHeap : (q : PriorityQueue) (c : Call) → IsHeap q → IsHeap (call q c)
unfolding call
call-IsHeap q (call_add j) h = elim (add-HeapOf q j h) [
  | inl (_, same) ↦ subst IsHeap (sym same) h
  | inr (t, _, heap) ↦ heap.0
]
call-IsHeap q call_next h = elim (next_first q h) [
  | inl (e, eq) ↦ subst (λ (r : Option Job × PriorityQueue). IsHeap r.1) (sym eq) (subst IsHeap e h)
  | inr (x, taken) ↦ taken.heap
]
call-IsHeap q (call_remove id) h = elim (remove_one q id h) [
  | inl (eq, _) ↦ subst (λ (r : PriorityQueue × Bool). IsHeap r.0) (sym eq) h
  | inr (x, _, _, heap, _) ↦ heap
]
call-IsHeap q (call_update id t) h = elim (update_one q id t h) [
  | inl (eq, _) ↦ subst (λ (r : PriorityQueue × Bool). IsHeap r.0) (sym eq) h
  | inr (x, others, _, _, _, heap, _) ↦ heap
]

calls-IsHeap_from : (cs : List Call) (q : PriorityQueue) → IsHeap q → IsHeap (calls q cs)
unfolding calls
calls-IsHeap_from [] q h = h
calls-IsHeap_from (c ∷ cs) q h = calls-IsHeap_from cs (call q c) (call-IsHeap q c h)

pub calls-IsHeap : (cs : List Call) → IsHeap (calls new_queue cs)
calls-IsHeap cs = calls-IsHeap_from cs [] (λ c p q. absurd (omega arith))

-- After any sequence of Add, Next, Remove and Update on a new queue, Next answers none if the queue is
-- empty; if not, it takes out one item, whose job it answers, no other item is due earlier, and the
-- rest of the queue is in heap order again.
pub calls-next_first :
    (cs : List Call)
    → ((calls new_queue cs ≡ []) × (next (calls new_queue cs) ≡ (none, [])))
      ⊎ ((x : ScheduledJob) × Taken (calls new_queue cs) x (next (calls new_queue cs)))
calls-next_first cs = next_first (calls new_queue cs) (calls-IsHeap cs)
