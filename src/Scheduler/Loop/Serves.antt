-- ===== src/Scheduler/Loop/Serves.antt =====
-- The loop comes to each job that is due.
use mathlib.Core.List.{Mem, not-mem-nil, mem-cons_self}
use mathlib.Core.List.Perm
use joblet.Prelude.{
  ◌≡◌, inl, inr, refl, ap, ◌∙◌, subst, Option, none, some, [], ◌∷◌, arith, Bool, true, false,
  if◌then◌else◌, if_false,
}
use joblet.Prelude.Int.{ℤ, ◌≤ℤ◌, ltb_ℤ}
use joblet.Jobs.Domain.{Job}
use joblet.Scheduler.{PriorityQueue, Scheduler, peek}
use joblet.Scheduler.Heap.Order.{IsHeap, root_first}
use joblet.Scheduler.Queue.{Mem-time, next_first}
use joblet.Scheduler.Loop.{
  Phase, checking, idle, sleeping, due, executing, ended, panicked, Loop, check, take_next, Move,
  Steps, started, Reach,
}
use joblet.Scheduler.Loop.OnTime.{SameTime, Consistent, HasDue}
use joblet.Scheduler.Loop.Awake.{Awake, IsAwake, Move-IsAwake, steps-IsAwake}

-- The loop is between two jobs.
abbrev pub between : Phase → Bool
between checking = true
between idle = true
between (sleeping t) = true
between due = true
between (executing j) = false
between ended = false
between panicked = false

-- From l, at the same time of the clock, the loop can come to start a job that is due.
abbrev pub Serves : Loop → Type 0
Serves l =
    (m : Loop) × Reach l m
    × (m.now ≡ l.now)
    × ((j : Job) × (m.phase ≡ executing j) × (s : ℤ) × (j.scheduled_time ≡ some s) × s ≤ℤ l.now)

check-due :
    (s : Scheduler) (now : ℤ)
    → IsHeap s.queue
    → Consistent s.queue
    → HasDue s.queue now
    → s.stop_signal ≡ false
    → check s now ≡ due
unfolding check peek
check-due s now h c d going = if_false _ _ going ∙ at_head s.queue h c d
  where
    at_head :
        (q : PriorityQueue)
        → IsHeap q
        → Consistent q
        → HasDue q now
        → (elim (peek q) [
          | none ↦ idle
          | some j ↦ elim j.scheduled_time [
            | none ↦ panicked
            | some t ↦ if ltb_ℤ now t then sleeping t else due
          ]
        ])
          ≡ due
    at_head [] h c (x, m, p) = absurd (not-mem-nil m)
    at_head (x ∷ q) h c (y, m, p) =
        at_time x.job.scheduled_time (c x mem-cons_self)
          (Mem-time (x ∷ q) x.scheduled_time (λ i p. root_first (x ∷ q) i h p) y m)
      where
        at_time :
            (o : Option ℤ)
            → SameTime o x.scheduled_time
            → x.scheduled_time ≤ℤ y.scheduled_time
            → (elim o [ none ↦ panicked | some t ↦ if ltb_ℤ now t then sleeping t else due ]) ≡ due
        at_time none h f = absurd h
        at_time (some t) h f = if_false {b = ltb_ℤ now t} (sleeping t) due (ground arith)

serve_due : (l : Loop) → IsAwake l → HasDue l.scheduler.queue l.now → l.phase ≡ due → Serves l
unfolding take_next
serve_due l v (x, m, p) e = elim (next_first l.scheduler.queue v.heap) [
  | inl (empty, _) ↦ absurd (not-mem-nil (subst (Mem x) empty m))
  | inr (y, found) ↦
      let named = v.consistent y ((Perm.mem_iff found.rest).0 mem-cons_self) in
      let phase : (take_next l).phase ≡ executing y.job =
        ap (λ o. elim o [ none ↦ checking | some j ↦ executing j ]) found.answer in
      let early = found.first x m in
      let (s, at, past) = timed y.job.scheduled_time y.scheduled_time l.now named (omega arith) in
      (take_next l, Reach.and_then Reach.here (Move.taken e), refl, (y.job, phase, s, at, past))
]
  where
    timed : (o : Option ℤ) (t now : ℤ) → SameTime o t → t ≤ℤ now → (s : ℤ) × (o ≡ some s) × s ≤ℤ now
    timed none t now h p = absurd h
    timed (some s) t now h p = (s, refl, omega arith)

-- What is served after a move is served before it.
serve_after : {l k : Loop} → Move l k → k.now ≡ l.now → Serves k → Serves l
serve_after {l} m same (n, reach, at, (j, e, s, f, p)) = (
  n,
  joined (Reach.and_then Reach.here m) reach,
  at ∙ same,
  (j, e, s, f, subst (λ t. s ≤ℤ t) same p),
)
  where
    joined : {a b c : Loop} → Reach a b → Reach b c → Reach a c
    joined r Reach.here = r
    joined r (Reach.and_then q m) = Reach.and_then (joined r q) m

serve_checking :
    (l : Loop)
    → IsAwake l
    → HasDue l.scheduler.queue l.now
    → l.scheduler.stop_signal ≡ false
    → l.phase ≡ checking
    → Serves l
serve_checking l v d going e =
    let m : Move l (record l { phase = check l.scheduler l.now }) = Move.checked e in
    serve_after m refl
      (serve_due _ (Move-IsAwake m v) d (check-due l.scheduler l.now v.heap v.consistent d going))

-- In whatever state the loop comes to, jobs removed or not: while it is between two jobs, is not told
-- to stop, and a job of the queue is due, it is not asleep for good: some moves, in which the clock
-- may stand still, bring it to start a job that is due.
pub due-Serves :
    {t : ℤ} (l : Loop)
    → Steps (started t) l
    → between l.phase ≡ true
    → l.scheduler.stop_signal ≡ false
    → HasDue l.scheduler.queue l.now
    → Serves l
due-Serves l r b going (x, m, p) = by_phase l.phase refl b v.awake
  where
    v : IsAwake l
    v = steps-IsAwake r

    woken :
        Move l
          (record l { phase = checking; scheduler = record l.scheduler { new_job_signal = false } })
        → Serves l
    woken move = serve_after move refl (serve_checking _ (Move-IsAwake move v) (x, m, p) going refl)

    by_phase :
        (q : Phase)
        → l.phase ≡ q
        → between q ≡ true
        → Awake l.scheduler.queue l.scheduler.new_job_signal q
        → Serves l
    by_phase checking e b a = serve_checking l v (x, m, p) going e
    by_phase due e b a = serve_due l v (x, m, p) e
    by_phase idle e b (inl signal) = woken (Move.idle_signal e signal)
    by_phase idle e b (inr empty) = absurd (not-mem-nil (subst (Mem x) empty m))
    by_phase (sleeping s) e b (inl signal) = woken (Move.sleep_signal e signal)
    by_phase (sleeping s) e b (inr later) =
        let first = later x m in
        let move : Move l (record l { phase = due }) = Move.sleep_over e (omega arith) in
        serve_after move refl (serve_due _ (Move-IsAwake move v) (x, m, p) refl)
    by_phase q e b a = absurd (ground arith)
