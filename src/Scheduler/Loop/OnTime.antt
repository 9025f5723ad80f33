-- ===== src/Scheduler/Loop/OnTime.antt =====
-- The loop starts each job when it is due.
use mathlib.Core.List.{Perm, Mem, not-mem-nil, mem-cons_of_mem, forall_mem-cons, mem-cons_self}
use mathlib.Core.List.Perm
use native.Mathlib.Bridge.{le_prop}
use joblet.Prelude.{
  ◌≡◌, ◌≢◌, inl, inr, refl, sym, subst, Option, none, some, [], ◌∷◌, arith, Bool-cases, true,
  if◌then◌else◌, if_true, if_false,
}
use joblet.Prelude.Int.{ℤ, ◌≤ℤ◌, ltb_ℤ}
use joblet.Jobs.Domain.{Job}
use joblet.Scheduler.{PriorityQueue, Scheduler, add, peek, next, add_job, stop}
use joblet.Scheduler.Heap.{ScheduledJob}
use joblet.Scheduler.Heap.Order.{IsHeap}
use joblet.Scheduler.Queue.{next_first}
use joblet.Scheduler.History.{add-HeapOf}
use joblet.Scheduler.Loop.{
  Phase, checking, idle, sleeping, due, executing, ended, panicked, Loop, check, take_next, Move,
  started, Reach,
}

-- The job's time, if any, is the item's.
abbrev pub SameTime : Option ℤ → ℤ → Type 0
SameTime none t = ⊥
SameTime (some s) t = s ≤ℤ t × t ≤ℤ s

SameTime-prop : (o : Option ℤ) (t : ℤ) → IsProp (SameTime o t)
SameTime-prop none t = hlevel
SameTime-prop (some s) t = hlevel (le_prop)

-- Each item has the time of its job.
abbrev pub Consistent : PriorityQueue → Type 0
Consistent q = (y : ScheduledJob) → Mem y q → SameTime y.job.scheduled_time y.scheduled_time

-- An item of the queue is due at the time.
abbrev pub HasDue : PriorityQueue → ℤ → Type 0
HasDue q t = (x : ScheduledJob) × Mem x q × x.scheduled_time ≤ℤ t

-- What holds in each phase
abbrev PhaseHolds : PriorityQueue → ℤ → Phase → Type 0
PhaseHolds q now checking = Unit
PhaseHolds q now idle = Unit
PhaseHolds q now (sleeping t) = HasDue q t
PhaseHolds q now due = HasDue q now
PhaseHolds q now (executing j) = (t : ℤ) × (j.scheduled_time ≡ some t) × t ≤ℤ now
PhaseHolds q now ended = Unit
PhaseHolds q now panicked = ⊥

record IsTimely (l : Loop) : Type 0 where
  heap : IsHeap l.scheduler.queue
  consistent : Consistent l.scheduler.queue
  holds : PhaseHolds l.scheduler.queue l.now l.phase

PhaseHolds-later :
    (q r : PriorityQueue) (now later : ℤ) (p : Phase)
    → now ≤ℤ later
    → ((x : ScheduledJob) → Mem x q → Mem x r)
    → PhaseHolds q now p
    → PhaseHolds r later p
PhaseHolds-later q r now later checking h sub v = tt
PhaseHolds-later q r now later idle h sub v = tt
PhaseHolds-later q r now later (sleeping t) h sub (x, m, p) = (x, sub x m, p)
PhaseHolds-later q r now later due h sub (x, m, p) = (x, sub x m, omega arith)
PhaseHolds-later q r now later (executing j) h sub (t, e, p) = (t, e, omega arith)
PhaseHolds-later q r now later ended h sub v = tt
PhaseHolds-later q r now later panicked h sub v = v

check-holds : (s : Scheduler) (now : ℤ) → Consistent s.queue → PhaseHolds s.queue now (check s now)
unfolding check peek
check-holds s now c = elim (Bool-cases s.stop_signal) [
  | inl stopping ↦ subst (PhaseHolds s.queue now) (sym (if_true _ _ stopping)) tt
  | inr going ↦ subst (PhaseHolds s.queue now) (sym (if_false _ _ going)) (at_head s.queue c)
]
  where
    at_head :
        (q : PriorityQueue)
        → Consistent q
        → PhaseHolds q now (elim (peek q) [
          | none ↦ idle
          | some j ↦ elim j.scheduled_time [
            | none ↦ panicked
            | some t ↦ if ltb_ℤ now t then sleeping t else due
          ]
        ])
    at_head [] c = tt
    at_head (x ∷ q) c = at_time x.job.scheduled_time (c x mem-cons_self)
      where
        at_time :
            (o : Option ℤ)
            → SameTime o x.scheduled_time
            → PhaseHolds
                (x ∷ q)
                now
                (elim o [ none ↦ panicked | some t ↦ if ltb_ℤ now t then sleeping t else due ])
        at_time none h = h
        at_time (some t) h = elim (Bool-cases (ltb_ℤ now t)) [
          | inl early ↦
              subst (PhaseHolds (x ∷ q) now) (sym (if_true _ _ early))
                (x, mem-cons_self, omega arith)
          | inr ready ↦
              subst (PhaseHolds (x ∷ q) now) (sym (if_false _ _ ready))
                (x, mem-cons_self, ground arith)
        ]

-- A queue with an item more keeps what holds.
pushed-holds :
    (q r : PriorityQueue) (x : ScheduledJob) (now : ℤ) (p : Phase)
    → Perm r (x ∷ q)
    → PhaseHolds q now p
    → PhaseHolds r now p
pushed-holds q r x now p same v =
    PhaseHolds-later q r now now p (omega arith)
      (λ y m. (Perm.mem_iff (Perm.symm same)).0 (mem-cons_of_mem x m)) v

pub add_job-none : (s : Scheduler) (j : Job) → j.scheduled_time ≡ none → s ≡ add_job s j
unfolding add_job
add_job-none s j e = ground (arith, e)

pub add_job-some :
    (s : Scheduler) (j : Job) (t : ℤ)
    → j.scheduled_time ≡ some t
    → record s { queue = add s.queue j; new_job_signal = true } ≡ add_job s j
unfolding add_job
add_job-some s j t e = ground (arith, e)

pub added-Consistent :
    (q : PriorityQueue) (j : Job) (t : ℤ) {r : PriorityQueue}
    → j.scheduled_time ≡ some t
    → Consistent q
    → Perm r (record { job = j; scheduled_time = t } ∷ q)
    → Consistent r
added-Consistent q j t e c same = λ y m.
    (forall_mem-cons λ y. SameTime-prop y.job.scheduled_time y.scheduled_time).1
      (subst (λ o. SameTime o t) (sym e) (omega arith, omega arith), c) y ((Perm.mem_iff same).0 m)

added-IsTimely :
    (l : Loop) (j : Job) → IsTimely l → IsTimely (record l { scheduler = add_job l.scheduler j })
added-IsTimely l j v = elim (add-HeapOf l.scheduler.queue j v.heap) [
  | inl (e, _) ↦ subst (λ s. IsTimely (record l { scheduler = s })) (add_job-none l.scheduler j e) v
  | inr (t, e, (heap, same)) ↦
      let x : ScheduledJob = record { job = j; scheduled_time = t } in
      let q = add l.scheduler.queue j in
      subst (λ s. IsTimely (record l { scheduler = s })) (add_job-some l.scheduler j t e)
        (record {
          heap = heap;
          consistent = added-Consistent l.scheduler.queue j t e v.consistent same;
          holds = pushed-holds l.scheduler.queue q x l.now l.phase same v.holds;
        })
]

pub stopped_keeps :
    (s t : Scheduler)
    → stop s ≡ some t
    → (t.queue ≡ s.queue) × (t.new_job_signal ≡ s.new_job_signal)
unfolding stop
stopped_keeps s t h = (grind arith, grind arith)

taken-IsTimely : (l : Loop) → IsTimely l → l.phase ≡ due → IsTimely (take_next l)
unfolding take_next
taken-IsTimely l v e = elim (next_first l.scheduler.queue v.heap) [
  | inl (empty, _) ↦
      let (x, m, _) : HasDue l.scheduler.queue l.now = subst (PhaseHolds _ _) e v.holds in
      absurd (not-mem-nil (subst (Mem x) empty m))
  | inr (y, found) ↦
      let (x, m, p) : HasDue l.scheduler.queue l.now = subst (PhaseHolds _ _) e v.holds in
      let rest = (next l.scheduler.queue).1 in
      let part : (z : ScheduledJob) → Mem z (y ∷ rest) → Mem z l.scheduler.queue =
        λ z. (Perm.mem_iff found.rest).0 in
      record {
        heap = found.heap;
        consistent = λ z n. v.consistent z (part z (mem-cons_of_mem y n));
        holds =
            subst (λ o. PhaseHolds rest l.now (elim o [ none ↦ checking | some j ↦ executing j ]))
              (sym found.answer)
              (on_time y.job.scheduled_time y.scheduled_time l.now
                (v.consistent y (part y mem-cons_self)) (omega (arith, found.first x m)));
      }
]
  where
    on_time :
        (o : Option ℤ) (t now : ℤ) → SameTime o t → t ≤ℤ now → (s : ℤ) × (o ≡ some s) × s ≤ℤ now
    on_time none t now h p = absurd h
    on_time (some s) t now h p = (s, refl, omega arith)

Move-IsTimely : {l m : Loop} → Move l m → IsTimely l → IsTimely m
Move-IsTimely {l} (Move.clock later h) v = record {
  heap = v.heap;
  consistent = v.consistent;
  holds = PhaseHolds-later l.scheduler.queue _ l.now later l.phase h (λ x m. m) v.holds;
}
Move-IsTimely {l} (Move.added j) v = added-IsTimely l j v
Move-IsTimely {l} (Move.stopped {s = s} h) v =
    let same = sym (stopped_keeps l.scheduler s h).0 in
    record {
      heap = subst IsHeap same v.heap;
      consistent = subst Consistent same v.consistent;
      holds = subst (λ q. PhaseHolds q l.now l.phase) same v.holds;
    }
Move-IsTimely {l} (Move.checked h) v = record {
  heap = v.heap;
  consistent = v.consistent;
  holds = check-holds l.scheduler l.now v.consistent;
}
Move-IsTimely (Move.idle_stop _ _) v = record {
  heap = v.heap;
  consistent = v.consistent;
  holds = tt;
}
Move-IsTimely (Move.idle_signal _ _) v = record {
  heap = v.heap;
  consistent = v.consistent;
  holds = tt;
}
Move-IsTimely (Move.sleep_stop _ _) v = record {
  heap = v.heap;
  consistent = v.consistent;
  holds = tt;
}
Move-IsTimely (Move.sleep_signal _ _) v = record {
  heap = v.heap;
  consistent = v.consistent;
  holds = tt;
}
Move-IsTimely {l} (Move.sleep_over {t = t} e p) v =
    let (x, m, q) : HasDue l.scheduler.queue t = subst (PhaseHolds _ _) e v.holds in
    record { heap = v.heap; consistent = v.consistent; holds = (x, m, omega arith) }
Move-IsTimely {l} (Move.taken e) v = taken-IsTimely l v e
Move-IsTimely (Move.executed _) v = record { heap = v.heap; consistent = v.consistent; holds = tt }

started-IsTimely : (t : ℤ) → IsTimely (started t)
started-IsTimely t = record {
  heap = λ c p q. absurd (omega arith);
  consistent = λ y m. absurd (not-mem-nil m);
  holds = tt;
}

reach-IsTimely : {t : ℤ} {l : Loop} → Reach (started t) l → IsTimely l
reach-IsTimely {t} Reach.here = started-IsTimely t
reach-IsTimely (Reach.and_then r m) = Move-IsTimely m (reach-IsTimely r)

-- Whatever jobs are added and however the clock runs, the loop starts no job before its scheduled
-- time, provided no job is removed meanwhile, and it never meets a job without a time.
pub executing_on_time :
    {t : ℤ} {l : Loop}
    → Reach (started t) l
    → (l.phase ≢ panicked)
      × ((j : Job) → l.phase ≡ executing j → (s : ℤ) × (j.scheduled_time ≡ some s) × s ≤ℤ l.now)
executing_on_time {l = l} r =
    let v = reach-IsTimely r in
    (
      λ e. subst (PhaseHolds l.scheduler.queue l.now) e v.holds,
      λ j e. subst (PhaseHolds l.scheduler.queue l.now) e v.holds,
    )
