-- ===== src/Scheduler/Loop/Awake.antt =====
-- The loop does not sleep past a job that is due.
use mathlib.Core.List.{Mem, not-mem-nil, mem-cons_of_mem, mem-cons_self}
use mathlib.Core.List.Perm
use joblet.Prelude.{
  ◌≡◌, ◌⊎◌, inl, inr, refl, sym, subst, String, Option, none, some, [], ◌∷◌, arith, Bool-cases,
  Bool, true, if◌then◌else◌, if_true, if_false,
}
use joblet.Prelude.Int.{ℤ, ◌≤ℤ◌, ltb_ℤ}
use joblet.Jobs.Domain.{Job}
use joblet.Scheduler.{PriorityQueue, Scheduler, add, peek, next, add_job, remove, remove_job}
use joblet.Scheduler.Heap.{ScheduledJob}
use joblet.Scheduler.Heap.Order.{IsHeap}
use joblet.Scheduler.Queue.{Mem-time, next_first, remove_one}
use joblet.Scheduler.Heap.Order.{root_first}
use joblet.Scheduler.History.{add-HeapOf}
use joblet.Scheduler.Loop.{
  Phase, checking, idle, sleeping, due, executing, ended, panicked, Loop, check, take_next, Move,
  Step, Steps, started,
}
use joblet.Scheduler.Loop.OnTime.{
  SameTime, Consistent, add_job-none, add_job-some, added-Consistent, stopped_keeps,
}

-- A loop that waits has nothing to do, or a signal is there to wake it.
abbrev pub Awake : PriorityQueue → Bool → Phase → Type 0
Awake q signal checking = Unit
Awake q signal idle = (signal ≡ true) ⊎ (q ≡ [])
Awake q signal (sleeping t) =
    (signal ≡ true) ⊎ ((y : ScheduledJob) → Mem y q → t ≤ℤ y.scheduled_time)
Awake q signal due = Unit
Awake q signal (executing j) = Unit
Awake q signal ended = Unit
Awake q signal panicked = Unit

Awake-signalled : (q : PriorityQueue) (p : Phase) → Awake q true p
Awake-signalled q checking = tt
Awake-signalled q idle = inl refl
Awake-signalled q (sleeping t) = inl refl
Awake-signalled q due = tt
Awake-signalled q (executing j) = tt
Awake-signalled q ended = tt
Awake-signalled q panicked = tt

pub record IsAwake (l : Loop) : Type 0 where
  pub heap : IsHeap l.scheduler.queue
  pub consistent : Consistent l.scheduler.queue
  pub awake : Awake l.scheduler.queue l.scheduler.new_job_signal l.phase

check-Awake :
    (s : Scheduler) (now : ℤ)
    → IsHeap s.queue
    → Consistent s.queue
    → Awake s.queue s.new_job_signal (check s now)
unfolding check peek
check-Awake s now h c = elim (Bool-cases s.stop_signal) [
  | inl stopping ↦ subst (Awake s.queue s.new_job_signal) (sym (if_true _ _ stopping)) tt
  | inr going ↦
      subst (Awake s.queue s.new_job_signal) (sym (if_false _ _ going)) (at_head s.queue h c)
]
  where
    at_head :
        (q : PriorityQueue)
        → IsHeap q
        → Consistent q
        → Awake q s.new_job_signal (elim (peek q) [
          | none ↦ idle
          | some j ↦ elim j.scheduled_time [
            | none ↦ panicked
            | some t ↦ if ltb_ℤ now t then sleeping t else due
          ]
        ])
    at_head [] h c = inr refl
    at_head (x ∷ q) h c =
        at_time x.job.scheduled_time (c x mem-cons_self)
          (Mem-time (x ∷ q) x.scheduled_time λ i p. root_first (x ∷ q) i h p)
      where
        at_time :
            (o : Option ℤ)
            → SameTime o x.scheduled_time
            → ((y : ScheduledJob) → Mem y (x ∷ q) → x.scheduled_time ≤ℤ y.scheduled_time)
            → Awake
                (x ∷ q)
                s.new_job_signal
                (elim o [ none ↦ panicked | some t ↦ if ltb_ℤ now t then sleeping t else due ])
        at_time none h f = tt
        at_time (some t) h f = elim (Bool-cases (ltb_ℤ now t)) [
          | inl early ↦
              subst (Awake (x ∷ q) s.new_job_signal) (sym (if_true _ _ early))
                (inr λ y m. omega (arith, f y m))
          | inr ready ↦ subst (Awake (x ∷ q) s.new_job_signal) (sym (if_false _ _ ready)) tt
        ]

added-IsAwake :
    (l : Loop) (j : Job) → IsAwake l → IsAwake (record l { scheduler = add_job l.scheduler j })
added-IsAwake l j v = elim (add-HeapOf l.scheduler.queue j v.heap) [
  | inl (e, _) ↦ subst (λ s. IsAwake (record l { scheduler = s })) (add_job-none l.scheduler j e) v
  | inr (t, e, (heap, same)) ↦
      subst (λ s. IsAwake (record l { scheduler = s })) (add_job-some l.scheduler j t e)
        (record {
          heap = heap;
          consistent = added-Consistent l.scheduler.queue j t e v.consistent same;
          awake = Awake-signalled (add l.scheduler.queue j) l.phase;
        })
]

removed-IsAwake :
    (l : Loop) (id : String)
    → IsAwake l
    → IsAwake (record l { scheduler = (remove_job l.scheduler id).0 })
unfolding remove_job
removed-IsAwake l id v = elim (remove_one l.scheduler.queue id v.heap) [
  | inl (eq, _) ↦
      subst
        (λ (r : PriorityQueue × Bool). IsAwake (record l {
          scheduler =
              if r.1
              then record l.scheduler { queue = r.0; new_job_signal = true }
              else l.scheduler;
        }))
        (sym eq) v
  | inr (x, answer, _, heap, rest) ↦
      let q = (remove l.scheduler.queue id).0 in
      subst (λ s. IsAwake (record l { scheduler = s })) (sym (if_true _ _ answer))
        (record {
          heap = heap;
          consistent = λ y m. v.consistent y ((Perm.mem_iff rest).0 (mem-cons_of_mem x m));
          awake = Awake-signalled q l.phase;
        })
]

taken-IsAwake : (l : Loop) → IsAwake l → IsAwake (take_next l)
unfolding take_next
taken-IsAwake l v = elim (next_first l.scheduler.queue v.heap) [
  | inl (empty, eq) ↦
      subst
        (λ (r : Option Job × PriorityQueue). IsAwake (record l {
          scheduler = record l.scheduler { queue = r.1 };
          phase = elim r.0 [ none ↦ checking | some j ↦ executing j ];
        }))
        (sym eq)
        (record {
          heap = subst IsHeap empty v.heap;
          consistent = subst Consistent empty v.consistent;
          awake = tt;
        })
  | inr (y, found) ↦ record {
    heap = found.heap;
    consistent = λ z m. v.consistent z ((Perm.mem_iff found.rest).0 (mem-cons_of_mem y m));
    awake =
        subst
          (λ o.
            Awake (next l.scheduler.queue).1 l.scheduler.new_job_signal
              (elim o [ none ↦ checking | some j ↦ executing j ]))
          (sym found.answer) tt;
  }
]

pub Move-IsAwake : {l m : Loop} → Move l m → IsAwake l → IsAwake m
Move-IsAwake (Move.clock later h) v = record {
  heap = v.heap;
  consistent = v.consistent;
  awake = v.awake;
}
Move-IsAwake {l} (Move.added j) v = added-IsAwake l j v
Move-IsAwake {l} (Move.stopped {s = s} h) v =
    let (same, signal) = stopped_keeps l.scheduler s h in
    record {
      heap = subst IsHeap (sym same) v.heap;
      consistent = subst Consistent (sym same) v.consistent;
      awake = rw (same, signal) v.awake;
    }
Move-IsAwake {l} (Move.checked h) v = record {
  heap = v.heap;
  consistent = v.consistent;
  awake = check-Awake l.scheduler l.now v.heap v.consistent;
}
Move-IsAwake (Move.idle_stop _ _) v = record {
  heap = v.heap;
  consistent = v.consistent;
  awake = tt;
}
Move-IsAwake (Move.idle_signal _ _) v = record {
  heap = v.heap;
  consistent = v.consistent;
  awake = tt;
}
Move-IsAwake (Move.sleep_stop _ _) v = record {
  heap = v.heap;
  consistent = v.consistent;
  awake = tt;
}
Move-IsAwake (Move.sleep_signal _ _) v = record {
  heap = v.heap;
  consistent = v.consistent;
  awake = tt;
}
Move-IsAwake (Move.sleep_over _ _) v = record {
  heap = v.heap;
  consistent = v.consistent;
  awake = tt;
}
Move-IsAwake {l} (Move.taken e) v = taken-IsAwake l v
Move-IsAwake (Move.executed _) v = record { heap = v.heap; consistent = v.consistent; awake = tt }

Step-IsAwake : {l m : Loop} → Step l m → IsAwake l → IsAwake m
Step-IsAwake (Step.moved m) v = Move-IsAwake m v
Step-IsAwake {l} (Step.removed id) v = removed-IsAwake l id v

pub steps-IsAwake : {t : ℤ} {l : Loop} → Steps (started t) l → IsAwake l
steps-IsAwake Steps.start = record {
  heap = λ c p q. absurd (omega arith);
  consistent = λ y m. absurd (not-mem-nil m);
  awake = tt;
}
steps-IsAwake (Steps.next_step r s) = Step-IsAwake s (steps-IsAwake r)
