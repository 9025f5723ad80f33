-- ===== src/Lifecycle/Lives.antt =====
-- The phases of a job's life, and what the parts hold of a job in each of them.
pub mod Updates
pub mod Processes
pub mod Monitors
pub mod Begins
pub mod Stops
pub mod Queueing
pub mod Scheduling
pub mod Deletions
pub mod AllDeletions
pub mod Starts
pub mod Reachable
use joblet.Prelude.{
  ℕ, ◌+◌, ◌<◌, ◌≤◌, ◌≡◌, ◌⊎◌, inl, inr, refl, sym, ap, ◌∙◌, subst, arith, Bool, true, false, not,
  ◌&&◌, String, len, Option, none, some, List, str_eq, str_eq_refl, str_eq→eq, ◌==◌, Bool-cases,
  if◌then◌else◌,
}
use joblet.Jobs.Domain.{Job, JobStatus, status_running, status_scheduled, status_initializing}
use joblet.Jobs.{JobStore}
use joblet.Jobs.Consistency.{IsConsistent}
use joblet.Scheduler.Heap.Order.{IsHeap}
use joblet.Lifecycle.{Joblet}
use joblet.Lifecycle.View.{View, view}
use joblet.Lifecycle.History.{IsUnknown}

-- `over` is every state after the process: ended, stopped, canceled or deleted.
pub data Phase : Type 0 where
  unknown : Phase
  scheduled : Phase
  initializing : Phase
  running : Phase
  over : Phase

abbrev pub rank : Phase → ℕ
rank unknown = 0
rank scheduled = 1
rank initializing = 2
rank running = 3
rank over = 4

-- A status that no longer changes by itself, or none
abbrev pub is_over : Option JobStatus → Bool
is_over none = true
is_over (some st) =
    not (str_eq st status_scheduled)
    && not (str_eq st status_initializing)
    && not (str_eq st status_running)

-- What is held of a job in a phase
abbrev pub Holds : Phase → View → Type 0
Holds unknown v = IsUnknown v
Holds scheduled v =
    (v.status ≡ some status_scheduled)
    × (v.task ≡ true)
    × (v.waiting ≡ 1)
    × (v.starting ≡ 0)
    × (v.monitors ≡ 0)
    × (v.stopping ≡ 0)
Holds initializing v =
    (v.status ≡ some status_initializing)
    × (v.task ≡ true)
    × (v.waiting ≡ 0)
    × v.starting ≤ 1
    × (v.monitors ≡ 0)
    × (v.stopping ≡ 0)
Holds running v =
    (v.status ≡ some status_running)
    × (v.task ≡ true)
    × (v.waiting ≡ 0)
    × (v.starting ≡ 0)
    × (v.monitors ≡ 1)
Holds over v =
    (is_over v.status ≡ true)
    × ((v.status ≡ none) ⊎ (v.task ≡ true))
    × (v.waiting ≡ 0)
    × (v.starting ≡ 0)
    × v.monitors ≤ 1

-- The phase that a status tells; the first and the last have none of their own.
abbrev mark_of : Option JobStatus → ℕ
mark_of none = 0
mark_of (some st) =
    if str_eq st status_scheduled
    then 1
    else if str_eq st status_initializing
    then 2
    else if str_eq st status_running
    then 3
    else 0

abbrev mark : Phase → ℕ
mark unknown = 0
mark scheduled = 1
mark initializing = 2
mark running = 3
mark over = 0

over-mark_of : (o : Option JobStatus) → is_over o ≡ true → mark_of o ≡ 0
over-mark_of none h = refl
over-mark_of (some st) h = ground arith

Holds-mark : (p : Phase) (v : View) → Holds p v → mark_of v.status ≡ mark p
Holds-mark unknown v h = ap mark_of h.0
Holds-mark scheduled v h = ap mark_of h.0
Holds-mark initializing v h = ap mark_of h.0
Holds-mark running v h = ap mark_of h.0
Holds-mark over v h = over-mark_of v.status h.0

-- The status of a stored job decides its phase.
pub stored-scheduled :
    (p : Phase) (v : View) → Holds p v → v.status ≡ some status_scheduled → p ≡ scheduled
stored-scheduled p v h e = by_mark p (sym (Holds-mark p v h) ∙ ap mark_of e)
  where
    by_mark : (p : Phase) → mark p ≡ 1 → p ≡ scheduled
    by_mark scheduled m = refl
    by_mark p m = absurd (omega arith)

pub stored-initializing :
    (p : Phase) (v : View) → Holds p v → v.status ≡ some status_initializing → p ≡ initializing
stored-initializing p v h e = by_mark p (sym (Holds-mark p v h) ∙ ap mark_of e)
  where
    by_mark : (p : Phase) → mark p ≡ 2 → p ≡ initializing
    by_mark initializing m = refl
    by_mark p m = absurd (omega arith)

pub stored-running :
    (p : Phase) (v : View) → Holds p v → v.status ≡ some status_running → p ≡ running
stored-running p v h e = by_mark p (sym (Holds-mark p v h) ∙ ap mark_of e)
  where
    by_mark : (p : Phase) → mark p ≡ 3 → p ≡ running
    by_mark running m = refl
    by_mark p m = absurd (omega arith)

-- A job that waits is scheduled.
pub waiting-scheduled : (p : Phase) (v : View) → Holds p v → 0 < v.waiting → p ≡ scheduled
waiting-scheduled scheduled v h w = refl
waiting-scheduled unknown v h w = absurd (omega (arith, h.2))
waiting-scheduled initializing v h w = absurd (omega (arith, h.2))
waiting-scheduled running v h w = absurd (omega (arith, h.2))
waiting-scheduled over v h w = absurd (omega (arith, h.2))

-- A UUID is unknown, or it is of full length and its job in another phase.
abbrev pub Life : String → Phase → View → Type 0
Life u p v = Holds p v × ((p ≡ unknown) ⊎ ((len u == 36) ≡ true))

-- The same phase or a later one
abbrev pub Later : String → Phase → View → Type 0
Later u p v = (q : Phase) × rank p ≤ rank q × Life u q v

-- What holds between the calls, for all jobs together
pub record IsGood (s : Joblet) : Type 0 where
  pub heap : IsHeap s.scheduler.queue
  pub going : s.store.closed ≡ false
  pub consistent : IsConsistent s.store

-- From s to t no job goes back in its life.
pub record Advances (s t : Joblet) : Type 0 where
  pub good : IsGood t
  pub lives : (u : String) (p : Phase) → Life u p (view s u) → Later u p (view t u)

pub Advances-refl : {s : Joblet} → IsGood s → Advances s s
Advances-refl g = record { good = g; lives = λ u p h. (p, omega arith, h) }

pub Advances-trans : {s t r : Joblet} → Advances s t → Advances t r → Advances s r
Advances-trans a b = record {
  good = b.good;
  lives = λ u p h.
      let (q, m, k) = a.lives u p h in let (q', m', k') = b.lives u q k in (q', omega arith, k');
}

-- A call about one UUID
pub Advances-at :
    (s t : Joblet) (w : String)
    → IsGood t
    → ((u : String) → str_eq w u ≡ false → view t u ≡ view s u)
    → ((p : Phase) → Life w p (view s w) → Later w p (view t w))
    → Advances s t
Advances-at s t w g others own = record {
  good = g;
  lives = λ u p h. elim (Bool-cases (str_eq w u)) [
    | inl same ↦
        let e = str_eq→eq w u same in
        subst (λ x. Life x p (view s x) → Later x p (view t x)) e (own p) h
    | inr other ↦ (p, omega arith, subst (Life u p) (sym (others u other)) h)
  ];
}
