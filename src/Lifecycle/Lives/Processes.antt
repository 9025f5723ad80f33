-- ===== src/Lifecycle/Lives/Processes.antt =====
-- The starts and ends of processes: executeJob and monitorJob of internal/joblet/core/joblet.go.
use joblet.Prelude.{
  suc, ◌≡◌, ◌≢◌, ◌⊎◌, inl, inr, refl, ap, arith, Bool, true, false, String, Option, List, [], ◌∷◌,
  ◌++◌, str_eq, str_eq_refl,
}
use joblet.Prelude.Int.{ℤ}
use joblet.Jobs.Domain.{Job}
use joblet.Lifecycle.{
  Joblet, Started, started, not_started, running_job, failed_job, finish_execution,
}
use joblet.Lifecycle.View.{View-ext, view, count, count-append, count-middle}
use joblet.Lifecycle.Lives.{
  Phase, unknown, scheduled, initializing, running, over, IsGood, Life, Later, Advances,
  Advances-at, is_over,
}
use joblet.Lifecycle.Lives.Updates.{updated-IsGood, update-others, update-own}

-- The job of a list before, j, after counts there.
pub listed :
    (l before : List Job) (j : Job) (after : List Job)
    → l ≡ before ++ (j ∷ after)
    → count j.uuid l ≡ suc (count j.uuid (before ++ after))
listed l before j after e =
    let own = str_eq_refl j.uuid in
    ground (arith, own, count-middle j.uuid before j after, ap (count j.uuid) e)

pub unlisted :
    (u : String) (l before : List Job) (j : Job) (after : List Job)
    → l ≡ before ++ (j ∷ after)
    → str_eq j.uuid u ≡ false
    → count u (before ++ after) ≡ count u l
unlisted u l before j after e other =
    ground (arith, other, count-middle u before j after, ap (count u) e)

started-Advances :
    (s : Joblet) (before : List Job) (j : Job) (after : List Job) (gpus : List ℤ) (pid : Option ℤ)
    (now : ℤ)
    → IsGood s
    → s.starting ≡ before ++ (j ∷ after)
    → Advances s (finish_execution s before j after (started gpus pid) now).0
unfolding finish_execution running_job
started-Advances s before j after gpus pid now g e =
    Advances-at s _ j.uuid good
      (λ u other.
        let (a, b) = update-others s.store g.going r u other in
        View-ext a b refl (unlisted u s.starting before j after e other)
          (ground (arith, count-append u s.monitors (r ∷ []), other)) refl)
      (λ p h. own p h)
  where
    r : Job
    r = running_job j gpus pid

    good : IsGood (finish_execution s before j after (started gpus pid) now).0
    good =
        let v = updated-IsGood s r g in
        record { heap = v.heap; going = v.going; consistent = v.consistent }

    c : count j.uuid s.starting ≡ suc (count j.uuid (before ++ after))
    c = listed s.starting before j after e

    own :
        (p : Phase)
        → Life j.uuid p (view s j.uuid)
        → Later j.uuid p (view (finish_execution s before j after (started gpus pid) now).0 j.uuid)
    own initializing ((st, task, w, st1, m, sp), full) =
        let (status, task') = update-own s.store g.going r task in
        let same = str_eq_refl j.uuid in
        (
          running,
          omega arith,
          (
            (
              status,
              task',
              w,
              omega (arith, c),
              ground (arith, count-append j.uuid s.monitors (r ∷ []), same, m),
            ),
            elim full [ inl x ↦ absurd (ground arith) | inr x ↦ inr x ],
          ),
        )
    own unknown ((st, task, w, st1, m, sp), full) = absurd (omega (arith, c))
    own scheduled ((st, task, w, st1, m, sp), full) = absurd (omega (arith, c))
    own running ((st, task, w, st1, m), full) = absurd (omega (arith, c))
    own over ((st, task, w, st1, m), full) = absurd (omega (arith, c))

-- A job whose phase is past the first has a full UUID.
pub full_of : {b : Bool} {p : Phase} → p ≢ unknown → (p ≡ unknown) ⊎ (b ≡ true) → b ≡ true
full_of n (inl e) = absurd (n e)
full_of n (inr h) = h

failed-Advances :
    (s : Joblet) (before : List Job) (j : Job) (after : List Job) (gpus : List ℤ) (now : ℤ)
    → IsGood s
    → s.starting ≡ before ++ (j ∷ after)
    → Advances s (finish_execution s before j after (not_started gpus) now).0
unfolding finish_execution failed_job
failed-Advances s before j after gpus now g e =
    Advances-at s _ j.uuid good
      (λ u other.
        let (a, b) = update-others s.store g.going r u other in
        View-ext a b refl (unlisted u s.starting before j after e other) refl refl)
      (λ p h. own p h)
  where
    r : Job
    r = failed_job j gpus now

    good : IsGood (finish_execution s before j after (not_started gpus) now).0
    good =
        let v = updated-IsGood s r g in
        record { heap = v.heap; going = v.going; consistent = v.consistent }

    c : count j.uuid s.starting ≡ suc (count j.uuid (before ++ after))
    c = listed s.starting before j after e

    own :
        (p : Phase)
        → Life j.uuid p (view s j.uuid)
        → Later j.uuid p (view (finish_execution s before j after (not_started gpus) now).0 j.uuid)
    own initializing ((st, task, w, st1, m, sp), full) =
        let (status, task') = update-own s.store g.going r task in
        (
          over,
          omega arith,
          (
            (ap is_over status, inr task', w, omega (arith, c), omega (arith, m)),
            inr (full_of (λ x. absurd (ground arith)) full),
          ),
        )
    own unknown ((st, task, w, st1, m, sp), full) = absurd (omega (arith, c))
    own scheduled ((st, task, w, st1, m, sp), full) = absurd (omega (arith, c))
    own running ((st, task, w, st1, m), full) = absurd (omega (arith, c))
    own over ((st, task, w, st1, m), full) = absurd (omega (arith, c))

pub execution-Advances :
    (s : Joblet) (before : List Job) (j : Job) (after : List Job) (how : Started) (now : ℤ)
    → IsGood s
    → s.starting ≡ before ++ (j ∷ after)
    → Advances s (finish_execution s before j after how now).0
execution-Advances s before j after (started gpus pid) now =
    started-Advances s before j after gpus pid now
execution-Advances s before j after (not_started gpus) now =
    failed-Advances s before j after gpus now
