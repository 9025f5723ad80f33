-- ===== src/Lifecycle/Lives/Deletions.antt =====
-- DeleteJob of internal/joblet/core/joblet.go.
use joblet.Prelude.{
  ◌≤◌, ◌≡◌, ◌⊎◌, inl, inr, refl, sym, ap, ◌∙◌, subst, arith, true, false, ◌||◌, String, len, Option,
  none, some, str_eq, str_eq_refl, Bool-cases, ◌==◌,
}
use joblet.Prelude.Map
use joblet.Jobs.Domain.{
  Job, JobStatus, deep_copy, is_running, is_scheduled, status_scheduled, status_initializing,
  status_running,
}
use joblet.Jobs.Deletion.{is_busy, without}
use joblet.Jobs.Stored.{
  stored, status_of, job-stored, delete-stored, stored-without, has_task-without,
}
use joblet.Lifecycle.{Joblet, LifecycleError, job_not_found, job_active, store_failed, delete}
use joblet.Lifecycle.View.{View-ext, view}
use joblet.Lifecycle.Lives.{
  Phase, unknown, scheduled, initializing, running, over, rank, IsGood, Holds, Life, Advances,
  Advances-refl, Advances-at, is_over,
}
use joblet.Lifecycle.Lives.Updates.{with_store}
use joblet.Lifecycle.Lives.Processes.{full_of}
use joblet.Lifecycle.Lives.Stops.{Alive}

-- A stored job of a phase with a status of its own has that status.
has_status :
    (s : Joblet) (u : String) (j : Job) (st : JobStatus)
    → Map.get s.store.jobs u ≡ some j
    → stored s.store u ≡ some st
    → str_eq j.status st ≡ true
has_status s u j st at e =
    ap (λ x. str_eq x st) (the_status (sym (ap status_of at) ∙ e)) ∙ str_eq_refl st
  where
    the_status : some j.status ≡ some st → j.status ≡ st
    the_status x = cc

stored-full :
    (u : String) (p : Phase) (s : Joblet) (j : Job)
    → Life u p (view s u)
    → Map.get s.store.jobs u ≡ some j
    → (len u == 36) ≡ true
stored-full u unknown s j ((st, _, _, _, _, _), _) at = absurd (clash (sym (ap status_of at) ∙ st))
  where
    clash : some j.status ≡ none → ⊥
    clash x = cc
stored-full u scheduled s j (h, full) at = full_of (λ x. absurd (ground (arith, ap rank x))) full
stored-full u initializing s j (h, full) at = full_of (λ x. absurd (ground (arith, ap rank x))) full
stored-full u running s j (h, full) at = full_of (λ x. absurd (ground (arith, ap rank x))) full
stored-full u over s j (h, full) at = full_of (λ x. absurd (ground (arith, ap rank x))) full

-- A job that DeleteJob may delete is over.
idle-over :
    (u : String) (p : Phase) (s : Joblet) (j : Job)
    → Life u p (view s u)
    → Map.get s.store.jobs u ≡ some j
    → str_eq j.status status_running || str_eq j.status status_scheduled ≡ false
    → is_busy j ≡ false
    → (p ≡ over) × ((len u == 36) ≡ true)
unfolding is_busy
idle-over u over s j (h, full) at a b =
    (refl, full_of (λ x. absurd (ground (arith, ap rank x))) full)
idle-over u unknown s j ((st, _, _, _, _, _), _) at a b =
    absurd (clash (sym (ap status_of at) ∙ st))
  where
    clash : some j.status ≡ none → ⊥
    clash x = cc
idle-over u scheduled s j ((st, _, _, _, _, _), _) at a b =
    absurd (ground (arith, has_status s u j status_scheduled at st, a))
idle-over u initializing s j ((st, _, _, _, _, _), _) at a b =
    absurd (ground (arith, has_status s u j status_initializing at st, b))
idle-over u running s j ((st, _, _, _, _), _) at a b =
    absurd (ground (arith, has_status s u j status_running at st, a))

-- DeleteJob answers an error and changes nothing, or it removes a job that is over.
pub delete-cases :
    (s : Joblet) (id : String)
    → IsGood s
    → Alive s
    → ((e : LifecycleError) × (delete s id ≡ (s, some e)))
      ⊎ ((delete s id ≡ (with_store s (without s.store id), none))
          × Holds over (view s id)
          × ((len id == 36) ≡ true))
unfolding delete is_running is_scheduled deep_copy
delete-cases s id g alive = elim (job-stored s.store g.going id) [
  | inl (missing, _) ↦ inl (job_not_found, ground (arith, missing))
  | inr (j, at, copy) ↦
      elim (Bool-cases (str_eq j.status status_running || str_eq j.status status_scheduled)) [
        | inl active ↦ inl (job_active, ground (arith, copy, active))
        | inr inactive ↦
            let (p, (h, full)) = alive id in
            elim (delete-stored s.store g.going id j (stored-full id p s j (h, full) at) at) [
              | inl (busy, refused) ↦ inl (store_failed, ground (arith, copy, inactive, refused))
              | inr (idle, done) ↦
                  let (e, long) = idle-over id p s j (h, full) at inactive idle in
                  inr (
                    ground (arith, copy, inactive, done),
                    subst (λ q. Holds q (view s id)) e h,
                    long,
                  )
            ]
      ]
]

without-IsGood : (s : Joblet) (id : String) → IsGood s → IsGood (with_store s (without s.store id))
unfolding without
without-IsGood s id g = record {
  heap = g.heap;
  going = g.going;
  consistent = λ k j e. g.consistent k j (ground (arith, e, Map.get-remove s.store.jobs id k));
}

-- Taking a job that is over out of the store
pub without-Advances :
    (s : Joblet) (id : String)
    → IsGood s
    → Holds over (view s id)
    → (len id == 36) ≡ true
    → Advances s (with_store s (without s.store id))
without-Advances s id g held full =
    let own = str_eq_refl id in
    let gone : stored (without s.store id) id ≡ none =
      ground (arith, own, stored-without s.store g.going id id) in
    Advances-at s _ id (without-IsGood s id g)
      (λ u other.
        View-ext (ground (arith, other, stored-without s.store g.going id u))
          (has_task-without s.store g.going id u) refl refl refl refl)
      (λ p h.
        let (st, task, w, st1, m) = held in
        (over, rank_over p, ((ap is_over gone, inl gone, w, st1, m), inr full)))
  where
    rank_over : (p : Phase) → rank p ≤ 4
    rank_over unknown = omega arith
    rank_over scheduled = omega arith
    rank_over initializing = omega arith
    rank_over running = omega arith
    rank_over over = omega arith

pub delete-Advances : (s : Joblet) (id : String) → IsGood s → Alive s → Advances s (delete s id).0
delete-Advances s id g alive = elim (delete-cases s id g alive) [
  | inl (e, eq) ↦
      subst (λ (r : Joblet × Option LifecycleError). Advances s r.0) (sym eq) (Advances-refl g)
  | inr (eq, held, full) ↦
      subst (λ (r : Joblet × Option LifecycleError). Advances s r.0) (sym eq)
        (without-Advances s id g held full)
]
