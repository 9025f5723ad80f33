-- ===== src/Lifecycle/Lives/Begins.antt =====
-- The begin of executions: the first part of executeJob of internal/joblet/core/joblet.go.
use joblet.Prelude.{
  suc, ◌≡◌, ◌⊎◌, inl, inr, refl, sym, ap, ◌∙◌, subst, arith, Bool, true, false, String, len, some,
  [], ◌∷◌, ◌++◌, str_eq, str_eq_refl, ◌==◌,
}
use joblet.Jobs.Domain.{Job, status_initializing}
use joblet.Jobs.{create_new_job}
use joblet.Lifecycle.{Joblet, begin_execution}
use joblet.Lifecycle.View.{View-ext, view, count, count-append}
use joblet.Lifecycle.Lives.{
  Phase, unknown, initializing, rank, IsGood, Holds, Life, Later, Advances, Advances-refl,
  stored-initializing, Advances-at,
}
use joblet.Lifecycle.Lives.Updates.{created-IsGood, create-others, create-own}
use joblet.Lifecycle.Lives.Processes.{full_of}

module _ (s : Joblet) (j : Job) (g : IsGood s) where
  -- After CreateNewJob in executeJob
  pub begun : Joblet
  begun = record s { store = create_new_job s.store j; starting = s.starting ++ (j ∷ []) }

  pub begun-IsGood : IsGood begun
  unfolding begun
  begun-IsGood =
      let v = created-IsGood s j g in
      record { heap = v.heap; going = v.going; consistent = v.consistent }

  pub begun-others : (u : String) → str_eq j.uuid u ≡ false → view begun u ≡ view s u
  unfolding begun
  begun-others u other =
      let (a, b) = create-others s.store g.going j u other in
      View-ext a b refl (ground (arith, count-append u s.starting (j ∷ []), other)) refl refl

  pub begun-Life :
      j.status ≡ status_initializing
      → (len j.uuid == 36) ≡ true
      → (view s j.uuid).waiting ≡ 0
      → (view s j.uuid).starting ≡ 0
      → (view s j.uuid).monitors ≡ 0
      → (view s j.uuid).stopping ≡ 0
      → Life j.uuid initializing (view begun j.uuid)
  unfolding begun
  begun-Life init full w st m sp =
      let (status, task) = create-own s.store g.going j in
      let same = str_eq_refl j.uuid in
      let c : count j.uuid (s.starting ++ (j ∷ [])) ≡ suc (count j.uuid s.starting) =
        ground (arith, same, count-append j.uuid s.starting (j ∷ [])) in
      ((status ∙ ap some init, task, w, omega (arith, c), m, sp), inr full)

  pub begin-cases :
      (resources : Bool)
      → ((begin_execution s j resources).0 ≡ s) ⊎ ((begin_execution s j resources).0 ≡ begun)
  unfolding begin_execution begun
  begin-cases false = inl refl
  begin-cases true = inr refl

-- The first part of executeJob for a job that has just left the queue
pub begin-Advances :
    (s : Joblet) (j : Job) (resources : Bool)
    → IsGood s
    → j.status ≡ status_initializing
    → Holds initializing (view s j.uuid)
    → count j.uuid s.starting ≡ 0
    → Advances s (begin_execution s j resources).0
begin-Advances s j resources g init (st, task, w, _, m, sp) z = elim (begin-cases s j g resources) [
  | inl same ↦ subst (Advances s) (sym same) (Advances-refl g)
  | inr eq ↦
      subst (Advances s) (sym eq)
        (Advances-at s (begun s j g) j.uuid (begun-IsGood s j g) (begun-others s j g) own)
]
  where
    clash : unknown ≡ initializing → ⊥
    clash e = absurd (ground (arith, ap rank e))

    own : (p : Phase) → Life j.uuid p (view s j.uuid) → Later j.uuid p (view (begun s j g) j.uuid)
    own p (h, full) =
        let e = stored-initializing p (view s j.uuid) h st in
        (
          initializing,
          ground (arith, ap rank e),
          begun-Life s j g init (full_of (λ x. absurd (clash (sym x ∙ e))) full) w z m sp,
        )
