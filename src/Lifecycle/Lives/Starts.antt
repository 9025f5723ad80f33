-- ===== src/Lifecycle/Lives/Starts.antt =====
-- StartJob and scheduleJob of internal/joblet/core/joblet.go.
use joblet.Prelude.{
  ◌≡◌, ◌⊎◌, inl, inr, refl, sym, subst, arith, Bool, false, String, Option, some, List, [], ◌∷◌,
  ◌++◌, Result, ok, err, str_eq, str_eq_refl, str_eq→eq, Bool-cases, Option-cases,
}
use joblet.Prelude.Int.{ℤ}
use joblet.Jobs.Domain.{Job, FileUpload, status_scheduled}
use joblet.Jobs.{create_new_job}
use joblet.Scheduler.Heap.{ScheduledJob}
use joblet.Scheduler.Heap.Slice.{append_last-perm}
use joblet.Lifecycle.{Joblet, LifecycleError, Request, begin_execution, schedule_job, start_job}
use joblet.Lifecycle.View.{View-ext, view, queued-perm}
use joblet.Lifecycle.History.{IsNew}
use joblet.Lifecycle.Lives.{Phase, scheduled, initializing, IsGood, Life}
use joblet.Lifecycle.Lives.Updates.{created-IsGood, create-others, create-own}
use joblet.Lifecycle.Lives.Begins.{begun, begun-IsGood, begun-others, begun-Life, begin-cases}

-- A call that may bring a new job, of a UUID that the generator may yield
pub record Enters (fresh : String → Type 0) (s t : Joblet) : Type 0 where
  pub good : IsGood t
  pub lives : (u : String) → (view t u ≡ view s u) ⊎ (fresh u × ((p : Phase) × Life u p (view t u)))

Enters-refl : {fresh : String → Type 0} {s : Joblet} → IsGood s → Enters fresh s s
Enters-refl g = record { good = g; lives = λ u. inl refl }

-- A call that changes what is held of a new job
Enters-at :
    {fresh : String → Type 0} (s t : Joblet) (w : String) (p : Phase)
    → fresh w
    → IsGood t
    → ((u : String) → str_eq w u ≡ false → view t u ≡ view s u)
    → Life w p (view t w)
    → Enters fresh s t
Enters-at {fresh} s t w p f g others own = record {
  good = g;
  lives = λ u. elim (Bool-cases (str_eq w u)) [
    | inl same ↦ inr (
        subst (λ x. fresh x × ((q : Phase) × Life x q (view t x))) (str_eq→eq w u same)
          (f, (p, own)))
    | inr other ↦ inl (others u other)
  ];
}

-- The state with a scheduled job that is stored but not yet queued
stored_state : Joblet → Job → ℤ → Joblet
stored_state s j t = record s {
  store = create_new_job s.store j;
  queuing = s.queuing ++ (record { job = j; scheduled_time = t } ∷ []);
}

stored_state-Enters :
    {fresh : String → Type 0} (s : Joblet) (j : Job) (t : ℤ)
    → IsGood s
    → IsNew fresh s j
    → Enters fresh s
        (stored_state s (record j { scheduled_time = some t; status = status_scheduled }) t)
unfolding stored_state
stored_state-Enters {fresh} s j t g new =
    let i : Job = record j { scheduled_time = some t; status = status_scheduled } in
    let x : ScheduledJob = record { job = i; scheduled_time = t } in
    let v = created-IsGood s i g in
    let own = str_eq_refl i.uuid in
    let (status, task) = create-own s.store g.going i in
    let (_, _, w, st, m, sp) = new.unknown in
    Enters-at s _ i.uuid scheduled new.is_fresh
      (record { heap = v.heap; going = v.going; consistent = v.consistent })
      (λ u other.
        let (a, b) = create-others s.store g.going i u other in
        let n = queued-perm u (append_last-perm s.queuing x) in
        View-ext a b (ground (arith, n, other)) refl refl refl)
      (
        (
          status,
          task,
          (let n = queued-perm i.uuid (append_last-perm s.queuing x) in ground (arith, n, own, w)),
          st,
          m,
          sp,
        ),
        inr new.full,
      )

-- scheduleJob changes nothing, or it stores the job, to be queued.
schedule-cases :
    (parse_time : String → Option ℤ) (s : Joblet) (j : Job) (req : Request) (prepared : Bool)
    → ((schedule_job parse_time s j req prepared).0 ≡ s)
      ⊎ ((t : ℤ) × ((schedule_job parse_time s j req prepared).0
            ≡ stored_state s (record j { scheduled_time = some t; status = status_scheduled }) t))
unfolding schedule_job stored_state
schedule-cases parse_time s j req prepared = elim (Option-cases (parse_time req.schedule)) [
  | inl unparsed ↦ inl (ground (arith, unparsed))
  | inr (t, parsed) ↦ elim (uploads_cases req.uploads) [
    | inl plain ↦ inr (t, ground (arith, parsed, plain))
    | inr (f, fs, some_files) ↦ elim (Bool-cases prepared) [
      | inl done ↦ inr (t, ground (arith, parsed, some_files, done))
      | inr failed ↦ inl (ground (arith, parsed, some_files, failed))
    ]
  ]
]
  where
    uploads_cases :
        (us : List FileUpload)
        → (us ≡ []) ⊎ ((f : FileUpload) × (fs : List FileUpload) × (us ≡ f ∷ fs))
    uploads_cases [] = inl refl
    uploads_cases (f ∷ fs) = inr (f, fs, refl)

-- StartJob is for a job that the builder has made.
start-cases :
    (parse_time : String → Option ℤ) (s : Joblet) (done : Bool) (req : Request)
    (built : Result LifecycleError Job) (prepared resources : Bool)
    → ((start_job parse_time s done req built prepared resources).0 ≡ s)
      ⊎ ((j : Job) × (built ≡ ok j)
          × (((start_job parse_time s done req built prepared resources).0
                ≡ (begin_execution s j resources).0)
              ⊎ ((start_job parse_time s done req built prepared resources).0
                  ≡ (schedule_job parse_time s j req prepared).0)))
unfolding start_job
start-cases parse_time s done req (err e) prepared resources = elim (Bool-cases done) [
  | inl cut ↦ inl (ground (arith, cut))
  | inr there ↦ elim (Bool-cases (str_eq req.command "")) [
    | inl empty ↦ inl (ground (arith, there, empty))
    | inr named ↦ inl (ground (arith, there, named))
  ]
]
start-cases parse_time s done req (ok j) prepared resources = elim (Bool-cases done) [
  | inl cut ↦ inl (ground (arith, cut))
  | inr there ↦ elim (Bool-cases (str_eq req.command "")) [
    | inl empty ↦ inl (ground (arith, there, empty))
    | inr named ↦ elim (Bool-cases (str_eq req.schedule "")) [
      | inl soon ↦ inr (j, refl, inl (ground (arith, there, named, soon)))
      | inr later ↦ inr (j, refl, inr (ground (arith, there, named, later)))
    ]
  ]
]

pub start-Enters :
    {fresh : String → Type 0} (parse_time : String → Option ℤ) (s : Joblet) (done : Bool)
    (req : Request) (built : Result LifecycleError Job) (prepared resources : Bool)
    → IsGood s
    → ((j : Job) → built ≡ ok j → IsNew fresh s j)
    → Enters fresh s (start_job parse_time s done req built prepared resources).0
start-Enters parse_time s done req built prepared resources g new =
    elim (start-cases parse_time s done req built prepared resources) [
      | inl same ↦ subst (Enters _ s) (sym same) (Enters-refl g)
      | inr (j, made, way) ↦
          let n = new j made in
          elim way [
            | inl eq ↦ subst (Enters _ s) (sym eq) (elim (begin-cases s j g resources) [
              | inl same ↦ subst (Enters _ s) (sym same) (Enters-refl g)
              | inr eq' ↦
                  let (_, _, w, st, m, sp) = n.unknown in
                  subst (Enters _ s) (sym eq') (
                    Enters-at s (begun s j g) j.uuid initializing n.is_fresh (begun-IsGood s j g)
                      (begun-others s j g) (begun-Life s j g n.initializing n.full w st m sp))
            ])
            | inr eq ↦
                subst (Enters _ s) (sym eq) (elim (schedule-cases parse_time s j req prepared) [
                  | inl same ↦ subst (Enters _ s) (sym same) (Enters-refl g)
                  | inr (t, eq') ↦ subst (Enters _ s) (sym eq') (stored_state-Enters s j t g n)
                ])
          ]
    ]
