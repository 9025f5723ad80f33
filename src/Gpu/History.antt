-- ===== src/Gpu/History.antt =====
-- The manager from its start through any sequence of calls.

use joblet.Prelude.{
  ℕ, ◌≡◌, refl, Bool, true, false, ◌||◌, String, Option, some, List, [], ◌∷◌, arith, contains,
  Distinct, All, ◌==◌,
}
use joblet.Prelude.Int.{ℤ}
use joblet.Prelude.Map
use joblet.Gpu.{Manager, new_manager, store_all, initialize, allocate, release, clear_quarantine}
use joblet.Gpu.Device.{Gpu, find, store, indices}
use joblet.Gpu.Ownership.{Owned, owner_at, allocate-Owned, release-Owned, clear_quarantine-Owned}

pub data Call : Type 0 where
  allocates : String → ℤ → ℤ → ℕ → Call
  releases : String → (ℕ → Option ℤ) → Call
  clears : ℕ → Call

pub step : Manager → Call → Manager
step m (allocates job n need now) = (allocate m job n need now).0
step m (releases job used) = release m job used
step m (clears i) = (clear_quarantine m i).0

pub run : Manager → List Call → Manager
run m [] = m
run m (c ∷ cs) = run (step m c) cs

step-Owned : (m : Manager) (c : Call) → Owned m → Owned (step m c)
unfolding step
step-Owned m (allocates job n need now) v = allocate-Owned m job n need now v
step-Owned m (releases job used) v = release-Owned m job used v
step-Owned m (clears i) v = clear_quarantine-Owned m i v

run-Owned : (m : Manager) (cs : List Call) → Owned m → Owned (run m cs)
unfolding run
run-Owned m [] v = v
run-Owned m (c ∷ cs) v = run-Owned (step m c) cs (step-Owned m c v)

contains-store :
    (gs : List Gpu) (g : Gpu) (i : ℕ)
    → contains (indices (store gs g)) i ≡ (contains (indices gs) i || (g.index == i))
unfolding store
contains-store [] g i = ground arith
contains-store (h ∷ gs) g i = ground (arith, contains-store gs g i)

Distinct-store : (gs : List Gpu) (g : Gpu) → Distinct (indices gs) → Distinct (indices (store gs g))
unfolding store
Distinct-store [] g d = (refl, tt)
Distinct-store (h ∷ gs) g d = ground (arith, Distinct-store gs g, contains-store gs g h.index)

abbrev pub IsIdle : Gpu → Type 0
IsIdle g = g.in_use ≡ false

All-store : (gs : List Gpu) (g : Gpu) → All IsIdle gs → IsIdle g → All IsIdle (store gs g)
unfolding store
All-store [] g h k = (k, tt)
All-store (x ∷ gs) g h k = ground (arith, All-store gs g)

store_all-fresh :
    (gs new : List Gpu)
    → Distinct (indices gs)
    → All IsIdle gs
    → All IsIdle new
    → Distinct (indices (store_all gs new)) × All IsIdle (store_all gs new)
unfolding store_all
store_all-fresh gs [] d h k = (d, h)
store_all-fresh gs (g ∷ new) d h k =
    store_all-fresh (store gs g) new (Distinct-store gs g d) (All-store gs g h k.0) k.1

idle_unowned :
    (gs : List Gpu) (i : ℕ) (job : String) → All IsIdle gs → owner_at gs i ≡ some (true, job) → ⊥
unfolding find
idle_unowned [] i job h e = cc
idle_unowned (g ∷ gs) i job h e = ground (arith, idle_unowned gs i job h.1)

idle-Owned :
    (m : Manager) → m.allocations ≡ [] → Distinct (indices m.gpus) → All IsIdle m.gpus → Owned m
unfolding Map.get
idle-Owned m none_yet d h = record {
  distinct = d;
  held = λ job i (a, e, _). absurd (ground arith);
  accounted = λ job i e. absurd (idle_unowned m.gpus i job h e);
}

-- However a manager is configured, and whatever calls follow the discovery of a set of idle GPUs,
-- indices stay distinct, and a GPU is marked as in use by a job exactly when the allocation on
-- record for that job lists it. So no GPU is ever lent to two jobs, and none is lost.
pub run-initialize-Owned :
    (enabled : Bool) (strategy policy : String) (found : List Gpu) (cs : List Call)
    → All IsIdle found
    → Owned (run (initialize (new_manager enabled strategy policy) (some found)).0 cs)
unfolding initialize new_manager
run-initialize-Owned enabled strategy policy found cs h = run-Owned _ cs (start enabled)
  where
    start : (e : Bool) → Owned (initialize (new_manager e strategy policy) (some found)).0
    start true = let fresh = store_all-fresh [] found tt tt h in idle-Owned _ refl fresh.0 fresh.1
    start false = idle-Owned _ refl tt tt
