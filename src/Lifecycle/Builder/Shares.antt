-- ===== src/Lifecycle/Builder/Shares.antt =====
-- What becomes of a client's share of the CPU: NewResourceLimitsFromParams of
-- internal/joblet/domain/resource_limits.go, then Build of internal/joblet/core/job/builder.go.
use joblet.Prelude.{◌≡◌, ◌⊎◌, ok, Result, if◌then◌else◌}
use joblet.Prelude.Int.{ℤ, pos, ltb_ℤ, ◌≤ℤ◌}
use joblet.Jobs.Domain.{Job}
use joblet.Limits.{Limits}
use joblet.Lifecycle.{LifecycleError}

-- What becomes of the share n that the client asks for, where `standard` is the configured one
pub record IsShare (n standard : ℤ) (r : Result LifecycleError Job) : Type 0 where
  pub bounded : (j : Job) → r ≡ ok j → pos 0 ≤ℤ j.limits.cpu × j.limits.cpu ≤ℤ pos 100
  pub refused : pos 101 ≤ℤ n → n ≤ℤ pos 10000 → (j : Job) → r ≡ ok j → ⊥
  pub kept : pos 1 ≤ℤ n → n ≤ℤ pos 100 → (j : Job) → r ≡ ok j → j.limits.cpu ≡ n
  pub replaced : (n ≤ℤ pos 0) ⊎ (pos 10001 ≤ℤ n) → (j : Job) → r ≡ ok j → j.limits.cpu ≡ standard

-- A share as NewResourceLimitsFromParams keeps it
settled : ℤ → ℤ
settled v = if ltb_ℤ (pos 0) v then (if ltb_ℤ (pos 10000) v then pos 0 else v) else pos 0

-- The share that Build looks at, for a share v of the request's limits
filled : ℤ → ℤ → ℤ
filled v standard = settled (if ltb_ℤ (pos 0) v then v else standard)
