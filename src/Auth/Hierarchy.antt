-- ===== src/Auth/Hierarchy.antt =====
-- The role tables of internal/joblet/auth/grpc_authorization.go form a hierarchy.
use joblet.Prelude.{ℕ, ◌≡◌, refl, arith, true, false, leb, ◌≤◌}
use joblet.Auth.{
  ClientRole, maintainer, developer, reader, Operation, run_job, get_job, stop_job, delete_job,
  list_jobs, get_job_logs, get_job_status, create_network, list_networks, remove_network,
  create_volume, list_volumes, remove_volume, list_runtimes, get_runtime_info, test_runtime,
  validate_runtime, build_runtime, remove_runtime, get_metrics, query_logs, query_metrics,
  is_operation_allowed, role_operations, op_set, text, role_privilege, is_unknown,
}

-- The least privilege an operation asks for: reading 1, running jobs 2, provisioning 3, removing
-- what jobs share 4.
pub required : Operation → ℕ
required get_job = 1
required list_jobs = 1
required get_job_logs = 1
required get_job_status = 1
required list_networks = 1
required list_volumes = 1
required list_runtimes = 1
required get_runtime_info = 1
required get_metrics = 1
required query_logs = 1
required query_metrics = 1
required run_job = 2
required stop_job = 2
required delete_job = 2
required test_runtime = 2
required build_runtime = 3
required validate_runtime = 3
required create_network = 3
required create_volume = 3
required remove_network = 4
required remove_volume = 4
required remove_runtime = 4

maintainer-required : (op : Operation) → is_operation_allowed maintainer op ≡ leb (required op) 3
unfolding is_operation_allowed role_operations op_set text required
maintainer-required op = elim op as (λ o. is_operation_allowed maintainer o ≡ leb (required o) 3) [
  | run_job ↦ refl
  | _ ↦ refl
]

developer-required : (op : Operation) → is_operation_allowed developer op ≡ leb (required op) 2
unfolding is_operation_allowed role_operations op_set text required
developer-required op = elim op as (λ o. is_operation_allowed developer o ≡ leb (required o) 2) [
  | run_job ↦ refl
  | _ ↦ refl
]

reader-required : (op : Operation) → is_operation_allowed reader op ≡ leb (required op) 1
unfolding is_operation_allowed role_operations op_set text required
reader-required op = elim op as (λ o. is_operation_allowed reader o ≡ leb (required o) 1) [
  | run_job ↦ refl
  | _ ↦ refl
]

required-bounds : (op : Operation) → (1 ≤ required op) × (required op ≤ 4)
unfolding required
required-bounds op = ground arith

-- A role may perform an operation exactly when its privilege is at least the one the operation asks
-- for.
pub allowed-required :
    (role : ClientRole) (op : Operation)
    → is_operation_allowed role op ≡ leb (required op) (role_privilege role)
unfolding is_operation_allowed role_operations role_privilege
allowed-required role op =
    ground
      (arith, required-bounds op, maintainer-required op, developer-required op, reader-required op)

pub unknown-allows :
    (role : ClientRole) (op : Operation)
    → is_unknown role ≡ true
    → is_operation_allowed role op ≡ false
unfolding is_operation_allowed role_operations is_unknown
unknown-allows role op h = ground arith
