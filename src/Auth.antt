-- ===== src/Auth.antt =====
-- Role-based authorization of gRPC calls: internal/joblet/auth/grpc_authorization.go. The peer in
-- the call's context is an argument, as gRPC hands it over; strings.ToLower is a parameter.
pub mod Hierarchy
pub mod Least
pub mod Tests
use joblet.Prelude.{
  ℕ, Bool, true, false, ◌||◌, not, String, Option, none, some, List, [], ◌∷◌, Result, ok, err,
  str_eq, ltb, if◌then◌else◌,
}

-- ClientRole
pub data ClientRole : Type 0 where
  admin : ClientRole
  maintainer : ClientRole
  developer : ClientRole
  reader : ClientRole
  unknown : ClientRole

-- Operation
pub data Operation : Type 0 where
  run_job get_job stop_job delete_job list_jobs get_job_logs get_job_status : Operation
  create_network list_networks remove_network : Operation
  create_volume list_volumes remove_volume : Operation
  list_runtimes get_runtime_info test_runtime validate_runtime build_runtime remove_runtime :
      Operation
  get_metrics query_logs query_metrics : Operation

-- The string value of an Operation, by which maps and comparisons tell operations apart.
pub text : Operation → String
text run_job = "run_job"
text get_job = "get_job"
text stop_job = "stop_job"
text delete_job = "delete_job"
text list_jobs = "list_jobs"
text get_job_logs = "get_job_logs"
text get_job_status = "get_job_status"
text create_network = "create_network"
text list_networks = "list_networks"
text remove_network = "remove_network"
text create_volume = "create_volume"
text list_volumes = "list_volumes"
text remove_volume = "remove_volume"
text list_runtimes = "list_runtimes"
text get_runtime_info = "get_runtime_info"
text test_runtime = "test_runtime"
text validate_runtime = "validate_runtime"
text build_runtime = "build_runtime"
text remove_runtime = "remove_runtime"
text get_metrics = "get_metrics"
text query_logs = "query_logs"
text query_metrics = "query_metrics"

-- readOps
abbrev pub read_ops : List Operation
read_ops =
    get_job ∷ list_jobs ∷ get_job_logs ∷ get_job_status ∷ list_networks ∷ list_volumes
    ∷ list_runtimes ∷ get_runtime_info ∷ get_metrics ∷ query_logs ∷ query_metrics ∷ []

-- developerOps
abbrev pub developer_ops : List Operation
developer_ops = run_job ∷ stop_job ∷ delete_job ∷ test_runtime ∷ read_ops

-- maintainerOps
abbrev pub maintainer_ops : List Operation
maintainer_ops = build_runtime ∷ validate_runtime ∷ create_network ∷ create_volume ∷ developer_ops

-- opSet(ops)[op]
pub op_set : List Operation → Operation → Bool
op_set [] op = false
op_set (o ∷ ops) op = let rest = op_set ops op in if str_eq (text o) (text op) then true else rest

-- roleOperations[role][op]: a role without an entry has the nil map, which holds nothing.
pub role_operations : ClientRole → Operation → Bool
unfolding op_set
role_operations reader op = op_set read_ops op
role_operations developer op = op_set developer_ops op
role_operations maintainer op = op_set maintainer_ops op
role_operations admin op = false
role_operations unknown op = false

-- isOperationAllowed
pub is_operation_allowed : ClientRole → Operation → Bool
is_operation_allowed admin op = true
is_operation_allowed maintainer op = role_operations maintainer op
is_operation_allowed developer op = role_operations developer op
is_operation_allowed reader op = role_operations reader op
is_operation_allowed unknown op = role_operations unknown op

-- rolePrivilege[role]: a missing key reads as 0.
unfoldable pub role_privilege : ClientRole → ℕ
role_privilege reader = 1
role_privilege developer = 2
role_privilege maintainer = 3
role_privilege admin = 4
role_privilege unknown = 0

-- role == UnknownRole
unfoldable pub is_unknown : ClientRole → Bool
is_unknown unknown = true
is_unknown admin = false
is_unknown maintainer = false
is_unknown developer = false
is_unknown reader = false

-- The switch of extractClientRole over a lower-cased OU
pub candidate : String → Option ClientRole
candidate ou =
    if str_eq ou "admin"
    then some admin
    else if str_eq ou "maintainer"
    then some maintainer
    else if str_eq ou "developer"
    then some developer
    else if str_eq ou "reader" || str_eq ou "viewer"
    then some reader
    else none

-- The condition that replaces the role found so far
pub demote : ClientRole → ClientRole → ClientRole
unfolding is_unknown role_privilege
demote role c = if is_unknown role || ltb (role_privilege c) (role_privilege role) then c else role

-- What the call's context holds: a peer, its TLS state, its certificates' OUs
pub record Peer : Type 0 where
  tls_info : Option (List (List String))

pub data Reason : Type 0 where
  no_peer : Reason
  no_tls : Reason
  no_certificate : Reason

pub data AuthError : Type 0 where
  unauthenticated : Reason → AuthError
  permission_denied : ClientRole → Operation → AuthError

module _ (to_lower : String → String) where
  -- The loop of extractClientRole over the OUs
  pub scan_units : ClientRole → List String → ClientRole
  scan_units role [] = role
  scan_units role (ou ∷ ous) = elim (candidate (to_lower ou)) [
    | none ↦ scan_units role ous
    | some c ↦ scan_units (demote role c) ous
  ]

  -- extractClientRole
  pub extract_client_role : Option Peer → Result Reason ClientRole
  unfolding scan_units
  extract_client_role none = err no_peer
  extract_client_role (some p) = elim p.tls_info [
    | none ↦ err no_tls
    | some certificates ↦ elim certificates [
      | [] ↦ err no_certificate
      | ous ∷ others ↦ ok (scan_units unknown ous)
    ]
  ]

  -- Authorized
  pub authorized : Option Peer → Operation → Option AuthError
  unfolding extract_client_role is_operation_allowed
  authorized ctx op = elim (extract_client_role ctx) [
    | err reason ↦ some (unauthenticated reason)
    | ok role ↦ if is_operation_allowed role op then none else some (permission_denied role op)
  ]
