-- ===== src/Auth/Tests.antt =====
-- A certificate with two role OUs: internal/joblet/auth/grpc_authorization.go.
use joblet.Prelude.{◌≡◌, String, none, some, List, [], ◌∷◌, leb, if◌then◌else◌, ◌&&◌}
use joblet.Auth.{
  unknown, developer, run_job, remove_network, permission_denied, authorized, scan_units,
  is_operation_allowed, role_privilege,
}
use joblet.Auth.Hierarchy.{required, allowed-required}
use joblet.Auth.Least.{named_roles, names_a_role, all_allow, authorized-named_roles}

-- These names are in lower case already.
abbrev lower : String → String
lower s = s

abbrev units : List String
units = "admin" ∷ "staff" ∷ "developer" ∷ []

authorized-named_roles_example :
    authorized lower (some (record { tls_info = some (units ∷ []) })) remove_network ≡ (
      if names_a_role (named_roles lower units)
        && all_allow (named_roles lower units) remove_network
      then none
      else some (permission_denied (scan_units lower unknown units) remove_network))
authorized-named_roles_example = authorized-named_roles lower units [] remove_network

allowed-required_example :
    is_operation_allowed developer run_job ≡ leb (required run_job) (role_privilege developer)
allowed-required_example = allowed-required developer run_job
