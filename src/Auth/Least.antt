-- ===== src/Auth/Least.antt =====
-- Which role a certificate with several role OUs gets, and what it may then do: extractClientRole
-- and Authorized of internal/joblet/auth/grpc_authorization.go.
use joblet.Prelude.{
  ◌≡◌, ap, Bool, true, false, ◌&&◌, String, none, some, List, [], ◌∷◌, arith, if◌then◌else◌,
  Option-cases, inl, inr,
}
use joblet.Auth.{
  ClientRole, unknown, Operation, candidate, demote, scan_units, extract_client_role, authorized,
  is_operation_allowed, role_privilege, is_unknown, permission_denied,
}
use joblet.Auth.Hierarchy.{unknown-allows, allowed-required}

-- The roles that a certificate's OUs name
pub named_roles : (String → String) → List String → List ClientRole
named_roles to_lower [] = []
named_roles to_lower (ou ∷ ous) =
    let rest = named_roles to_lower ous in
    elim (candidate (to_lower ou)) [ none ↦ rest | some c ↦ c ∷ rest ]

-- May each of the roles perform the operation?
pub all_allow : List ClientRole → Operation → Bool
all_allow [] op = true
all_allow (r ∷ rs) op = is_operation_allowed r op && all_allow rs op

pub names_a_role : List ClientRole → Bool
names_a_role [] = false
names_a_role (_ ∷ _) = true

candidate-positive : (ou : String) (c : ClientRole) → candidate ou ≡ some c → is_unknown c ≡ false
unfolding candidate is_unknown
candidate-positive ou c e = ground arith

-- A role found replaced by a candidate allows what both allow.
demote-allows :
    (role c : ClientRole) (op : Operation)
    → is_unknown c ≡ false
    → is_operation_allowed (demote role c) op ≡ (
        if is_unknown role
        then is_operation_allowed c op
        else is_operation_allowed role op && is_operation_allowed c op)
unfolding demote is_unknown role_privilege
demote-allows role c op known =
    ground (arith, allowed-required role op, allowed-required c op, unknown-allows role op)

demote-known : (role c : ClientRole) → is_unknown c ≡ false → is_unknown (demote role c) ≡ false
unfolding demote
demote-known role c known = ground arith

scan_units-allows :
    (to_lower : String → String) (role : ClientRole) (ous : List String) (op : Operation)
    → is_operation_allowed (scan_units to_lower role ous) op ≡ (
        if is_unknown role
        then names_a_role (named_roles to_lower ous) && all_allow (named_roles to_lower ous) op
        else is_operation_allowed role op && all_allow (named_roles to_lower ous) op)
unfolding scan_units named_roles all_allow names_a_role
scan_units-allows to_lower role [] op = ground (arith, unknown-allows role op)
scan_units-allows to_lower role (ou ∷ ous) op = elim (Option-cases (candidate (to_lower ou))) [
  | inl no_role ↦ ground (arith, scan_units-allows to_lower role ous op)
  | inr (c, found) ↦
      let known = candidate-positive (to_lower ou) c found in
      ground (
        arith,
        scan_units-allows to_lower (demote role c) ous op,
        demote-known role c known,
        demote-allows role c op known,
      )
]

-- A client whose first certificate carries the OUs is let through exactly when they name a role and
-- every role they name may perform the operation; otherwise the operation is denied.
pub authorized-named_roles :
    (to_lower : String → String) (ous : List String) (others : List (List String)) (op : Operation)
    → authorized to_lower (some (record { tls_info = some (ous ∷ others) })) op ≡ (
        if names_a_role (named_roles to_lower ous) && all_allow (named_roles to_lower ous) op
        then none
        else some (permission_denied (scan_units to_lower unknown ous) op))
unfolding authorized extract_client_role is_unknown
authorized-named_roles to_lower ous others op =
    ap
      (λ (b : Bool).
        (if b then none else some (permission_denied (scan_units to_lower unknown ous) op)))
      (scan_units-allows to_lower unknown ous op)
