-- ===== src/Controller/Bindings.antt =====
-- Roles that bind one service account: activeRolesForServiceAccount, conflictingRoleNames and
-- reconcileRemoteServiceAccount of internal/controller/selfhosted_serviceaccount_controller.go, and
-- conflictingServiceAccountBindingNames and reconcileDuplicateBindingConflict of
-- internal/controller/role_controller.go.
pub mod Agreement
pub mod Conflict
pub mod Names
use aws_workload_identity_op.Prelude.{
  ℕ, String, ◌==◌, ◌++◌, Bool, true, false, not, if◌then◌else◌, Option, none, some, List, [], ◌∷◌,
  map, any, select, cat, quote, join, length, ltb,
}
use aws_workload_identity_op.Prelude.Sorting.{sort, str_le}
use aws_workload_identity_op.Api.ConditionTypes
use aws_workload_identity_op.Api.Reasons
use aws_workload_identity_op.Api.Conditions.{StatusConditions}
use aws_workload_identity_op.Api.Errors.{Failure, wrap, Result, ok, err}
use aws_workload_identity_op.Api.Types.{Role, RoleStatus, NamespacedName, name_text, object_key}
use aws_workload_identity_op.Controller.Common.{RequeueAfter, fail_ready, transient_requeue}
use aws_workload_identity_op.Controller.Annotations.{
  OperationResult, RemoteClient, ServiceAccount, patch_object_annotations,
}
use aws_workload_identity_op.Controller.Role.Server.{RoleServer}
use aws_workload_identity_op.Controller.Role.Finalize.{patch_role_status}

-- activeRolesForServiceAccount
unfoldable pub active_roles : List Role → List Role
active_roles roles = select (λ r. not r.meta.deleting) roles

abbrev pub key_text : Role → String
key_text r = name_text (object_key r.meta)

-- conflictingRoleNames
unfoldable pub conflicting_role_names : List Role → List String
unfolding sort
conflicting_role_names roles = sort str_le (map key_text roles)

-- The loop of conflictingServiceAccountBindingNames: the names so far, and whether the role is among
-- those listed.
unfoldable pub binding_loop : Role → List Role → List String × Bool → List String × Bool
binding_loop role [] acc = acc
binding_loop role (existing ∷ rest) acc = binding_loop role rest (
    if existing.meta.deleting then acc else (
      acc.0 ++ key_text existing ∷ [],
      if existing.meta.uid == role.meta.uid then true else acc.1,
    ))

-- The names that the loop found, and the role itself where the index does not have it yet.
unfoldable pub binding_names : Role → List Role → List String
unfolding sort binding_loop
binding_names role roles =
    let (conflicts, self_found) = binding_loop role roles ([], false) in
    sort str_le (if not self_found then conflicts ++ key_text role ∷ [] else conflicts)

-- conflictingServiceAccountBindingNames, of the roles that the index lists.
unfoldable pub conflicting_binding_names : Role → Result (List Role) → Result (List String)
unfolding binding_names
conflicting_binding_names role (ok roles) = ok (binding_names role roles)
conflicting_binding_names role (err e) =
    err
      (wrap (cat ("list AWSServiceAccountRoles in namespace " ∷ quote role.meta.namespace ∷ [])) e)

module _ {S : Type 0} (remote : RemoteClient S) where
  patched_role : NamespacedName → Result OperationResult × S → Option Failure × S
  patched_role key (ok _, s) = (none, s)
  patched_role key (err e, s) =
      (some (wrap (cat ("patch remote ServiceAccount annotations " ∷ name_text key ∷ [])) e), s)

  -- Only the single active role of a service account is delivered.
  repair : NamespacedName → ServiceAccount → List Role → S → Option Failure × S
  unfolding patched_role patch_object_annotations
  repair key current [] s = (none, s)
  repair key current (role ∷ []) s =
      if role.status.role_arn == ""
      then (none, s)
      else patched_role key (patch_object_annotations remote current role.status.role_arn s)
  repair key current (role ∷ other ∷ rest) s = (none, s)

  with_roles :
      String → NamespacedName → ServiceAccount → Result (List Role) → S → Option Failure × S
  unfolding repair active_roles
  with_roles namespace key current (ok roles) s = repair key current (active_roles roles) s
  with_roles namespace key current (err e) s = (
    some (
        wrap
          (cat (
            "list AWSServiceAccountRoles by ServiceAccount index in namespace "
            ∷ quote namespace
            ∷ []))
          e),
    s,
  )

  with_account :
      String → NamespacedName → Result (List Role) → Result ServiceAccount → S → Option Failure × S
  unfolding with_roles
  with_account namespace key roles (ok current) s = with_roles namespace key current roles s
  with_account namespace key roles (err e) s =
      if e.not_found
      then (none, s)
      else (some (wrap (cat ("get remote ServiceAccount " ∷ name_text key ∷ [])) e), s)

  -- reconcileRemoteServiceAccount, with the roles that the index lists for the service account.
  unfoldable pub reconcile_remote_service_account :
      String → NamespacedName → Result (List Role) → S → Option Failure × S
  unfolding with_account
  reconcile_remote_service_account namespace key roles s =
      with_account namespace key roles (remote.get_service_account s key) s

-- What reconcileDuplicateBindingConflict leaves of the role and returns; `handled` ends the reconcile.
pub record ConflictOutcome : Type 0 where
  pub role : Role
  pub requeue_after : RequeueAfter
  pub handled : Bool
  pub error : Option Failure

module _ (k : StatusConditions) {S : Type 0} (server : RoleServer S) where
  marked_conflict : Role → List String → Role
  unfolding fail_ready
  marked_conflict role names = record role {
    status = record role.status {
      conditions =
          fail_ready k role.status.conditions role.meta.generation ConditionTypes.delivery_ready
            Reasons.invalid_spec
            (cat (
              "service account "
              ∷ role.spec.service_account.namespace
              ∷ "/"
              ∷ role.spec.service_account.name
              ∷ " is bound by multiple AWSServiceAccountRole objects: ["
              ∷ join " " names
              ∷ "]"
              ∷ []));
    };
  }

  conflict_patched : Role → Result (Unit {0}) × S → ConflictOutcome × S
  conflict_patched role (ok _, s) =
      (record { role = role; requeue_after = transient_requeue; handled = true; error = none }, s)
  conflict_patched role (err e, s) =
      (record { role = role; requeue_after = 0; handled = true; error = some e }, s)

  with_names : Role → RoleStatus → Result (List String) → S → ConflictOutcome × S
  unfolding marked_conflict conflict_patched patch_role_status
  with_names role before (err e) s =
      (record { role = role; requeue_after = 0; handled = true; error = some e }, s)
  with_names role before (ok names) s =
      if ltb (length names) 2
      then (record { role = role; requeue_after = 0; handled = false; error = none }, s)
      else conflict_patched (marked_conflict role names)
          (patch_role_status k server (marked_conflict role names) before s)

  -- reconcileDuplicateBindingConflict, with the roles that the index lists for the service account.
  unfoldable pub reconcile_duplicate_binding_conflict :
      Role → RoleStatus → Result (List Role) → S → ConflictOutcome × S
  unfolding with_names conflicting_binding_names
  reconcile_duplicate_binding_conflict role before roles s =
      with_names role before (conflicting_binding_names role roles) s
