-- ===== src/Tests/Bindings.antt =====
-- Examples of the theorems on roles that bind one service account.
use aws_workload_identity_op.Prelude.{
  if◌then◌else◌, ◌++◌, false, ◌≡◌, ◌⊎◌, refl, true, List, [], ◌∷◌, ltb,
}
use aws_workload_identity_op.Api.Errors.{ok}
use aws_workload_identity_op.Api.Types.{Role, NamespacedName}
use aws_workload_identity_op.Controller.Bindings.{
  active_roles, binding_names, conflicting_role_names, reconcile_remote_service_account,
  reconcile_duplicate_binding_conflict,
}
use aws_workload_identity_op.Controller.Bindings.Agreement.{
  binding_names-conflicting_role_names, IsRepair, reconcile_remote_service_account-IsRepair,
}
use aws_workload_identity_op.Controller.Bindings.Conflict.{
  bindings, IsFree, IsConflicting, reconcile_duplicate_binding_conflict-handled,
}
use aws_workload_identity_op.Controller.Bindings.Names.{has_role}
use aws_workload_identity_op.Tests.Fixtures.{list_conditions}
use aws_workload_identity_op.Tests.World.{web_role, meta_of}
use aws_workload_identity_op.Tests.Hub.{bound_role}
use aws_workload_identity_op.Tests.RoleWorld.{remote, role_server, world}

-- Two active roles, and one that is being deleted.
abbrev listed : List Role
listed =
    bound_role
    ∷ record web_role { meta = meta_of "east" "other" }
    ∷ record web_role { meta = record (meta_of "east" "gone") { deleting = true } }
    ∷ []

abbrev new_role : Role
new_role = record web_role { meta = record (meta_of "east" "new") { uid = "uid-9" } }

abbrev frontend : NamespacedName
frontend = record { namespace = "web"; name = "frontend" }

-- The index does not list the role itself yet.
binding_names-conflicting_role_names_example :
    binding_names new_role listed
    ≡ conflicting_role_names (
        active_roles
          (if has_role new_role (active_roles listed) then listed else listed ++ new_role ∷ []))
binding_names-conflicting_role_names_example =
    binding_names-conflicting_role_names new_role listed refl

reconcile_remote_service_account-IsRepair_example :
    (let s' =
        (reconcile_remote_service_account remote "east" frontend (ok (bound_role ∷ [])) world).1 in
      (s' ≡ world) ⊎ IsRepair remote "east" frontend world (ok (bound_role ∷ [])) s')
reconcile_remote_service_account-IsRepair_example =
    reconcile_remote_service_account-IsRepair remote "east" frontend world (ok (bound_role ∷ []))

reconcile_duplicate_binding_conflict-handled_example :
    (let (o, s') =
        reconcile_duplicate_binding_conflict list_conditions role_server bound_role
          bound_role.status
          (ok listed)
          world in
      (ltb (bindings bound_role listed) 2 ≡ true)
        × IsFree list_conditions role_server bound_role bound_role.status world o s'
      ⊎ (ltb (bindings bound_role listed) 2 ≡ false)
        × IsConflicting list_conditions role_server bound_role bound_role.status o)
reconcile_duplicate_binding_conflict-handled_example =
    reconcile_duplicate_binding_conflict-handled list_conditions role_server bound_role
      bound_role.status listed world
