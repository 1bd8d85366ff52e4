-- ===== src/Tests/Roles.antt =====
-- Examples of the theorems on roles, their names and their annotations.
use aws_workload_identity_op.Prelude.{
  ◌≡◌, ◌≤◌, refl, true, some, [], ◌∷◌, length, if◌then◌else◌, ◌↔◌, ◌⊎◌, any, suc,
}
use aws_workload_identity_op.Api.ConditionTypes
use aws_workload_identity_op.Api.Errors.{ok}
use aws_workload_identity_op.Api.Types.{AckResourceStatus, self_hosted_irsa}
use aws_workload_identity_op.Aws.Names.{
  text_length, bucket_name, role_name, policy_name, owner_label_value, safe_dns_part,
}
use aws_workload_identity_op.Aws.Names.Bounds.{names_bounds, IsDnsText, safe_dns_part-IsDnsText}
use aws_workload_identity_op.Controller.Annotations.{
  ServiceAccount, patch_object_annotations, result_none,
}
use aws_workload_identity_op.Controller.Annotations.Effects.{
  Carries, IsPatched, patch_object_annotations-rendered,
}
use aws_workload_identity_op.Controller.Role.Server.{iam_policy, RoleServer}
use aws_workload_identity_op.Controller.Role.Status.{
  set_hub_ready_conditions, upsert_ack_resource, same_resource,
}
use aws_workload_identity_op.Controller.Role.Status.Readiness.{
  IsDelivered, set_hub_ready_conditions-IsDelivered,
}
use aws_workload_identity_op.Controller.Role.Status.Resources.{
  entry_for, upsert_ack_resource-entry_for,
}
use aws_workload_identity_op.Controller.Role.Delete.{delete_child_if_owned}
use aws_workload_identity_op.Controller.Role.Delete.Guard.{delete_child_if_owned-keeps}
use aws_workload_identity_op.Tests.Fixtures.{list_conditions}
use aws_workload_identity_op.Tests.World.{web_role}
use aws_workload_identity_op.Tests.Hub.{east_config, ready_now}
use aws_workload_identity_op.Tests.RoleWorld.{
  RoleWorld, account, remote, role_server, world, deleted_role, association, keeps_foreign_policy,
}

set_hub_ready_conditions-IsDelivered_example :
    (let after =
        set_hub_ready_conditions list_conditions (ready_now ∷ []) 3 self_hosted_irsa east_config in
      ((list_conditions.is_true after ConditionTypes.ready ≡ true)
        ↔ (list_conditions.is_true (ready_now ∷ []) ConditionTypes.role_ready ≡ true)
          × (list_conditions.is_true (ready_now ∷ []) ConditionTypes.policy_ready ≡ true)
          × IsDelivered list_conditions (ready_now ∷ []) east_config self_hosted_irsa)
      × (list_conditions.is_true after ConditionTypes.delivery_ready
          ≡ list_conditions.is_true after ConditionTypes.ready))
set_hub_ready_conditions-IsDelivered_example =
    set_hub_ready_conditions-IsDelivered list_conditions (ready_now ∷ []) 3 self_hosted_irsa
      east_config

upsert_ack_resource-entry_for_example :
    (entry_for association (upsert_ack_resource [] association) ≡ (
      if same_resource association association then some association else entry_for association []))
    × (length (upsert_ack_resource [] association) ≡ (
        if any (λ r. same_resource r association) []
        then length {A = AckResourceStatus} []
        else suc (length {A = AckResourceStatus} [])))
upsert_ack_resource-entry_for_example = upsert_ack_resource-entry_for [] association association

names_bounds_example :
    (text_length (bucket_name (λ s. "0123456789abcdef") "east" "eu-west-1") ≤ 63)
    × (text_length (role_name (λ s. "0123456789abcdef") web_role) ≤ 64)
    × (text_length (policy_name (λ s. "0123456789abcdef") web_role) ≤ 128)
    × (text_length (owner_label_value (λ s. "0123456789abcdef") "east" "web") ≤ 63)
names_bounds_example = names_bounds (λ s. "0123456789abcdef") "east" "eu-west-1" "web" web_role

safe_dns_part-IsDnsText_example :
    IsDnsText (safe_dns_part "Team_A.web") × (1 ≤ text_length (safe_dns_part "Team_A.web"))
safe_dns_part-IsDnsText_example = safe_dns_part-IsDnsText "Team_A.web"

-- The dotted I and the Kelvin sign have ASCII lower cases.
lowered : safe_dns_part "İDKÄB" ≡ "idk-b"
unfolding safe_dns_part
lowered = refl

patch_object_annotations-rendered_example :
    (let (answer, w) = patch_object_annotations remote account "arn:new" world in
      Carries "arn:new" account.annotations × (answer ≡ ok result_none) × (w ≡ world)
      ⊎ ((Carries "arn:new" account.annotations → ⊥)
          × ((written : ServiceAccount) × IsPatched remote "arn:new" account written
              × (w ≡ (remote.patch_service_account written world).1))))
patch_object_annotations-rendered_example =
    patch_object_annotations-rendered remote account "arn:new" world refl

delete_child_if_owned-keeps_example :
    (delete_child_if_owned role_server deleted_role iam_policy
      (record { namespace = "east"; name = "web" })
      world).1.has_foreign_policy
    ≡ true
delete_child_if_owned-keeps_example =
    delete_child_if_owned-keeps role_server deleted_role (λ w. w.has_foreign_policy ≡ true)
      keeps_foreign_policy iam_policy (record { namespace = "east"; name = "web" }) world refl

-- A server on which the IAM role stays after its deletion.
abbrev slow_server : RoleServer RoleWorld
slow_server = record role_server { delete_child = λ child w. (ok tt, w) }
