-- ===== src/Controller/Role/Delete.antt =====
-- deleteRoleChildIfOwned of internal/controller/role_controller.go: the deletion of a child by its
-- generated name, where the role controls it.
pub mod Guard
use aws_workload_identity_op.Prelude.{
  String, ◌==◌, Bool, true, false, not, ◌||◌, if◌then◌else◌, Option, none, some, [], ◌∷◌, cat,
  quote,
}
use aws_workload_identity_op.Api.Constants.{default_name}
use aws_workload_identity_op.Api.Delivery.{delivery_text, uses_annotation_based_irsa}
use aws_workload_identity_op.Api.Errors.{Failure, failure, wrap, Result, ok, err, wrap_result}
use aws_workload_identity_op.Api.Types.{
  Role, Config, NamespacedName, name_text, DeliveryType, self_hosted_irsa, eks_pod_identity,
  eks_irsa, other_delivery,
}
use aws_workload_identity_op.Controller.Common.Names.{namespaced_name_from_string}
use aws_workload_identity_op.Aws.Names.{role_name}
use aws_workload_identity_op.Inventory.{Resolution, resolve_inventory}
use aws_workload_identity_op.Controller.Annotations.{
  RemoteClient, OperationResult, remove_annotations,
}
use aws_workload_identity_op.Controller.Role.Server.{
  ChildKind, pod_identity_association, iam_role, iam_policy, AckChild, RoleServer,
}

-- `%T` of a child.
abbrev pub kind_text : ChildKind → String
kind_text pod_identity_association = "*v1alpha1.PodIdentityAssociation"
kind_text iam_role = "*v1alpha1.Role"
kind_text iam_policy = "*v1alpha1.Policy"

unfoldable pub same_uid : String → Option String → Bool
same_uid uid none = false
same_uid uid (some owner) = owner == uid

-- isRoleChildOwnedBy
unfoldable pub is_child_owned_by : Role → AckChild → Bool
unfolding same_uid
is_child_owned_by role child =
    if role.meta.uid == "" then false else same_uid role.meta.uid child.controller_uid

child_text : ChildKind → NamespacedName → String
child_text kind key = cat (kind_text kind ∷ " " ∷ name_text key ∷ [])

gone_or_error : String → ChildKind → NamespacedName → String → Failure → Result Bool
unfolding child_text
gone_or_error before kind key later e =
    if e.not_found || e.no_match
    then ok false
    else err (wrap (cat (before ∷ child_text kind key ∷ later ∷ [])) e)

module _ {S : Type 0} (server : RoleServer S) where
  recheck : S → ChildKind → NamespacedName → Result AckChild → Result Bool × S
  unfolding gone_or_error
  recheck s kind key (ok child) = (ok true, s)
  recheck s kind key (err e) = (gone_or_error "re-check " kind key " after delete" e, s)

  after_child_delete : ChildKind → NamespacedName → Result (Unit {0}) × S → Result Bool × S
  unfolding recheck child_text
  after_child_delete kind key (ok _, s) = recheck s kind key (server.get_child s kind key)
  after_child_delete kind key (err e, s) =
      if e.not_found
      then (ok false, s)
      else (err (wrap (cat ("delete " ∷ child_text kind key ∷ [])) e), s)

  delete_found : Role → S → ChildKind → NamespacedName → Result AckChild → Result Bool × S
  unfolding is_child_owned_by after_child_delete gone_or_error
  delete_found role s kind key (err e) = (gone_or_error "get " kind key "" e, s)
  delete_found role s kind key (ok child) =
      if not (is_child_owned_by role child)
      then (ok false, s)
      else after_child_delete kind key (server.delete_child child s)

  -- deleteRoleChildIfOwned: true if the child is still present.
  unfoldable pub delete_child_if_owned : Role → ChildKind → NamespacedName → S → Result Bool × S
  unfolding delete_found
  delete_child_if_owned role kind key s = delete_found role s kind key (server.get_child s kind key)
