-- ===== src/Controller/Role/Apply.antt =====
-- The ACK children of a role: reconcileGeneratedPolicy, reconcileIAMRole and
-- reconcilePodIdentityAssociation of internal/controller/role_controller.go, with createOrUpdate.
pub mod Keeps
use aws_workload_identity_op.Prelude.{
  String, ◌==◌, ◌++◌, Bool, true, not, if◌then◌else◌, Option, none, some, List, [], ◌∷◌, cat,
}
use aws_workload_identity_op.Api.ConditionTypes
use aws_workload_identity_op.Api.Reasons
use aws_workload_identity_op.Api.Conditions.{StatusConditions, status_true, status_false}
use aws_workload_identity_op.Api.Errors.{Failure, wrap, Result, ok, err, wrap_result}
use aws_workload_identity_op.Api.Types.{AckResourceStatus, DeliveryType}
use aws_workload_identity_op.Aws.Ack.{
  Desired, IamPolicySpec, IamRoleSpec, AssociationSpec, AckStatus, build_iam_policy, build_iam_role,
  build_pod_identity_association, is_ack_synced, ack_resource_status, arn_of,
  policy_document_string,
}
use aws_workload_identity_op.Aws.Names.{policy_name}
use aws_workload_identity_op.Controller.Common.{set_ack_ready_condition}
use aws_workload_identity_op.Controller.Role.Delete.{kind_text, delete_child_if_owned}
use aws_workload_identity_op.Controller.Role.Flow.{
  M, ◌>>=◌, ◌>>◌, pure, abort, the_role, change, call, change_conditions, mark, mark_not_ready,
}
use aws_workload_identity_op.Controller.Role.Prepare.{Inputs}
use aws_workload_identity_op.Controller.Role.Server.{
  ChildKind, pod_identity_association, iam_role, iam_policy, RoleServer,
}
use aws_workload_identity_op.Controller.Role.Status.{
  upsert_ack_resource, remove_ack_resource_by_kind, pod_identity_association_kind,
}
use aws_workload_identity_op.Inventory.{Resolution}

abbrev pub iam_api_version : String
iam_api_version = "iam.services.k8s.aws/v1alpha1"

abbrev pub eks_api_version : String
eks_api_version = "eks.services.k8s.aws/v1alpha1"

abbrev pub policy_kind : String
policy_kind = "Policy"

abbrev pub role_kind : String
role_kind = "Role"

child_key : ChildKind → String → String → String
child_key kind namespace name = cat (kind_text kind ∷ " " ∷ namespace ∷ "/" ∷ name ∷ [])

-- The error of createOrUpdate.
create_or_update {ℓ} : {A : Type ℓ} → ChildKind → String → String → Result A → Result A
unfolding child_key
create_or_update kind namespace name answer =
    wrap_result (cat ("create or update " ∷ child_key kind namespace name ∷ [])) answer

module _ (k : StatusConditions) {S : Type 0} (server : RoleServer S) where
  upsert : AckResourceStatus → M S (Unit {0})
  unfolding upsert_ack_resource
  upsert entry =
      change (λ s. record s { ack_resources = upsert_ack_resource s.ack_resources entry })

  mark_ack : String → String → Bool → Bool → M S (Unit {0})
  unfolding set_ack_ready_condition
  mark_ack condition_type kind synced observed =
      change_conditions λ cs g. set_ack_ready_condition k cs g condition_type kind synced observed

  -- A step that fails the condition of a child and the delivery, and ends with the error.
  fail_child : {A : Type 0} → String → String → Failure → M S A
  fail_child condition_type reason e = do
    mark k condition_type status_false reason e.text
    mark_not_ready k ConditionTypes.delivery_ready reason e.text
    abort e

  pruned : List String → Result Bool → M S (List String)
  unfolding remove_ack_resource_by_kind
  pruned arns (err e) = do
    role ← the_role
    abort (
        wrap
          (cat (
            "prune generated IAM Policy "
            ∷ role.meta.namespace
            ∷ "/"
            ∷ policy_name server.digest role
            ∷ []))
          e)
  pruned arns (ok _) = do
    change (λ s. record s {
      generated_policy_arn = "";
      ack_resources = remove_ack_resource_by_kind s.ack_resources policy_kind;
    })
    mark k ConditionTypes.policy_ready status_true Reasons.managed_policies_only
        "managed policy ARNs are allowed"
    pure arns

  policy_applied : Desired IamPolicySpec → List String → Result AckStatus → M S (List String)
  unfolding upsert mark_ack fail_child ack_resource_status is_ack_synced arn_of
  policy_applied desired arns (err e) =
      fail_child ConditionTypes.policy_ready Reasons.child_apply_failed
        (wrap (cat ("apply IAM Policy " ∷ desired.namespace ∷ "/" ∷ desired.name ∷ [])) e)
  policy_applied desired arns (ok current) = do
    upsert (
        ack_resource_status iam_api_version policy_kind desired.namespace desired.name
          current.conditions)
    let arn = arn_of current.arn
    change (λ s. record s { generated_policy_arn = arn })
    mark_ack ConditionTypes.policy_ready "generated IAM Policy" (is_ack_synced current.conditions)
        (not (arn == ""))
    pure (if not (arn == "") then arns ++ (arn ∷ []) else arns)

  with_document : DeliveryType → List String → Result String → M S (List String)
  unfolding policy_applied fail_child create_or_update build_iam_policy
  with_document delivery arns (err e) =
      fail_child ConditionTypes.policy_ready Reasons.invalid_spec
        (wrap "canonicalize policy document" e)
  with_document delivery arns (ok document) = do
    role ← the_role
    let desired = build_iam_policy server.digest role delivery document
    answer ← call (λ r s. server.apply_iam_policy r desired s)
    policy_applied desired arns (create_or_update iam_policy desired.namespace desired.name answer)

  generated_policy : DeliveryType → List String → Option String → M S (List String)
  unfolding pruned with_document delete_child_if_owned policy_document_string
  generated_policy delivery arns none = do
    answer ← call (λ r s.
        delete_child_if_owned server r iam_policy
          (record { namespace = r.meta.namespace; name = policy_name server.digest r }) s)
    pruned arns answer
  generated_policy delivery arns (some document) =
      with_document delivery arns (policy_document_string server.json document)

  -- reconcileGeneratedPolicy: the ARNs of the policies of the role.
  unfoldable pub reconcile_generated_policy : DeliveryType → List String → M S (List String)
  unfolding generated_policy
  reconcile_generated_policy delivery arns = do
    role ← the_role
    generated_policy delivery arns role.spec.policy_document

  role_applied : Desired IamRoleSpec → Result AckStatus → M S (Unit {0})
  unfolding upsert mark_ack fail_child ack_resource_status is_ack_synced arn_of
  role_applied desired (err e) = fail_child ConditionTypes.role_ready Reasons.child_apply_failed e
  role_applied desired (ok current) = do
    upsert (
        ack_resource_status iam_api_version role_kind desired.namespace desired.name
          current.conditions)
    let arn = arn_of current.arn
    change (λ s. record s { role_arn = arn })
    mark_ack ConditionTypes.role_ready "IAM Role" (is_ack_synced current.conditions)
        (not (arn == ""))

  -- reconcileIAMRole
  unfoldable pub reconcile_iam_role : Inputs → List String → M S (Unit {0})
  unfolding role_applied create_or_update build_iam_role
  reconcile_iam_role inputs arns = do
    role ← the_role
    let desired =
        build_iam_role server.digest role inputs.config.spec.delivery_type
          inputs.operator_config.permissions_boundary_arn inputs.trust_policy arns
    answer ← call (λ r s. server.apply_iam_role r desired s)
    role_applied desired (create_or_update iam_role desired.namespace desired.name answer)

  association_applied : Desired AssociationSpec → Result AckStatus → M S (Unit {0})
  unfolding upsert mark_ack fail_child ack_resource_status is_ack_synced
  association_applied desired (err e) =
      fail_child ConditionTypes.pod_identity_assoc_ready Reasons.child_apply_failed (
        wrap (cat ("apply PodIdentityAssociation " ∷ desired.namespace ∷ "/" ∷ desired.name ∷ []))
          e)
  association_applied desired (ok current) = do
    upsert (
        ack_resource_status eks_api_version pod_identity_association_kind desired.namespace
          desired.name current.conditions)
    mark_ack ConditionTypes.pod_identity_assoc_ready "EKS PodIdentityAssociation"
        (is_ack_synced current.conditions) true

  associate : Resolution → String → M S (Unit {0})
  unfolding association_applied create_or_update build_pod_identity_association
  associate resolved role_arn = do
    role ← the_role
    let desired =
        build_pod_identity_association server.digest role role_arn resolved.eks_cluster_name
    answer ← call (λ r s. server.apply_association r desired s)
    association_applied desired
        (create_or_update pod_identity_association desired.namespace desired.name answer)

  -- reconcilePodIdentityAssociation
  unfoldable pub reconcile_pod_identity_association : Resolution → M S (Unit {0})
  unfolding associate
  reconcile_pod_identity_association resolved = do
    role ← the_role
    if role.status.role_arn == "" then pure tt else associate resolved role.status.role_arn
