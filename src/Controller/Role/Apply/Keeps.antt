-- ===== src/Controller/Role/Apply/Keeps.antt =====
-- Applying the children of a role writes to the hub only, and keeps what the status says of the
-- delivery.
use aws_workload_identity_op.Prelude.{
  ◌≡◌, ◌==◌, String, Bool, Option, none, some, List, Bool-cases, inl, inr,
}
use aws_workload_identity_op.Api.Conditions.{StatusConditions}
use aws_workload_identity_op.Api.Errors.{Result, ok, err}
use aws_workload_identity_op.Api.Types.{Role, DeliveryType}
use aws_workload_identity_op.Aws.Ack.{
  build_iam_policy, build_iam_role, build_pod_identity_association, Desired, IamPolicySpec,
  IamRoleSpec, AssociationSpec, AckStatus,
}
use aws_workload_identity_op.Controller.Role.Apply.{
  pruned, policy_applied, with_document, generated_policy, reconcile_generated_policy, role_applied,
  reconcile_iam_role, association_applied, reconcile_pod_identity_association,
}
use aws_workload_identity_op.Controller.Role.Delete.Guard.{delete_child_if_owned-keeps}
use aws_workload_identity_op.Controller.Role.Flow.{after}
use aws_workload_identity_op.Controller.Role.Flow.Rules.{Ensures}
use aws_workload_identity_op.Controller.Role.Prepare.{Inputs}
use aws_workload_identity_op.Controller.Role.Server.{RoleServer}
use aws_workload_identity_op.Controller.Role.Server.Keeps.{HubKeeps}
use aws_workload_identity_op.Inventory.{Resolution}

-- What the status says of the delivery: its type and its cluster.
abbrev pub DeliversTo : DeliveryType → String → Role → Type 0
DeliversTo delivery cluster r =
    (r.status.delivery_type ≡ delivery) × (r.status.resolved_cluster_name ≡ cluster)

module _ (k : StatusConditions) {S : Type 0} (server : RoleServer S) (Q : S → Type 0)
    (hub : HubKeeps server Q) (delivery : DeliveryType) (cluster : String) where
  abbrev Delivers : {A : Type 0} → A → Role → Type 0
  Delivers _ r = DeliversTo delivery cluster r

  pruned-Ensures :
      (arns : List String) (answer : Result Bool) (r : Role) (s : S)
      → Q s
      → DeliversTo delivery cluster r
      → Ensures Q Delivers (pruned k server arns answer r s)
  unfolding Ensures after pruned
  pruned-Ensures arns (ok _) r s q d = (q, d)
  pruned-Ensures arns (err e) r s q d = q

  policy_applied-Ensures :
      (desired : Desired IamPolicySpec) (arns : List String) (answer : Result AckStatus) (r : Role)
      (s : S)
      → Q s
      → DeliversTo delivery cluster r
      → Ensures Q Delivers (policy_applied k server desired arns answer r s)
  unfolding Ensures after policy_applied
  policy_applied-Ensures desired arns (ok _) r s q d = (q, d)
  policy_applied-Ensures desired arns (err e) r s q d = q

  with_document-Ensures :
      (wanted : DeliveryType) (arns : List String) (answer : Result String) (r : Role) (s : S)
      → Q s
      → DeliversTo delivery cluster r
      → Ensures Q Delivers (with_document k server wanted arns answer r s)
  unfolding Ensures after with_document
  with_document-Ensures wanted arns (err e) r s q d = q
  with_document-Ensures wanted arns (ok document) r s q d =
      policy_applied-Ensures (build_iam_policy server.digest r wanted document) arns _ r _
        (hub.iam_policy r _ s q) d

  generated_policy-Ensures :
      (wanted : DeliveryType) (arns : List String) (document : Option String) (r : Role) (s : S)
      → Q s
      → DeliversTo delivery cluster r
      → Ensures Q Delivers (generated_policy k server wanted arns document r s)
  unfolding Ensures after generated_policy
  generated_policy-Ensures wanted arns none r s q d =
      pruned-Ensures arns _ r _
        (delete_child_if_owned-keeps server r Q (λ child t _ p. hub.deleted child t p) _ _ s q) d
  generated_policy-Ensures wanted arns (some document) r s q d =
      with_document-Ensures wanted arns _ r s q d

  pub reconcile_generated_policy-Ensures :
      (wanted : DeliveryType) (arns : List String) (r : Role) (s : S)
      → Q s
      → DeliversTo delivery cluster r
      → Ensures Q Delivers (reconcile_generated_policy k server wanted arns r s)
  unfolding after reconcile_generated_policy
  reconcile_generated_policy-Ensures wanted arns r s q d =
      generated_policy-Ensures wanted arns r.spec.policy_document r s q d

  role_applied-Ensures :
      (desired : Desired IamRoleSpec) (answer : Result AckStatus) (r : Role) (s : S)
      → Q s
      → DeliversTo delivery cluster r
      → Ensures Q Delivers (role_applied k server desired answer r s)
  unfolding Ensures after role_applied
  role_applied-Ensures desired (ok _) r s q d = (q, d)
  role_applied-Ensures desired (err e) r s q d = q

  pub reconcile_iam_role-Ensures :
      (inputs : Inputs) (arns : List String) (r : Role) (s : S)
      → Q s
      → DeliversTo delivery cluster r
      → Ensures Q Delivers (reconcile_iam_role k server inputs arns r s)
  unfolding after reconcile_iam_role
  reconcile_iam_role-Ensures inputs arns r s q d =
      role_applied-Ensures
        (build_iam_role server.digest r inputs.config.spec.delivery_type
          inputs.operator_config.permissions_boundary_arn inputs.trust_policy arns)
        _ r _ (hub.iam_role r _ s q) d

  association_applied-Ensures :
      (desired : Desired AssociationSpec) (answer : Result AckStatus) (r : Role) (s : S)
      → Q s
      → Ensures Q (λ _ _. Unit) (association_applied k server desired answer r s)
  unfolding Ensures after association_applied
  association_applied-Ensures desired (ok _) r s q = (q, tt)
  association_applied-Ensures desired (err e) r s q = q

  pub reconcile_pod_identity_association-Ensures :
      (resolved : Resolution) (r : Role) (s : S)
      → Q s
      → Ensures Q (λ _ _. Unit) (reconcile_pod_identity_association k server resolved r s)
  unfolding Ensures after reconcile_pod_identity_association
  reconcile_pod_identity_association-Ensures resolved r s q =
      elim (Bool-cases (r.status.role_arn == "")) [
        | inl missing ↦ simp missing (q, tt)
        | inr named ↦ simp named (
            association_applied-Ensures
              (build_pod_identity_association server.digest r r.status.role_arn
                resolved.eks_cluster_name)
              _ r _ (hub.association r _ s q))
      ]
