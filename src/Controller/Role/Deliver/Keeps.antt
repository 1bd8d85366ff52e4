-- ===== src/Controller/Role/Deliver/Keeps.antt =====
-- What setDeliveryConditions writes to a remote cluster.
use mathlib.Core.Path.{subst}
use aws_workload_identity_op.Prelude.{◌≡◌, ◌==◌, true, false, refl, arith}
use aws_workload_identity_op.Api.Conditions.{StatusConditions}
use aws_workload_identity_op.Api.Errors.{Result, ok, err}
use aws_workload_identity_op.Api.Types.{
  Role, RoleStatus, DeliveryType, self_hosted_irsa, eks_pod_identity, eks_irsa, other_delivery,
  NamespacedName, name_text,
}
use aws_workload_identity_op.Controller.Annotations.{RemoteClient, OperationResult}
use aws_workload_identity_op.Controller.Annotations.Keeps.{RemoteKeeps, patch_annotations-keeps}
use aws_workload_identity_op.Controller.Role.Apply.Keeps.{
  reconcile_pod_identity_association-Ensures,
}
use aws_workload_identity_op.Controller.Role.Cleanup.{remote_client_of}
use aws_workload_identity_op.Controller.Role.Deliver.{
  patch_with_client, deliver_annotations, delivered, deliver_by_annotations, mark_agent,
  deliver_by_pod_identity, wait_for_role, patch_remote, set_delivery_conditions,
}
use aws_workload_identity_op.Controller.Role.Flow.{after}
use aws_workload_identity_op.Api.Delivery.{uses_annotation_based_irsa}
use aws_workload_identity_op.Controller.Role.Status.Supported.{IsSupported}
use aws_workload_identity_op.Controller.Role.Flow.Rules.{Ensures, after-Ensures, if-Ensures}
use aws_workload_identity_op.Controller.Role.Server.{RoleServer}
use aws_workload_identity_op.Controller.Role.Server.Keeps.{HubKeeps}
use aws_workload_identity_op.Inventory.{Resolution}

-- The status records where and as what the annotations are delivered.
pub record IsRecorded (before : RoleStatus) (cluster : NamespacedName) : Type 0 where
  pub named : (before.role_arn == "") ≡ false
  pub cluster_recorded : before.resolved_cluster_name ≡ name_text cluster

module _ (k : StatusConditions) {S : Type 0} (server : RoleServer S) (before : RoleStatus)
    (Q : S → Type 0) (hub : HubKeeps server Q)
    (delivers : (cluster : NamespacedName) (s : S) (remote : RemoteClient S)
      → IsRecorded before cluster
      → server.get_cluster s cluster ≡ ok remote
      → RemoteKeeps Q remote before.role_arn) where
  mark_agent-Ensures :
      (resolved : Resolution) (r : Role) (s : S)
      → Q s
      → Ensures Q (λ _ _. Unit) (mark_agent k server before resolved r s)
  unfolding Ensures after mark_agent
  mark_agent-Ensures resolved r s q = (q, tt)

  deliver_by_pod_identity-Ensures :
      (resolved : Resolution) (r : Role) (s : S)
      → Q s
      → Ensures Q (λ _ _. Unit) (deliver_by_pod_identity k server before resolved r s)
  unfolding deliver_by_pod_identity
  deliver_by_pod_identity-Ensures resolved r s q =
      after-Ensures Q (λ _ _. Unit) (λ _ _. Unit) _ _
        (reconcile_pod_identity_association-Ensures k server Q hub eks_pod_identity "" resolved r s
          q)
        (λ _ r1 s1 q1 _. mark_agent-Ensures resolved r1 s1 q1)

  patch_with_client-keeps :
      (client : Result (RemoteClient S)) (r : Role) (s : S)
      → ((remote : RemoteClient S) → client ≡ ok remote → RemoteKeeps Q remote r.status.role_arn)
      → Q s
      → Q (patch_with_client k server before r s client).1
  unfolding patch_with_client
  patch_with_client-keeps (err e) r s keeps q = q
  patch_with_client-keeps (ok remote) r s keeps q =
      patch_annotations-keeps Q remote r.status.role_arn (keeps remote refl) r.spec.service_account
        s q

  remote_client_of-ok :
      (s : S) (resolved : Resolution) (remote : RemoteClient S)
      → remote_client_of server s resolved ≡ ok remote
      → server.get_cluster s resolved.cluster_name ≡ ok remote
  unfolding remote_client_of
  remote_client_of-ok s resolved remote h = ground arith

  deliver_annotations-keeps :
      (resolved : Resolution) (r : Role) (s : S)
      → IsRecorded before resolved.cluster_name
      → before.role_arn ≡ r.status.role_arn
      → Q s
      → Q (deliver_annotations k server before resolved r s).1
  unfolding deliver_annotations
  deliver_annotations-keeps resolved r s recorded same q =
      patch_with_client-keeps _ r s
        (λ remote h. subst (RemoteKeeps Q remote) same (
          delivers resolved.cluster_name s remote recorded
            (remote_client_of-ok s resolved remote h)))
        q

  delivered-Ensures :
      (answer : Result OperationResult) (r : Role) (s : S)
      → Q s
      → Ensures Q (λ _ _. Unit) (delivered k server before answer r s)
  unfolding Ensures after delivered
  delivered-Ensures (ok op) r s q = (q, tt)
  delivered-Ensures (err e) r s q = (q, tt)

  wait_for_role-Ensures :
      (r : Role) (s : S) → Q s → Ensures Q (λ _ _. Unit) (wait_for_role k server before r s)
  unfolding Ensures after wait_for_role
  wait_for_role-Ensures r s q = (q, tt)

  patch_remote-Ensures :
      (resolved : Resolution) (r : Role) (s : S)
      → IsRecorded before resolved.cluster_name
      → before.role_arn ≡ r.status.role_arn
      → Q s
      → Ensures Q (λ _ _. Unit) (patch_remote k server before resolved r s)
  unfolding patch_remote
  patch_remote-Ensures resolved r s recorded same q =
      delivered-Ensures _ r _ (deliver_annotations-keeps resolved r s recorded same q)

  -- Annotations are delivered only where they are recorded.
  deliver_by_annotations-Ensures :
      (resolved : Resolution) (r : Role) (s : S)
      → ((r.status.role_arn == "") ≡ false
          → IsRecorded before resolved.cluster_name × (before.role_arn ≡ r.status.role_arn))
      → Q s
      → Ensures Q (λ _ _. Unit) (deliver_by_annotations k server before resolved r s)
  unfolding deliver_by_annotations
  deliver_by_annotations-Ensures resolved r s recorded q =
      if-Ensures Q (λ _ _. Unit) (r.status.role_arn == "") (wait_for_role k server before r s)
        (patch_remote k server before resolved r s) (λ _. wait_for_role-Ensures r s q)
        (λ named.
          let (where_to, same) = recorded named in
          patch_remote-Ensures resolved r s where_to same q)

  pub set_delivery_conditions-Ensures :
      (delivery : DeliveryType) (resolved : Resolution) (r : Role) (s : S)
      → IsSupported delivery
      → (uses_annotation_based_irsa delivery ≡ true
          → (r.status.role_arn == "") ≡ false
          → IsRecorded before resolved.cluster_name × (before.role_arn ≡ r.status.role_arn))
      → Q s
      → Ensures Q (λ _ _. Unit) (set_delivery_conditions k server before delivery resolved r s)
  unfolding set_delivery_conditions uses_annotation_based_irsa
  set_delivery_conditions-Ensures self_hosted_irsa resolved r s h recorded q =
      deliver_by_annotations-Ensures resolved r s (recorded refl) q
  set_delivery_conditions-Ensures eks_irsa resolved r s h recorded q =
      deliver_by_annotations-Ensures resolved r s (recorded refl) q
  set_delivery_conditions-Ensures eks_pod_identity resolved r s h recorded q =
      deliver_by_pod_identity-Ensures resolved r s q
  set_delivery_conditions-Ensures (other_delivery _) resolved r s h recorded q = absurd h
