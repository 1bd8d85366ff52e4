-- ===== src/Controller/Role/Deliver.antt =====
-- The delivery of a role's ARN: setDeliveryConditions and reconcileAnnotationBasedIRSADelivery of
-- internal/controller/role_controller.go.
pub mod Keeps
use aws_workload_identity_op.Prelude.{String, ◌==◌, ◌&&◌, Bool, true, false, if◌then◌else◌}
use aws_workload_identity_op.Api.ConditionTypes
use aws_workload_identity_op.Api.Reasons
use aws_workload_identity_op.Api.Conditions.{StatusConditions, status_true, status_false}
use aws_workload_identity_op.Api.Errors.{Result, ok, err}
use aws_workload_identity_op.Api.Types.{
  Role, RoleStatus, DeliveryType, eks_pod_identity, self_hosted_irsa, eks_irsa, other_delivery,
}
use aws_workload_identity_op.Controller.Annotations.{
  RemoteClient, OperationResult, result_none, result_updated, patch_annotations,
}
use aws_workload_identity_op.Controller.Common.{RequeueAfter, transient_requeue}
use aws_workload_identity_op.Controller.Role.Apply.{reconcile_pod_identity_association}
use aws_workload_identity_op.Controller.Role.Cleanup.{remote_client_of}
use aws_workload_identity_op.Controller.Role.Flow.{
  ◌>>=◌, M, Flow, Reached, continue, stop, fail, pure, halt, abort, the_role, change, call,
  change_conditions, mark, mark_not_ready, ◌>>◌,
}
use aws_workload_identity_op.Controller.Role.Server.{RoleServer}
use aws_workload_identity_op.Controller.Role.Status.{set_pod_identity_agent_condition}
use aws_workload_identity_op.Inventory.{Resolution}

is_updated : OperationResult → Bool
is_updated result_updated = true
is_updated result_none = false

module _ (k : StatusConditions) {S : Type 0} (server : RoleServer S) (before : RoleStatus) where
  -- serviceAccountAnnotationSyncReason
  unfoldable pub annotation_sync_reason : OperationResult → String
  unfolding is_updated
  annotation_sync_reason op =
      if k.is_true before.conditions ConditionTypes.service_account_annotation_ready
        && is_updated op
      then Reasons.annotation_repaired
      else Reasons.ready

  patch_with_client : Role → S → Result (RemoteClient S) → Result OperationResult × S
  unfolding patch_annotations
  patch_with_client role s (err e) = (err e, s)
  patch_with_client role s (ok remote) =
      patch_annotations remote role.spec.service_account role.status.role_arn s

  -- reconcileAnnotationBasedIRSADelivery
  unfoldable pub deliver_annotations : Resolution → Role → S → Result OperationResult × S
  unfolding patch_with_client remote_client_of
  deliver_annotations resolved role s =
      patch_with_client role s (remote_client_of server s resolved)

  -- The result is the requeue that setDeliveryConditions returns.
  delivered : Result OperationResult → M S RequeueAfter
  unfolding annotation_sync_reason
  delivered (err e) = do
    mark k ConditionTypes.service_account_annotation_ready status_false
        Reasons.remote_delivery_pending e.text
    pure transient_requeue
  delivered (ok op) = do
    mark k ConditionTypes.service_account_annotation_ready status_true (annotation_sync_reason op)
        "remote ServiceAccount annotations are synced"
    pure 0

  wait_for_role : M S RequeueAfter
  wait_for_role = do
    mark k ConditionTypes.service_account_annotation_ready status_false Reasons.waiting_for_ack
        "waiting for IAM Role ARN before patching the remote ServiceAccount"
    pure 0

  patch_remote : Resolution → M S RequeueAfter
  unfolding deliver_annotations delivered
  patch_remote resolved r s =
      let (answer, s') = deliver_annotations resolved r s in delivered answer r s'

  deliver_by_annotations : Resolution → M S RequeueAfter
  unfolding wait_for_role patch_remote
  deliver_by_annotations resolved r s =
      if r.status.role_arn == "" then wait_for_role r s else patch_remote resolved r s

  mark_agent : Resolution → M S RequeueAfter
  unfolding set_pod_identity_agent_condition
  mark_agent resolved = do
    change_conditions λ cs g. set_pod_identity_agent_condition k cs g resolved
    pure 0

  deliver_by_pod_identity : Resolution → M S RequeueAfter
  unfolding reconcile_pod_identity_association mark_agent
  deliver_by_pod_identity resolved = do
    reconcile_pod_identity_association k server resolved
    mark_agent resolved

  -- setDeliveryConditions
  unfoldable pub set_delivery_conditions : DeliveryType → Resolution → M S RequeueAfter
  unfolding deliver_by_annotations deliver_by_pod_identity
  set_delivery_conditions eks_pod_identity resolved = deliver_by_pod_identity resolved
  set_delivery_conditions self_hosted_irsa resolved = deliver_by_annotations resolved
  set_delivery_conditions eks_irsa resolved = deliver_by_annotations resolved
  set_delivery_conditions (other_delivery _) resolved = deliver_by_annotations resolved
