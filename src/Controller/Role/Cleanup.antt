-- ===== src/Controller/Role/Cleanup.antt =====
-- The cleanup of the remote service account's annotations when a role is deleted:
-- cleanupRemoteServiceAccountAnnotations of internal/controller/role_controller.go.
pub mod Keeps
use aws_workload_identity_op.Prelude.{
  String, ◌==◌, true, false, not, if◌then◌else◌, Option, none, some, [], ◌∷◌, cat, quote,
}
use aws_workload_identity_op.Api.Constants.{default_name}
use aws_workload_identity_op.Api.Delivery.{delivery_text, uses_annotation_based_irsa}
use aws_workload_identity_op.Api.Errors.{failure, wrap, Result, ok, err, wrap_result}
use aws_workload_identity_op.Api.Types.{
  Role, Config, NamespacedName, name_text, DeliveryType, self_hosted_irsa, eks_pod_identity,
  eks_irsa, other_delivery,
}
use aws_workload_identity_op.Controller.Common.Names.{namespaced_name_from_string}
use aws_workload_identity_op.Aws.Names.{role_name}
use aws_workload_identity_op.Inventory.{Resolution, resolve_inventory}
use aws_workload_identity_op.Controller.Annotations.{
  RemoteClient, OperationResult, remove_annotations,
}
use aws_workload_identity_op.Controller.Role.Server.{iam_role, AckChild, RoleServer}

unfoldable pub recorded_resolution : NamespacedName → Resolution
recorded_resolution cluster = record {
  cluster_name = cluster;
  ready = true;
  reason = "";
  message = "";
  eks_cluster_name = "";
  eks_cluster_arn = "";
  aws_account_id = "";
  aws_region = "";
  aws_organization_id = "";
  eks_auto_mode = false;
}

module _ {S : Type 0} (server : RoleServer S) where
  arn_of_child : String → Result AckChild → Result String
  arn_of_child namespace (ok child) = ok child.arn
  arn_of_child namespace (err e) =
      if e.not_found
      then ok ""
      else err (
          wrap
            (cat (
              "get IAM Role for remote ServiceAccount annotation cleanup in namespace "
              ∷ quote namespace
              ∷ []))
            e)

  -- roleARNForDeletion
  unfoldable pub role_arn_for_deletion : Role → S → Result String
  unfolding arn_of_child role_name
  role_arn_for_deletion role s =
      if not (role.status.role_arn == "")
      then ok role.status.role_arn
      else arn_of_child role.meta.namespace (
          server.get_child s iam_role
            (record { namespace = role.meta.namespace; name = role_name server.digest role }))

  -- resolveRemoteCluster, with its client.
  unfoldable pub remote_client_of : S → Resolution → Result (RemoteClient S)
  remote_client_of s resolved =
      wrap_result (cat ("get remote cluster " ∷ name_text resolved.cluster_name ∷ []))
        (server.get_cluster s resolved.cluster_name)

  removed : Role → Result OperationResult × S → Result (Unit {0}) × S
  removed role (ok _, s) = (ok tt, s)
  removed role (err e, s) = (
    err (
        wrap
          (cat (
            "remove remote ServiceAccount annotations " ∷ role.spec.service_account.namespace ∷ "/"
            ∷ role.spec.service_account.name ∷ []))
          e),
    s,
  )

  remove_with_client : Role → String → S → Result (RemoteClient S) → Result (Unit {0}) × S
  unfolding remove_annotations removed
  remove_with_client role arn s (err e) =
      (err (wrap "resolve remote cluster client for remote ServiceAccount annotation cleanup" e), s)
  remove_with_client role arn s (ok remote) =
      removed role (remove_annotations remote role.spec.service_account arn s)

  -- Nothing is cleaned up unless an ARN has been observed; then
  -- cleanupRemoteServiceAccountAnnotationsWithResolution.
  clean_up_arn : Role → Resolution → S → String → Result (Unit {0}) × S
  unfolding remove_with_client remote_client_of
  clean_up_arn role resolved s arn =
      if arn == "" then (ok tt, s) else remove_with_client role arn s (remote_client_of s resolved)

  clean_up_recorded : Role → Resolution → S → Result String → Result (Unit {0}) × S
  unfolding clean_up_arn
  clean_up_recorded role resolved s (err e) = (err e, s)
  clean_up_recorded role resolved s (ok arn) = clean_up_arn role resolved s arn

  clean_up_recorded_cluster : Role → S → Option NamespacedName → Result (Unit {0}) × S
  unfolding clean_up_recorded role_arn_for_deletion recorded_resolution
  clean_up_recorded_cluster role s none = (
    err (
        failure (
          cat (
            "AWSServiceAccountRole.status.resolvedClusterName is unusable for remote ServiceAccount annotation cleanup: expected namespace/name, got "
            ∷ quote role.status.resolved_cluster_name
            ∷ []))),
    s,
  )
  clean_up_recorded_cluster role s (some cluster) =
      clean_up_recorded role (recorded_resolution cluster) s (role_arn_for_deletion role s)

  -- cleanupRemoteServiceAccountAnnotationsFromRecordedStatus, by the recorded delivery type.
  clean_up_from_status : DeliveryType → Role → S → Result (Unit {0}) × S
  unfolding clean_up_recorded_cluster namespaced_name_from_string
  clean_up_from_status eks_pod_identity role s = (ok tt, s)
  clean_up_from_status self_hosted_irsa role s =
      clean_up_recorded_cluster role s
        (namespaced_name_from_string role.status.resolved_cluster_name)
  clean_up_from_status eks_irsa role s =
      clean_up_recorded_cluster role s
        (namespaced_name_from_string role.status.resolved_cluster_name)
  clean_up_from_status (other_delivery t) role s =
      if t == ""
      then (
        err (
            failure
              "AWSWorkloadIdentityConfig/default is gone and AWSServiceAccountRole.status.deliveryType is empty; cannot safely clean remote ServiceAccount annotations"),
        s,
      )
      else (
        err (
            failure (
              cat (
                "AWSServiceAccountRole.status.deliveryType "
                ∷ quote t
                ∷ " is unsupported for remote ServiceAccount annotation cleanup"
                ∷ []))),
        s,
      )

  clean_up_resolved : Role → String → S → Result Resolution → Result (Unit {0}) × S
  unfolding clean_up_arn
  clean_up_resolved role arn s (err e) = (
    err (
        wrap
          (cat (
            "resolve inventory for remote ServiceAccount annotation cleanup in namespace "
            ∷ quote role.meta.namespace
            ∷ []))
          e),
    s,
  )
  clean_up_resolved role arn s (ok resolved) =
      if not resolved.ready
      then (
        err (
            failure (
              cat (
                "inventory not ready for remote ServiceAccount annotation cleanup in namespace "
                ∷ quote role.meta.namespace
                ∷ ": "
                ∷ resolved.reason
                ∷ ": "
                ∷ resolved.message
                ∷ []))),
        s,
      )
      else clean_up_arn role resolved s arn

  clean_up_observed : Role → S → Result String → Result (Unit {0}) × S
  unfolding clean_up_resolved resolve_inventory
  clean_up_observed role s (err e) = (err e, s)
  clean_up_observed role s (ok arn) =
      if arn == ""
      then (ok tt, s)
      else clean_up_resolved role arn s
          (resolve_inventory (some (server.list_profiles s)) role.meta.namespace)

  clean_up_by_config : Role → S → Result Config → Result (Unit {0}) × S
  unfolding clean_up_observed clean_up_from_status role_arn_for_deletion uses_annotation_based_irsa
  clean_up_by_config role s (err e) =
      if e.not_found then clean_up_from_status role.status.delivery_type role s else (
        err (
            wrap
              (cat (
                "get AWSWorkloadIdentityConfig/default for remote ServiceAccount annotation cleanup in namespace "
                ∷ quote role.meta.namespace
                ∷ []))
              e),
        s,
      )
  clean_up_by_config role s (ok config) =
      if not (uses_annotation_based_irsa config.spec.delivery_type)
      then (ok tt, s)
      else clean_up_observed role s (role_arn_for_deletion role s)

  -- cleanupRemoteServiceAccountAnnotations
  unfoldable pub clean_up_annotations : Role → S → Result (Unit {0}) × S
  unfolding clean_up_by_config clean_up_from_status
  clean_up_annotations role s =
      if not (delivery_text role.status.delivery_type == "")
      then clean_up_from_status role.status.delivery_type role s
      else clean_up_by_config role s
          (server.get_config s (record { namespace = role.meta.namespace; name = default_name }))
