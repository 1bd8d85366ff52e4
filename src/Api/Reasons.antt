-- ===== src/Api/Reasons.antt =====
-- Condition reasons of api/v1alpha1/condition_types.go.
use Prim.Native.String.{String}
use mathlib.Core.List.{List, [], ◌∷◌}

abbrev pub ready : String
ready = "Ready"

abbrev pub annotation_repaired : String
annotation_repaired = "AnnotationRepaired"

abbrev pub reconciled : String
reconciled = "Reconciled"

abbrev pub resolved : String
resolved = "Resolved"

abbrev pub rendered : String
rendered = "Rendered"

abbrev pub not_required : String
not_required = "NotRequired"

abbrev pub hub_resources_ready : String
hub_resources_ready = "HubResourcesReady"

abbrev pub eks_auto_mode : String
eks_auto_mode = "EKSAutoMode"

abbrev pub managed_policies_only : String
managed_policies_only = "ManagedPoliciesOnly"

abbrev pub invalid_spec : String
invalid_spec = "InvalidSpec"

abbrev pub operator_config_unavailable : String
operator_config_unavailable = "OperatorConfigUnavailable"

abbrev pub config_not_ready : String
config_not_ready = "ConfigNotReady"

abbrev pub config_unavailable : String
config_unavailable = "ConfigUnavailable"

abbrev pub resolver_error : String
resolver_error = "ResolverError"

abbrev pub cluster_profile_not_found : String
cluster_profile_not_found = "ClusterProfileNotFound"

abbrev pub trust_policy_input_missing : String
trust_policy_input_missing = "TrustPolicyInputMissing"

abbrev pub roles_remain : String
roles_remain = "RolesRemain"

abbrev pub ack_resource_synced : String
ack_resource_synced = "ACKResourceSynced"

abbrev pub ack_resource_not_synced : String
ack_resource_not_synced = "ACKResourceNotSynced"

abbrev pub ack_resource_identifier_pending : String
ack_resource_identifier_pending = "ACKResourceIdentifierPending"

abbrev pub waiting_for_ack : String
waiting_for_ack = "WaitingForACK"

abbrev pub remote_check_pending : String
remote_check_pending = "RemoteCheckPending"

abbrev pub remote_delivery_pending : String
remote_delivery_pending = "RemoteDeliveryPending"

abbrev pub deletion_blocked : String
deletion_blocked = "DeletionBlocked"

abbrev pub inventory_unavailable : String
inventory_unavailable = "InventoryUnavailable"

abbrev pub inventory_ambiguous : String
inventory_ambiguous = "InventoryAmbiguous"

abbrev pub ack_resource_waiting : String
ack_resource_waiting = "ACKResourceWaiting"

abbrev pub issuer_reconcile_failed : String
issuer_reconcile_failed = "IssuerReconcileFailed"

abbrev pub oidc_objects_published : String
oidc_objects_published = "OIDCObjectsPublished"

abbrev pub oidc_objects_publish_failed : String
oidc_objects_publish_failed = "OIDCObjectsPublishFailed"

abbrev pub remote_cluster_unavailable : String
remote_cluster_unavailable = "RemoteClusterUnavailable"

abbrev pub remote_runtime_unmanaged : String
remote_runtime_unmanaged = "RemoteRuntimeUnmanaged"

abbrev pub remote_namespace_bootstrap_pending : String
remote_namespace_bootstrap_pending = "RemoteNamespaceBootstrapPending"

abbrev pub webhook_runtime_apply_failed : String
webhook_runtime_apply_failed = "WebhookRuntimeApplyFailed"

abbrev pub webhook_runtime_synced : String
webhook_runtime_synced = "WebhookRuntimeSynced"

abbrev pub webhook_runtime_unavailable : String
webhook_runtime_unavailable = "WebhookRuntimeUnavailable"

abbrev pub waiting_for_webhook_deployment : String
waiting_for_webhook_deployment = "WaitingForWebhookDeployment"

abbrev pub webhook_deployment_observed_generation_lag : String
webhook_deployment_observed_generation_lag = "WebhookDeploymentObservedGenerationLag"

abbrev pub webhook_deployment_rollout_in_progress : String
webhook_deployment_rollout_in_progress = "WebhookDeploymentRolloutInProgress"

abbrev pub webhook_deployment_replicas_unavailable : String
webhook_deployment_replicas_unavailable = "WebhookDeploymentReplicasUnavailable"

abbrev pub placement_unavailable : String
placement_unavailable = "PlacementUnavailable"

abbrev pub child_apply_failed : String
child_apply_failed = "ChildApplyFailed"

abbrev pub child_conflict : String
child_conflict = "ChildConflict"

abbrev pub child_ownership_mismatch : String
child_ownership_mismatch = "ChildOwnershipMismatch"

abbrev pub children_applied : String
children_applied = "ChildrenApplied"

abbrev pub children_pending : String
children_pending = "ChildrenPending"

abbrev pub children_ready : String
children_ready = "ChildrenReady"

abbrev pub cluster_namespace_missing : String
cluster_namespace_missing = "ClusterNamespaceMissing"

abbrev pub immutable_child_drift : String
immutable_child_drift = "ImmutableChildDrift"

abbrev pub deletion_unblocked : String
deletion_unblocked = "DeletionUnblocked"

abbrev pub progressing : String
progressing = "Progressing"

abbrev pub complete : String
complete = "Complete"

abbrev pub rollout_timed_out : String
rollout_timed_out = "RolloutTimedOut"

abbrev pub rollout_pending : String
rollout_pending = "RolloutPending"

-- AllReasons.
abbrev pub all_reasons : List String
all_reasons =
    ready ∷ annotation_repaired ∷ reconciled ∷ resolved ∷ rendered ∷ not_required
    ∷ hub_resources_ready ∷ eks_auto_mode ∷ managed_policies_only ∷ invalid_spec
    ∷ operator_config_unavailable ∷ config_not_ready ∷ config_unavailable ∷ resolver_error
    ∷ cluster_profile_not_found ∷ trust_policy_input_missing ∷ roles_remain ∷ ack_resource_synced
    ∷ ack_resource_not_synced ∷ ack_resource_identifier_pending ∷ waiting_for_ack
    ∷ remote_check_pending ∷ remote_delivery_pending ∷ deletion_blocked ∷ inventory_unavailable
    ∷ inventory_ambiguous ∷ ack_resource_waiting ∷ issuer_reconcile_failed ∷ oidc_objects_published
    ∷ oidc_objects_publish_failed ∷ remote_cluster_unavailable ∷ remote_runtime_unmanaged
    ∷ remote_namespace_bootstrap_pending ∷ webhook_runtime_apply_failed ∷ webhook_runtime_synced
    ∷ webhook_runtime_unavailable ∷ waiting_for_webhook_deployment
    ∷ webhook_deployment_observed_generation_lag ∷ webhook_deployment_rollout_in_progress
    ∷ webhook_deployment_replicas_unavailable ∷ placement_unavailable ∷ child_apply_failed
    ∷ child_conflict ∷ child_ownership_mismatch ∷ children_applied ∷ children_pending
    ∷ children_ready ∷ cluster_namespace_missing ∷ immutable_child_drift ∷ deletion_unblocked
    ∷ progressing ∷ complete ∷ rollout_timed_out ∷ rollout_pending ∷ []
