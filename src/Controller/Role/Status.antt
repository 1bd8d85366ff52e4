-- ===== src/Controller/Role/Status.antt =====
-- The status of an AWSServiceAccountRole: its ACK resources, its readiness and its trust policy.
pub mod Readiness
pub mod Resources
pub mod Supported
use aws_workload_identity_op.Prelude.{
  ℕ, String, ◌==◌, Bool, true, false, not, ◌&&◌, ◌||◌, if◌then◌else◌, Option, none, some, List, [],
  ◌∷◌, select, cat, quote, nat_eq,
}
use aws_workload_identity_op.Api.ConditionTypes
use aws_workload_identity_op.Api.Reasons
use aws_workload_identity_op.Api.Conditions.{
  Condition, ConditionStatus, status_true, status_false, status_unknown, StatusConditions,
  is_status_true, is_status_unknown,
}
use aws_workload_identity_op.Api.Delivery.{delivery_text, uses_annotation_based_irsa}
use aws_workload_identity_op.Api.Errors.{Failure, failure, wrap, Result, ok, err, wrap_result}
use aws_workload_identity_op.Api.Types.{
  Role, RoleStatus, Config, AckResourceStatus, DeliveryType, self_hosted_irsa, eks_pod_identity,
  eks_irsa, other_delivery, ServiceAccountSubject, name_text,
}
use aws_workload_identity_op.Controller.Common.{
  set_condition, self_hosted_steady_state_requeue, dependency_steady_state_requeue, RequeueAfter,
}
use aws_workload_identity_op.Inventory.{Resolution, require_eks}

abbrev pub same_delivery : DeliveryType → DeliveryType → Bool
same_delivery a b = delivery_text a == delivery_text b

-- The key of the list: apiVersion, kind, namespace and name.
abbrev pub same_resource : AckResourceStatus → AckResourceStatus → Bool
same_resource a b =
    (a.api_version == b.api_version)
    && (a.kind == b.kind)
    && (a.namespace == b.namespace)
    && (a.name == b.name)

-- upsertRoleACKResource
unfoldable pub upsert_ack_resource :
    List AckResourceStatus → AckResourceStatus → List AckResourceStatus
upsert_ack_resource [] entry = entry ∷ []
upsert_ack_resource (existing ∷ rest) entry =
    let later = existing ∷ upsert_ack_resource rest entry in
    if same_resource existing entry then entry ∷ rest else later

-- removeRoleACKResourceByKind
unfoldable pub remove_ack_resource_by_kind :
    List AckResourceStatus → String → List AckResourceStatus
remove_ack_resource_by_kind resources kind = select (λ s. not (s.kind == kind)) resources

abbrev pub pod_identity_association_kind : String
pod_identity_association_kind = "PodIdentityAssociation"

-- pruneStaleRoleACKResources
unfoldable pub prune_stale_ack_resources :
    List AckResourceStatus → DeliveryType → List AckResourceStatus
unfolding remove_ack_resource_by_kind
prune_stale_ack_resources resources delivery =
    if not (same_delivery delivery eks_pod_identity)
    then remove_ack_resource_by_kind resources pod_identity_association_kind
    else resources

-- setRoleResolvedDeliveryStatus of a resolution that is not nil.
unfoldable pub set_resolved_delivery_status : RoleStatus → DeliveryType → Resolution → RoleStatus
unfolding uses_annotation_based_irsa
set_resolved_delivery_status status delivery resolved = record status {
  delivery_type = delivery;
  resolved_cluster_name =
      if uses_annotation_based_irsa delivery && resolved.ready
      then name_text resolved.cluster_name
      else "";
}

-- shouldPersistAnnotationDeliveryContextBeforeRemotePatch
unfoldable pub should_persist_before_remote_patch : RoleStatus → RoleStatus → DeliveryType → Bool
unfolding uses_annotation_based_irsa
should_persist_before_remote_patch status before delivery =
    uses_annotation_based_irsa delivery
    && (not (status.role_arn == "")
        && (not (before.role_arn == status.role_arn)
            || (not (same_delivery before.delivery_type status.delivery_type)
                || not (before.resolved_cluster_name == status.resolved_cluster_name))))

module _ (k : StatusConditions) where
  -- hubRoleResourcesReady
  unfoldable pub hub_role_resources_ready : List Condition → Bool
  hub_role_resources_ready cs =
      k.is_true cs ConditionTypes.role_ready && k.is_true cs ConditionTypes.policy_ready

  -- What computeRoleReadyState returns: the status, the reason and the message.
  abbrev pub ReadyState : Type 0
  ReadyState = ConditionStatus × (String × String)

  all_ready : ReadyState
  all_ready = (
    status_true,
    (
      Reasons.hub_resources_ready,
      "role delivery resources are ready; remote runtime status is reported separately",
    ),
  )

  annotation_state : List Condition → Config → ReadyState
  unfolding all_ready
  annotation_state cs config =
      if not (k.is_true cs ConditionTypes.service_account_annotation_ready)
      then (
        status_false,
        (Reasons.remote_delivery_pending, "waiting for remote ServiceAccount annotations"),
      )
      else if not (k.is_true config.status.conditions ConditionTypes.ready)
      then (
        status_false,
        (
          Reasons.config_not_ready,
          cat (
              "waiting for AWSWorkloadIdentityConfig/" ∷ config.meta.namespace ∷ "/"
              ∷ config.meta.name ∷ " to become Ready" ∷ []),
        ),
      )
      else all_ready

  agent_state : Option Condition → ReadyState
  unfolding all_ready
  agent_state none = (
    status_false,
    (Reasons.remote_check_pending, "waiting for remote EKS Pod Identity Agent readiness check"),
  )
  agent_state (some c) =
      if is_status_unknown c.report.status
      then (
        status_false,
        (Reasons.remote_check_pending, "waiting for remote EKS Pod Identity Agent readiness check"),
      )
      else if not (is_status_true c.report.status)
      then (
        status_false,
        (Reasons.remote_delivery_pending, "remote EKS Pod Identity Agent is not ready"),
      )
      else all_ready

  pod_identity_state : List Condition → ReadyState
  unfolding agent_state
  pod_identity_state cs =
      if not (k.is_true cs ConditionTypes.pod_identity_assoc_ready)
      then (status_false, (Reasons.waiting_for_ack, "waiting for ACK PodIdentityAssociation"))
      else agent_state (k.find_status cs ConditionTypes.pod_identity_agent_ready)

  delivery_state : List Condition → DeliveryType → Config → ReadyState
  unfolding annotation_state pod_identity_state all_ready
  delivery_state cs self_hosted_irsa config = annotation_state cs config
  delivery_state cs eks_irsa config = annotation_state cs config
  delivery_state cs eks_pod_identity config = pod_identity_state cs
  delivery_state cs (other_delivery _) config = all_ready

  -- computeRoleReadyState
  unfoldable pub compute_role_ready_state : List Condition → DeliveryType → Config → ReadyState
  unfolding delivery_state hub_role_resources_ready
  compute_role_ready_state cs delivery config =
      if not (hub_role_resources_ready cs)
      then (status_false, (Reasons.waiting_for_ack, "waiting for ACK resources"))
      else delivery_state cs delivery config

  set_both : List Condition → ℕ → ReadyState → List Condition
  unfolding set_condition
  set_both cs generation (status, (reason, message)) =
      set_condition k
        (set_condition k cs generation ConditionTypes.delivery_ready status reason message)
        generation ConditionTypes.ready status
        (if is_status_true status then Reasons.ready else reason) message

  -- setHubReadyConditions
  unfoldable pub set_hub_ready_conditions :
      List Condition → ℕ → DeliveryType → Config → List Condition
  unfolding set_both compute_role_ready_state
  set_hub_ready_conditions cs generation delivery config =
      set_both cs generation (compute_role_ready_state cs delivery config)

  -- setPodIdentityAgentCondition
  unfoldable pub set_pod_identity_agent_condition : List Condition → ℕ → Resolution → List Condition
  unfolding set_condition
  set_pod_identity_agent_condition cs generation resolved =
      if resolved.eks_auto_mode
      then set_condition k cs generation ConditionTypes.pod_identity_agent_ready status_true
          Reasons.eks_auto_mode "ClusterProfile declares EKS Auto Mode"
      else set_condition k cs generation ConditionTypes.pod_identity_agent_ready status_unknown
          Reasons.remote_check_pending
          "remote EKS Pod Identity Agent readiness is checked by the remote runtime controller"

  -- roleResultWithAnnotationDeliverySafetyRequeue
  unfoldable pub role_result_with_safety_requeue :
      DeliveryType → List Condition → RequeueAfter → RequeueAfter
  unfolding uses_annotation_based_irsa
  role_result_with_safety_requeue delivery cs after =
      if uses_annotation_based_irsa delivery
        && (nat_eq after 0 && k.is_true cs ConditionTypes.service_account_annotation_ready)
      then self_hosted_steady_state_requeue
      else if nat_eq after 0
      then dependency_steady_state_requeue
      else after

-- trustPolicy. The parameters are WebIdentityTrustPolicy and EKSPodIdentityTrustPolicy.
module _ (web_identity : String → String → ServiceAccountSubject → Result String)
    (pod_identity : String → String → ServiceAccountSubject → Result String) where
  web_identity_of : Role → Config → Result String
  web_identity_of role config =
      if config.status.oidc_provider_arn == ""
      then err (failure "AWSWorkloadIdentityConfig.status.oidcProviderARN is empty")
      else if config.status.issuer_host_path == ""
      then err (failure "AWSWorkloadIdentityConfig.status.issuerHostPath is empty")
      else wrap_result "build web identity trust policy" (
          web_identity config.status.issuer_host_path config.status.oidc_provider_arn
            role.spec.service_account)

  pod_identity_of : Role → Resolution → Option Failure → Result String
  pod_identity_of role resolved (some e) = err (wrap "require EKS inventory properties" e)
  pod_identity_of role resolved none =
      wrap_result "build EKS Pod Identity trust policy" (
        pod_identity resolved.eks_cluster_arn resolved.aws_organization_id
          role.spec.service_account)

  trust_policy_for : DeliveryType → Role → Config → Resolution → Result String
  unfolding web_identity_of pod_identity_of require_eks
  trust_policy_for self_hosted_irsa role config resolved = web_identity_of role config
  trust_policy_for eks_irsa role config resolved = web_identity_of role config
  trust_policy_for eks_pod_identity role config resolved =
      pod_identity_of role resolved (require_eks resolved)
  trust_policy_for (other_delivery t) role config resolved =
      err (failure (cat ("unsupported delivery type " ∷ quote t ∷ [])))

  unfoldable pub trust_policy : Role → Config → Resolution → Result String
  unfolding trust_policy_for
  trust_policy role config resolved =
      trust_policy_for config.spec.delivery_type role config resolved
