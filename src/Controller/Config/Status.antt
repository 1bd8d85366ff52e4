-- ===== src/Controller/Config/Status.antt =====
-- The status of a config and its Ready condition, in internal/controller/config_controller.go.
pub mod Readiness
pub mod Consistent
pub mod Requeue
use aws_workload_identity_op.Prelude.{
  ℕ, String, Bool, true, false, not, ◌&&◌, if◌then◌else◌, Option, none, some, List, [], ◌∷◌, nat_eq,
  ltb,
}
use aws_workload_identity_op.Api.ConditionTypes
use aws_workload_identity_op.Api.Reasons
use aws_workload_identity_op.Api.Conditions.{
  Condition, StatusConditions, is_status_true, status_true, status_false,
}
use aws_workload_identity_op.Api.Delivery.{uses_annotation_based_irsa}
use aws_workload_identity_op.Api.Types.{
  Config, ConfigStatus, DeliveryType, self_hosted_irsa, name_text, IssuerPublicationStatus,
  SelfHostedIssuerStatus,
}
use aws_workload_identity_op.Controller.Common.{transient_requeue, RequeueAfter}
use aws_workload_identity_op.Controller.Config.Server.{RuntimeOutcome, IssuerPublication}
use aws_workload_identity_op.Controller.Config.Steps.{set_on, with_status}
use aws_workload_identity_op.Inventory.{Resolution}

abbrev pub is_self_hosted : DeliveryType → Bool
is_self_hosted self_hosted_irsa = true
is_self_hosted _ = false

-- resetIssuerStatus
unfoldable pub reset_issuer_status : ConfigStatus → ConfigStatus
reset_issuer_status status = record status {
  self_hosted_issuer = none;
  issuer_host_path = "";
  oidc_provider_arn = "";
}

-- resetSelfHostedWebhookRuntimeStatus
unfoldable pub reset_webhook_runtime_status : ConfigStatus → ConfigStatus
reset_webhook_runtime_status status = record status {
  webhook_runtime_namespace = "";
  webhook_runtime_cert_not_after = none;
}

-- resetSelfHostedStatus
unfoldable pub reset_self_hosted_status : ConfigStatus → ConfigStatus
unfolding reset_issuer_status reset_webhook_runtime_status
reset_self_hosted_status status =
    reset_webhook_runtime_status
      (record (reset_issuer_status status) { resolved_cluster_name = "" })

-- setResolvedClusterStatus
unfoldable pub set_resolved_cluster_status : Config → Resolution → Config
unfolding uses_annotation_based_irsa
set_resolved_cluster_status c resolved =
    with_status
      (λ status. record status {
        resolved_cluster_name =
            if uses_annotation_based_irsa c.spec.delivery_type && resolved.ready
            then name_text resolved.cluster_name
            else "";
      })
      c

-- setWebhookRuntimeObservation
unfoldable pub set_webhook_runtime_observation : Config → RuntimeOutcome → Config
set_webhook_runtime_observation c outcome =
    with_status
      (λ status. record status {
        webhook_runtime_namespace = outcome.webhook_namespace;
        webhook_runtime_cert_not_after = outcome.cert_not_after;
      })
      c

-- setSelfHostedIssuerBucketStatus
publication_of : Option SelfHostedIssuerStatus → Option IssuerPublicationStatus
publication_of none = none
publication_of (some issuer) = issuer.publication

unfoldable pub set_bucket_status : String → ConfigStatus → ConfigStatus
unfolding publication_of
set_bucket_status bucket status = record status {
  self_hosted_issuer =
      some
        (record { bucket_name = bucket; publication = publication_of status.self_hosted_issuer });
}

-- clearSelfHostedIssuerPublicationStatus
without_publication : Option SelfHostedIssuerStatus → Option SelfHostedIssuerStatus
without_publication none = none
without_publication (some issuer) = some (record issuer { publication = none })

unfoldable pub clear_publication_status : ConfigStatus → ConfigStatus
unfolding without_publication
clear_publication_status status = record status {
  self_hosted_issuer = without_publication status.self_hosted_issuer;
}

-- setSelfHostedIssuerPublicationStatus
unfoldable pub set_publication_status : String → IssuerPublication → ConfigStatus → ConfigStatus
set_publication_status bucket publication status = record status {
  self_hosted_issuer = some (record {
    bucket_name = bucket;
    publication = some (record {
      bucket_name = bucket;
      issuer_url = publication.issuer_url;
      signing_key_id = publication.signing_key_id;
      object_set_digest = publication.object_set_digest;
    });
  });
}

module _ (k : StatusConditions) where
  -- setClusterProfileResolvedCondition
  unfoldable pub set_cluster_profile_resolved : Config → Resolution → Config
  unfolding set_on
  set_cluster_profile_resolved c resolved =
      set_on k c ConditionTypes.cluster_profile_resolved
        (if resolved.ready then status_true else status_false) resolved.reason resolved.message

  -- setEKSPodIdentityConfigNotRequiredStatus
  unfoldable pub set_pod_identity_not_required : Config → Config
  unfolding set_on reset_self_hosted_status
  set_pod_identity_not_required c =
      let unowned = with_status (λ status. record status { ack_resources = [] }) c in
      let issued =
        set_on k unowned ConditionTypes.issuer_ready status_true Reasons.not_required
          "EKSPodIdentity does not use an issuer" in
      set_on k (with_status reset_self_hosted_status issued) ConditionTypes.webhook_runtime_ready
        status_true Reasons.not_required
        "EKSPodIdentity does not use the self-hosted webhook runtime"

  is_found_true : Option Condition → Bool
  is_found_true none = false
  is_found_true (some c) = is_status_true c.report.status

  reason_or : String → Option Condition → String
  reason_or default none = default
  reason_or default (some c) = c.report.reason

  message_or : String → Option Condition → String
  message_or default none = default
  message_or default (some c) = c.report.message

  -- propagateNotReady: true if the dependency is not ready, with the config that is left.
  unfoldable pub propagate_not_ready : Config → String → String → String → Bool × Config
  unfolding is_found_true reason_or message_or set_on
  propagate_not_ready c dependency reason message =
      let found = k.find_status c.status.conditions dependency in
      if is_found_true found then (false, c) else (
        true,
        set_on k c ConditionTypes.ready status_false (reason_or reason found)
            (message_or message found),
      )

  reconciled_config : Config → Config
  unfolding set_on
  reconciled_config c =
      set_on k c ConditionTypes.ready status_true Reasons.reconciled
        "config reconciliation completed"

  after_issuer : Bool × Config → Config
  unfolding propagate_not_ready reconciled_config
  after_issuer (true, c) = c
  after_issuer (false, c) =
      if is_self_hosted c.spec.delivery_type
      then (let (waits, c') =
            propagate_not_ready c ConditionTypes.webhook_runtime_ready
              Reasons.webhook_runtime_unavailable "waiting for self-hosted webhook runtime" in
          if waits then c' else reconciled_config c')
      else reconciled_config c

  -- setConfigReadyCondition
  unfoldable pub set_config_ready_condition : Config → Resolution → Config
  unfolding set_on after_issuer propagate_not_ready
  set_config_ready_condition c resolved =
      if not resolved.ready
      then set_on k c ConditionTypes.ready status_false resolved.reason resolved.message
      else after_issuer (
          propagate_not_ready c ConditionTypes.issuer_ready Reasons.waiting_for_ack
            "waiting for issuer resources")

-- minNonZeroDuration, with the smallest so far. No duration here is negative.
smallest_of : ℕ → List ℕ → ℕ
smallest_of smallest [] = smallest
smallest_of smallest (d ∷ ds) =
    if nat_eq d 0
    then smallest_of smallest ds
    else if nat_eq smallest 0
    then smallest_of d ds
    else if ltb d smallest
    then smallest_of d ds
    else smallest_of smallest ds

unfoldable pub min_nonzero_duration : List ℕ → ℕ
unfolding smallest_of
min_nonzero_duration ds = smallest_of 0 ds

-- cmp.Or
unfoldable pub first_nonzero : List ℕ → ℕ
first_nonzero [] = 0
first_nonzero (d ∷ ds) = if nat_eq d 0 then first_nonzero ds else d

-- webhookRuntimeRequeueAfter
unfoldable pub webhook_runtime_requeue_after : RuntimeOutcome → Bool → RequeueAfter
unfolding min_nonzero_duration first_nonzero
webhook_runtime_requeue_after o true =
    first_nonzero (o.cert_renewal_after ∷ o.readiness_retry_after ∷ transient_requeue ∷ [])
webhook_runtime_requeue_after o false =
    min_nonzero_duration (o.readiness_retry_after ∷ o.cert_renewal_after ∷ transient_requeue ∷ [])
