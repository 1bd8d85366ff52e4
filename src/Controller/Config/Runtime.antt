-- ===== src/Controller/Config/Runtime.antt =====
-- reconcileSelfHostedWebhookRuntime of internal/controller/config_controller.go, with
-- resolveRemoteCluster and remoteClusterTargets of selfhosted_remote.go.
use aws_workload_identity_op.Prelude.{String, not, if◌then◌else◌, Option, none, some, [], ◌∷◌, cat}
use aws_workload_identity_op.Api.ConditionTypes
use aws_workload_identity_op.Api.Reasons
use aws_workload_identity_op.Api.Conditions.{StatusConditions, status_true, status_false}
use aws_workload_identity_op.Api.Errors.{Failure, failure, wrap, wrap_result, Result, ok, err}
use aws_workload_identity_op.Api.OperatorConfig.{OperatorConfig}
use aws_workload_identity_op.Api.Types.{Config, NamespacedName, name_text}
use aws_workload_identity_op.Controller.Common.{transient_requeue, RequeueAfter}
use aws_workload_identity_op.Controller.Config.Server.{RuntimeClient, RuntimeOutcome, ConfigServer}
use aws_workload_identity_op.Controller.Config.Status.{
  set_webhook_runtime_observation, webhook_runtime_requeue_after,
}
use aws_workload_identity_op.Controller.Config.Steps.{set_on}
use aws_workload_identity_op.Inventory.{Resolution}

-- The result, the config that is left and the state of the remote clusters.
abbrev pub RuntimeAnswer : Type 0 → Type 0
RuntimeAnswer R = Result RequeueAfter × Config × R

-- resolveRemoteCluster and remoteClusterTargets
unfoldable pub remote_cluster_targets :
    {R : Type 0}
    → Option (R → NamespacedName → Result (RuntimeClient R))
    → R
    → NamespacedName
    → Result (RuntimeClient R)
remote_cluster_targets none r cluster = err (failure "multicluster manager is not configured")
remote_cluster_targets (some get_cluster) r cluster =
    wrap_result (cat ("get remote cluster " ∷ name_text cluster ∷ [])) (get_cluster r cluster)

module _ (k : StatusConditions) {S R : Type 0} (server : ConfigServer S R) where
  runtime_failed : Config → Failure → Config
  unfolding set_on
  runtime_failed c e =
      set_on k c ConditionTypes.webhook_runtime_ready status_false
        (if server.is_unmanaged_runtime e
          then Reasons.remote_runtime_unmanaged
          else Reasons.webhook_runtime_apply_failed)
        e.text

  -- What the outcome of applyRemoteWebhookRuntime leaves.
  with_outcome : Config → RuntimeOutcome × (Option Failure × R) → RuntimeAnswer R
  unfolding runtime_failed set_webhook_runtime_observation set_on webhook_runtime_requeue_after
  with_outcome c (outcome, (some e, r)) = (
    err (wrap "apply self-hosted webhook runtime" e),
    runtime_failed (set_webhook_runtime_observation c outcome) e,
    r,
  )
  with_outcome c (outcome, (none, r)) = (
    ok (webhook_runtime_requeue_after outcome outcome.ready),
    set_on k (set_webhook_runtime_observation c outcome) ConditionTypes.webhook_runtime_ready
        (if outcome.ready then status_true else status_false) outcome.reason outcome.message,
    r,
  )

  -- resolveSelfHostedWebhookTarget
  with_target : Config → String → R → Result (RuntimeClient R) → RuntimeAnswer R
  unfolding with_outcome set_on
  with_target c namespace r (ok client) =
      with_outcome c (client.apply namespace server.webhook_image r)
  with_target c namespace r (err e) =
      let c' =
        set_on k c ConditionTypes.webhook_runtime_ready status_false
          Reasons.remote_cluster_unavailable e.text in
      if server.is_cluster_not_found e
      then (ok transient_requeue, c', r)
      else (err (wrap "resolve remote cluster for self-hosted webhook runtime" e), c', r)

  -- reconcileSelfHostedWebhookRuntime
  unfoldable pub reconcile_self_hosted_webhook_runtime :
      OperatorConfig → Resolution → Config → R → RuntimeAnswer R
  unfolding set_on with_target remote_cluster_targets
  reconcile_self_hosted_webhook_runtime operator_config resolved c r =
      if not resolved.ready
      then (
        ok transient_requeue,
        set_on k c ConditionTypes.webhook_runtime_ready status_false resolved.reason
            resolved.message,
        r,
      )
      else with_target c operator_config.webhook_namespace r
          (remote_cluster_targets server.get_cluster r resolved.cluster_name)
