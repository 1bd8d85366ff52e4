-- ===== src/Controller/Config/Components.antt =====
-- reconcileConfigComponents of internal/controller/config_controller.go, and the merge of the two
-- paths of a self-hosted config. The issuer's path changes only the hub and S3, and the webhook
-- runtime's only the remote clusters, so that the goroutines of the two share no state.
pub mod Current
use aws_workload_identity_op.Prelude.{String, Option, none, some, List, [], ◌∷◌, cat}
use aws_workload_identity_op.Api.ConditionTypes
use aws_workload_identity_op.Api.Conditions.{Condition, StatusConditions}
use aws_workload_identity_op.Api.Errors.{Failure, failure, Result, ok, err}
use aws_workload_identity_op.Api.OperatorConfig.{OperatorConfig}
use aws_workload_identity_op.Api.Types.{
  Config, DeliveryType, self_hosted_irsa, eks_pod_identity, eks_irsa, other_delivery,
}
use aws_workload_identity_op.Controller.Common.{RequeueAfter}
use aws_workload_identity_op.Controller.Config.Eks.{reconcile_eks_irsa_config}
use aws_workload_identity_op.Controller.Config.Issuer.{
  issuer_conditions, reconcile_self_hosted_issuer, set_issuer_failure_condition,
}
use aws_workload_identity_op.Controller.Config.Runtime.{
  RuntimeAnswer, reconcile_self_hosted_webhook_runtime,
}
use aws_workload_identity_op.Controller.Config.Server.{ConfigServer}
use aws_workload_identity_op.Controller.Config.Status.{set_pod_identity_not_required}
use aws_workload_identity_op.Controller.Config.Steps.{Answer, with_status}
use aws_workload_identity_op.Inventory.{Resolution}

-- The result, the config that is left, and the states of the hub and of the remote clusters.
abbrev pub Outcome : Type 0 → Type 0 → Type 0
Outcome S R = Result RequeueAfter × Config × S × R

-- errors.Join of two errors. The controller hands the joined error to its caller, and asks nothing of
-- it.
joined : Failure → Failure → Failure
joined a b = failure (cat (a.text ∷ "\n" ∷ b.text ∷ []))

unfoldable pub joined_result : Result (Unit {0}) → Result RequeueAfter → Result RequeueAfter
unfolding joined
joined_result (ok _) runtime = runtime
joined_result (err e) (ok _) = err e
joined_result (err e) (err f) = err (joined e f)

module _ (k : StatusConditions) where
  copied : List Condition → Option Condition → List Condition
  copied dst none = dst
  copied dst (some c) = k.set_status dst c

  -- copyConditionByType, over some types
  unfoldable pub copy_conditions : List String → List Condition → List Condition → List Condition
  unfolding copied
  copy_conditions [] dst src = dst
  copy_conditions (t ∷ ts) dst src = copy_conditions ts (copied dst (k.find_status src t)) src

  -- mergeSelfHostedIssuerStatus
  unfoldable pub merge_issuer_status : Config → Config → Config
  unfolding copy_conditions
  merge_issuer_status dst src =
      with_status
        (λ status. record status {
          ack_resources = src.status.ack_resources;
          self_hosted_issuer = src.status.self_hosted_issuer;
          issuer_host_path = src.status.issuer_host_path;
          oidc_provider_arn = src.status.oidc_provider_arn;
          conditions = copy_conditions issuer_conditions status.conditions src.status.conditions;
        })
        dst

  -- mergeSelfHostedWebhookRuntimeStatus
  unfoldable pub merge_webhook_runtime_status : Config → Config → Config
  unfolding copy_conditions
  merge_webhook_runtime_status dst src =
      with_status
        (λ status. record status {
          webhook_runtime_namespace = src.status.webhook_runtime_namespace;
          webhook_runtime_cert_not_after = src.status.webhook_runtime_cert_not_after;
          conditions =
              copy_conditions (ConditionTypes.webhook_runtime_ready ∷ []) status.conditions
                src.status.conditions;
        })
        dst

module _ (k : StatusConditions) {S R : Type 0} (server : ConfigServer S R) where
  -- The goroutine of the issuer.
  unfoldable pub issuer_path : Answer S (Unit {0}) → Answer S (Unit {0})
  unfolding set_issuer_failure_condition
  issuer_path (ok _, c, s) = (ok tt, c, s)
  issuer_path (err e, c, s) = (err e, set_issuer_failure_condition k server c e, s)

  unfoldable pub merged : Config → Answer S (Unit {0}) → RuntimeAnswer R → Outcome S R
  unfolding joined_result merge_issuer_status merge_webhook_runtime_status
  merged c (issuer, ci, s) (runtime, cr, r) = (
    joined_result issuer runtime,
    merge_webhook_runtime_status k (merge_issuer_status k c ci) cr,
    s,
    r,
  )

  -- reconcileSelfHostedComponents
  unfoldable pub reconcile_self_hosted_components :
      OperatorConfig → Resolution → Config → S → R → Outcome S R
  unfolding issuer_path merged reconcile_self_hosted_issuer reconcile_self_hosted_webhook_runtime
  reconcile_self_hosted_components operator_config resolved c s r =
      merged c (issuer_path (reconcile_self_hosted_issuer k server c s))
        (reconcile_self_hosted_webhook_runtime k server operator_config resolved c r)

  of_eks : R → Answer S (Unit {0}) → Outcome S R
  of_eks r (ok _, c, s) = (ok 0, c, s, r)
  of_eks r (err e, c, s) = (err e, c, s, r)

  -- reconcileConfigComponents
  components_of : DeliveryType → OperatorConfig → Resolution → Config → S → R → Outcome S R
  unfolding reconcile_self_hosted_components of_eks reconcile_eks_irsa_config
      set_pod_identity_not_required
  components_of self_hosted_irsa operator_config resolved c s r =
      reconcile_self_hosted_components operator_config resolved c s r
  components_of eks_irsa operator_config resolved c s r =
      of_eks r (reconcile_eks_irsa_config k server c s)
  components_of eks_pod_identity operator_config resolved c s r =
      (ok 0, set_pod_identity_not_required k c, s, r)
  components_of (other_delivery text) operator_config resolved c s r =
      (ok 0, set_pod_identity_not_required k c, s, r)

  unfoldable pub reconcile_config_components :
      OperatorConfig → Resolution → Config → S → R → Outcome S R
  unfolding components_of
  reconcile_config_components operator_config resolved c s r =
      components_of c.spec.delivery_type operator_config resolved c s r
