-- ===== src/Controller/Config/Eks.antt =====
-- The EKS IRSA issuer of a config: reconcileEKSIRSAConfig of internal/controller/config_controller.go.
use aws_workload_identity_op.Prelude.{
  String, ◌==◌, Bool, not, ◌&&◌, if◌then◌else◌, Option, none, some, [], ◌∷◌, cat, quote,
}
use aws_workload_identity_op.Api.ConditionTypes
use aws_workload_identity_op.Api.Reasons
use aws_workload_identity_op.Api.Conditions.{StatusConditions, status_true, status_false}
use aws_workload_identity_op.Api.Errors.{Failure, Result, ok, err}
use aws_workload_identity_op.Api.Types.{
  AckResourceStatus, EksIrsaConfig, OidcProviderManagement, managed, external, other_management,
}
use aws_workload_identity_op.Aws.OidcProvider.{
  normalize_issuer_url, validate_oidc_provider_arn_matches_issuer,
}
use aws_workload_identity_op.Controller.Config.Issuer.{reconcile_oidc_provider}
use aws_workload_identity_op.Controller.Config.Server.{ConfigServer}
use aws_workload_identity_op.Controller.Config.Status.{
  reset_issuer_status, reset_webhook_runtime_status,
}
use aws_workload_identity_op.Controller.Config.Steps.{
  Answer, Step, ◌>>◌, abort, change, set_on, mark,
}

module _ (k : StatusConditions) {S R : Type 0} (server : ConfigServer S R) where
  -- setEKSIRSAInvalidSpec
  set_invalid_spec : String → Step S (Unit {0})
  set_invalid_spec message = do
    mark k ConditionTypes.iam_provider_ready status_false Reasons.invalid_spec message
    mark k ConditionTypes.issuer_ready status_false Reasons.invalid_spec message

  set_provider_arn : String → Step S (Unit {0})
  set_provider_arn arn = change (λ status. record status { oidc_provider_arn = arn })

  -- setEKSIRSAIssuerFailure, and the error.
  issuer_failure : Failure → Step S (Unit {0})
  unfolding set_provider_arn
  issuer_failure e = do
    set_provider_arn ""
    mark k ConditionTypes.iam_provider_ready status_false Reasons.issuer_reconcile_failed e.text
    mark k ConditionTypes.issuer_ready status_false Reasons.issuer_reconcile_failed e.text
    abort e

  mark_managed : Bool → Step S (Unit {0})
  unfolding set_on
  mark_managed synced c s =
      if synced && not (c.status.oidc_provider_arn == "")
      then mark k ConditionTypes.issuer_ready status_true Reasons.ready
          "EKS IRSA issuer resources are synced" c s
      else mark k ConditionTypes.issuer_ready status_false Reasons.waiting_for_ack
          "waiting for IAM OpenIDConnectProvider ARN" c s

  record_managed : AckResourceStatus → Bool → Step S (Unit {0})
  unfolding mark_managed
  record_managed entry synced = do
    change (λ status. record status { ack_resources = entry ∷ [] })
    mark_managed synced

  managed_answer : Answer S (Bool × AckResourceStatus) → Answer S (Unit {0})
  unfolding issuer_failure record_managed
  managed_answer (err e, c, s) = issuer_failure e c s
  managed_answer (ok (synced, entry), c, s) = record_managed entry synced c s

  external_provider : String → Result (Unit {0}) → Step S (Unit {0})
  unfolding set_provider_arn set_invalid_spec
  external_provider arn (err e) = do set_provider_arn ""; set_invalid_spec e.text
  external_provider arn (ok _) = do
    set_provider_arn arn
    mark k ConditionTypes.iam_provider_ready status_true Reasons.ready
        "external IAM OpenIDConnectProvider ARN matches issuer"
    mark k ConditionTypes.issuer_ready status_true Reasons.ready
        "EKS IRSA external issuer is configured"

  by_management : EksIrsaConfig → String → OidcProviderManagement → Step S (Unit {0})
  unfolding managed_answer reconcile_oidc_provider external_provider
      validate_oidc_provider_arn_matches_issuer set_provider_arn set_invalid_spec
  by_management spec issuer managed c s = managed_answer (reconcile_oidc_provider k server c s)
  by_management spec issuer external c s =
      external_provider spec.oidc_provider.arn
        (validate_oidc_provider_arn_matches_issuer server.urls spec.oidc_provider.arn issuer) c s
  by_management spec issuer (other_management text) c s =
      (set_provider_arn ""
          >> set_invalid_spec
              (cat ("unsupported EKSIRSA OIDC provider management " ∷ quote text ∷ [])))
        c s

  with_issuer : EksIrsaConfig → Result String → Step S (Unit {0})
  unfolding by_management set_invalid_spec
  with_issuer spec (err e) = do
    change (λ status. record status { issuer_host_path = ""; oidc_provider_arn = "" })
    set_invalid_spec e.text
  with_issuer spec (ok issuer) = do
    change (λ status. record status { issuer_host_path = issuer })
    by_management spec issuer spec.oidc_provider.management

  with_spec : Option EksIrsaConfig → Step S (Unit {0})
  unfolding with_issuer normalize_issuer_url set_invalid_spec
  with_spec none = set_invalid_spec "spec.eksIRSA is required when spec.type is EKSIRSA"
  with_spec (some spec) = with_issuer spec (normalize_issuer_url server.urls spec.issuer_url)

  -- reconcileEKSIRSAConfig
  unfoldable pub reconcile_eks_irsa_config : Step S (Unit {0})
  unfolding with_spec reset_issuer_status reset_webhook_runtime_status
  reconcile_eks_irsa_config c s =
      (change (λ status.
            reset_webhook_runtime_status
              (reset_issuer_status (record status { ack_resources = [] })))
          >> mark k ConditionTypes.webhook_runtime_ready status_true Reasons.not_required
              "EKSIRSA does not use the self-hosted webhook runtime"
          >> with_spec c.spec.eks_irsa)
        c s
