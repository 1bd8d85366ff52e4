-- ===== src/Controller/Config/Issuer.antt =====
-- The self-hosted OIDC issuer of a config: reconcileSelfHostedIssuer of
-- internal/controller/config_controller.go, and the condition of its failure.
pub mod Current
pub mod Fresh
use aws_workload_identity_op.Prelude.{
  String, ◌==◌, Bool, true, not, ◌&&◌, if◌then◌else◌, nat_eq, Option, none, some, List, [], ◌∷◌,
  ◌++◌, cat, false,
}
use aws_workload_identity_op.Api.ConditionTypes
use aws_workload_identity_op.Api.Reasons
use aws_workload_identity_op.Api.Conditions.{Condition, StatusConditions, status_true, status_false}
use aws_workload_identity_op.Api.Errors.{Failure, failure, wrap, wrap_result, Result, ok, err}
use aws_workload_identity_op.Api.Types.{Config, AckResourceStatus, issuer_url}
use aws_workload_identity_op.Aws.Ack.{
  Desired, BucketSpec, OidcProviderSpec, AckStatus, build_bucket, build_oidc_provider,
  is_ack_synced, ack_resource_status, arn_of, self_hosted_issuer_bucket_name,
}
use aws_workload_identity_op.Aws.Names.{bucket_name}
use aws_workload_identity_op.Controller.Config.Secret.{reconcile_signing_secret}
use aws_workload_identity_op.Controller.Config.Server.{IssuerPublication, Publisher, ConfigServer}
use aws_workload_identity_op.Controller.Config.Status.{
  set_bucket_status, clear_publication_status, set_publication_status,
}
use aws_workload_identity_op.Controller.Config.Steps.{
  Step, ◌>>=◌, ◌>>◌, answer, pure, abort, change, with_status, set_on, set_ack_on, mark,
}

abbrev pub s3_api_version : String
s3_api_version = "s3.services.k8s.aws/v1alpha1"

abbrev pub iam_api_version : String
iam_api_version = "iam.services.k8s.aws/v1alpha1"

-- The error of createOrUpdate.
create_or_update : {A : Type 0} → String → String → String → Result A → Result A
create_or_update kind namespace name answer' =
    wrap_result (cat ("create or update " ∷ kind ∷ " " ∷ namespace ∷ "/" ∷ name ∷ [])) answer'

-- The conditions that the issuer owns.
abbrev pub issuer_conditions : List String
issuer_conditions =
    ConditionTypes.bucket_ready ∷ ConditionTypes.oidc_objects_published
    ∷ ConditionTypes.iam_provider_ready ∷ ConditionTypes.issuer_ready ∷ []

-- preserveOIDCProviderLateInitializedFields
late_initialized : Option (List String) → Option (List String) → Option (List String)
late_initialized none current = current
late_initialized (some thumbprints) current = some thumbprints

unfoldable pub preserve_late_initialized_fields :
    Desired OidcProviderSpec → OidcProviderSpec → Desired OidcProviderSpec
unfolding late_initialized
preserve_late_initialized_fields desired current = record desired {
  spec = record desired.spec {
    thumbprints = late_initialized desired.spec.thumbprints current.thumbprints;
  };
}

module _ {S : Type 0} where
  created : Result (Publisher S) → Result (Publisher S)
  created answer' = wrap_result "create S3 OIDC issuer publisher" answer'

  -- selfHostedPublisher
  unfoldable pub self_hosted_publisher :
      Option (S → String → Result (Publisher S)) → S → String → Result (Publisher S)
  unfolding created
  self_hosted_publisher none s region =
      err (failure "self-hosted issuer publisher is not configured")
  self_hosted_publisher (some factory) s region = created (factory s region)

module _ (k : StatusConditions) {S R : Type 0} (server : ConfigServer S R) where
  -- setOIDCObjectsPublishFailed
  publish_failed : {A : Type 0} → Failure → Step S A
  publish_failed e = do
    mark k ConditionTypes.oidc_objects_published status_false Reasons.oidc_objects_publish_failed
        (server.sanitize e)
    mark k ConditionTypes.issuer_ready status_false Reasons.oidc_objects_publish_failed
        (server.sanitize e)
    abort e

  name_bucket : Step S (Unit {0})
  unfolding bucket_name set_bucket_status
  name_bucket c s =
      let bucket = bucket_name server.digest c.meta.namespace c.spec.region in
      change
        (λ status. record (set_bucket_status bucket status) {
          issuer_host_path = cat (bucket ∷ ".s3." ∷ c.spec.region ∷ ".amazonaws.com" ∷ []);
        })
        c s

  signing_secret_step : Step S (String × String)
  unfolding reconcile_signing_secret
  signing_secret_step c s =
      let (keys, s') = reconcile_signing_secret server c s in
      answer (wrap_result "reconcile signing Secret" keys) c s'

  publication_step : Result IssuerPublication → Step S IssuerPublication
  unfolding publish_failed
  publication_step (ok publication) = pure publication
  publication_step (err e) = publish_failed (wrap "render self-hosted OIDC issuer publication" e)

  render : String × String → Step S IssuerPublication
  unfolding publication_step issuer_url
  render (public_key, key_id) c s =
      publication_step (server.render_publication (issuer_url c.status) public_key key_id) c s

  bucket_applied : Desired BucketSpec → Result AckStatus → Step S (Bool × AckResourceStatus)
  unfolding set_ack_on is_ack_synced ack_resource_status
  bucket_applied desired (err e) c s = (err e, c, s)
  bucket_applied desired (ok status) c s =
      let synced = is_ack_synced status.conditions in
      (
        ok (
          synced,
          ack_resource_status s3_api_version "Bucket" desired.namespace desired.name
              status.conditions,
        ),
        set_ack_on k c ConditionTypes.bucket_ready "S3 Bucket" synced true,
        s,
      )

  apply_bucket_step : Result (Desired BucketSpec) → Step S (Bool × AckResourceStatus)
  unfolding bucket_applied create_or_update
  apply_bucket_step (err e) c s = (err (wrap "build self-hosted issuer bucket" e), c, s)
  apply_bucket_step (ok desired) c s =
      let (status, s') = server.apply_bucket c desired s in
      bucket_applied desired
        (create_or_update "*v1alpha1.Bucket" desired.namespace desired.name status) c s'

  -- reconcileSelfHostedBucket
  unfoldable pub reconcile_self_hosted_bucket : Step S (Bool × AckResourceStatus)
  unfolding apply_bucket_step build_bucket
  reconcile_self_hosted_bucket c s =
      apply_bucket_step (build_bucket server.digest server.json c) c s

  provider_applied : Desired OidcProviderSpec → Result AckStatus → Step S (Bool × AckResourceStatus)
  unfolding set_ack_on is_ack_synced ack_resource_status arn_of
  provider_applied desired (err e) c s = (err e, c, s)
  provider_applied desired (ok status) c s =
      let synced = is_ack_synced status.conditions in
      let arn = arn_of status.arn in
      (
        ok (
          synced && not (arn == ""),
          ack_resource_status iam_api_version "OpenIDConnectProvider" desired.namespace desired.name
              status.conditions,
        ),
        set_ack_on k (with_status (λ st. record st { oidc_provider_arn = arn }) c)
            ConditionTypes.iam_provider_ready "IAM OpenIDConnectProvider" synced (not (arn == "")),
        s,
      )

  -- reconcileOIDCProvider
  unfoldable pub reconcile_oidc_provider : Step S (Bool × AckResourceStatus)
  unfolding provider_applied create_or_update build_oidc_provider preserve_late_initialized_fields
  reconcile_oidc_provider c s =
      let desired = build_oidc_provider server.digest c in
      let (status, s') =
        server.apply_oidc_provider c (record { namespace = desired.namespace; name = desired.name })
          (preserve_late_initialized_fields desired) s in
      provider_applied desired
        (create_or_update "*v1alpha1.OpenIDConnectProvider" desired.namespace desired.name status) c
        s'

  published : String → IssuerPublication → Result Bool → Step S (Unit {0})
  unfolding publish_failed set_publication_status
  published bucket publication (err e) =
      publish_failed (wrap "publish self-hosted OIDC issuer objects" e)
  published bucket publication (ok changed) = change (set_publication_status bucket publication)

  publish_with : IssuerPublication → Result (Publisher S) → Step S (Unit {0})
  unfolding published self_hosted_issuer_bucket_name
  publish_with publication (err e) c s = (err e, c, s)
  publish_with publication (ok publisher) c s =
      let bucket = self_hosted_issuer_bucket_name server.digest c in
      let (changed, s') = publisher.ensure_issuer bucket publication s in
      published bucket publication changed c s'

  -- ensureOIDCObjectsPublished
  unfoldable pub ensure_oidc_objects_published : IssuerPublication → Step S (Unit {0})
  unfolding publish_with self_hosted_publisher
  ensure_oidc_objects_published publication c s =
      publish_with publication (self_hosted_publisher server.publisher_factory s c.spec.region) c s

  wait_for_bucket : Step S (Unit {0})
  unfolding clear_publication_status
  wait_for_bucket = do
    change clear_publication_status
    mark k ConditionTypes.oidc_objects_published status_false Reasons.waiting_for_ack
        "waiting for ACK S3 Bucket sync before publishing OIDC objects"
    mark k ConditionTypes.iam_provider_ready status_false Reasons.waiting_for_ack
        "waiting for OIDC discovery objects before reconciling IAM OpenIDConnectProvider"
    mark k ConditionTypes.issuer_ready status_false Reasons.waiting_for_ack
        "waiting for ACK resources"

  mark_issuer : Bool → Step S (Unit {0})
  unfolding set_on
  mark_issuer synced c s =
      if synced && not (c.status.oidc_provider_arn == "")
      then mark k ConditionTypes.issuer_ready status_true Reasons.ready
          "self-hosted issuer resources are synced" c s
      else mark k ConditionTypes.issuer_ready status_false Reasons.waiting_for_ack
          "waiting for ACK resources" c s

  add_provider : Bool × AckResourceStatus → Step S (Unit {0})
  unfolding mark_issuer
  add_provider (synced, entry) = do
    change (λ status. record status { ack_resources = status.ack_resources ++ (entry ∷ []) })
    mark_issuer synced

  publish_and_provide : IssuerPublication → Step S (Unit {0})
  unfolding ensure_oidc_objects_published reconcile_oidc_provider add_provider
  publish_and_provide publication = do
    ensure_oidc_objects_published publication
    mark k ConditionTypes.oidc_objects_published status_true Reasons.oidc_objects_published
        "self-hosted OIDC discovery and JWKS objects are published"
    provider ← reconcile_oidc_provider
    add_provider provider

  add_bucket : IssuerPublication → Bool × AckResourceStatus → Step S (Unit {0})
  unfolding wait_for_bucket publish_and_provide
  add_bucket publication (synced, entry) = do
    change (λ status. record status { ack_resources = entry ∷ [] })
    if not synced then wait_for_bucket else publish_and_provide publication

  -- reconcileSelfHostedIssuer
  unfoldable pub reconcile_self_hosted_issuer : Step S (Unit {0})
  unfolding name_bucket signing_secret_step render reconcile_self_hosted_bucket add_bucket
  reconcile_self_hosted_issuer = do
    name_bucket
    keys ← signing_secret_step
    publication ← render keys
    bucket ← reconcile_self_hosted_bucket
    add_bucket publication bucket

  is_current : Config → Option Condition → Bool
  is_current c none = false
  is_current c (some found) = nat_eq found.report.observed_generation c.meta.generation

  -- The loop of setSelfHostedIssuerFailureCondition.
  fail_conditions : List String → String → Config → Config
  unfolding is_current set_on
  fail_conditions [] message c = c
  fail_conditions (t ∷ ts) message c = fail_conditions ts message (
      if is_current c (k.find_status c.status.conditions t)
      then c
      else set_on k c t status_false Reasons.issuer_reconcile_failed message)

  -- setSelfHostedIssuerFailureCondition
  unfoldable pub set_issuer_failure_condition : Config → Failure → Config
  unfolding fail_conditions
  set_issuer_failure_condition c e = fail_conditions issuer_conditions (server.sanitize e) c
