-- ===== src/Controller/Config/Issuer/Current.antt =====
-- Which conditions the steps of a self-hosted issuer leave at the current generation.
use aws_workload_identity_op.Prelude.{
  ℕ, String, ◌==◌, ◌≡◌, Bool, true, false, not, ◌&&◌, Bool-cases, inl, inr, arith, refl,
}
use aws_workload_identity_op.Api.ConditionTypes
use aws_workload_identity_op.Api.Conditions.{StatusConditions}
use aws_workload_identity_op.Api.Errors.{Failure, Result, ok, err}
use aws_workload_identity_op.Api.Types.{Config, AckResourceStatus}
use aws_workload_identity_op.Aws.Ack.{
  Desired, BucketSpec, OidcProviderSpec, AckStatus, is_ack_synced, arn_of, build_oidc_provider,
}
use aws_workload_identity_op.Controller.Config.Issuer.{
  publish_failed, name_bucket, signing_secret_step, publication_step, render, bucket_applied,
  apply_bucket_step, reconcile_self_hosted_bucket, provider_applied, reconcile_oidc_provider,
  published, publish_with, ensure_oidc_objects_published, self_hosted_publisher, wait_for_bucket,
  mark_issuer, add_provider, publish_and_provide, add_bucket, reconcile_self_hosted_issuer,
}
use aws_workload_identity_op.Controller.Config.Status.{
  set_bucket_status, clear_publication_status, set_publication_status,
}
use aws_workload_identity_op.Controller.Config.Server.{IssuerPublication, Publisher, ConfigServer}
use aws_workload_identity_op.Controller.Config.Steps.{after, set_on}
use aws_workload_identity_op.Controller.Config.Steps.Current.{
  IsCurrent, Ends, or_type, after-Ends, answer-Ends, set_on-IsCurrent, set_ack_on-IsCurrent,
  IsCurrent-same,
}

module _ (k : StatusConditions) {S R : Type 0} (server : ConfigServer S R) (g : ℕ) where
  abbrev pub Types : Type 0
  Types = String → Bool

  publish_failed-Ends :
      (A : Type 0) (types types' : Types) (e : Failure) (c : Config) (s : S)
      → IsCurrent k g types c
      → Ends k g {S = S} {A = A} types' (publish_failed k server e c s)
  unfolding publish_failed after set_on
  publish_failed-Ends A types types' e c s h = h.generation_is

  name_bucket-Ends :
      (types : Types) (c : Config) (s : S)
      → IsCurrent k g types c
      → Ends k g types (name_bucket k server c s)
  unfolding name_bucket set_bucket_status
  name_bucket-Ends types c s h = IsCurrent-same k g types c _ refl refl h

  signing_secret_step-Ends :
      (types : Types) (c : Config) (s : S)
      → IsCurrent k g types c
      → Ends k g types (signing_secret_step k server c s)
  unfolding signing_secret_step
  signing_secret_step-Ends types c s h = answer-Ends k g types _ c _ h

  publication_step-Ends :
      (types : Types) (x : Result IssuerPublication) (c : Config) (s : S)
      → IsCurrent k g types c
      → Ends k g types (publication_step k server x c s)
  unfolding publication_step
  publication_step-Ends types (ok publication) c s h = h
  publication_step-Ends types (err e) c s h = publish_failed-Ends _ types types _ c s h

  bucket_applied-Ends :
      (types : Types) (desired : Desired BucketSpec) (status : Result AckStatus) (c : Config)
      (s : S)
      → IsCurrent k g types c
      → Ends k g
          (or_type ConditionTypes.bucket_ready types)
          (bucket_applied k server desired status c s)
  unfolding bucket_applied
  bucket_applied-Ends types desired (err e) c s h = h.generation_is
  bucket_applied-Ends types desired (ok status) c s h =
      set_ack_on-IsCurrent k g types c _ "S3 Bucket" (is_ack_synced status.conditions) true h

  apply_bucket_step-Ends :
      (types : Types) (x : Result (Desired BucketSpec)) (c : Config) (s : S)
      → IsCurrent k g types c
      → Ends k g (or_type ConditionTypes.bucket_ready types) (apply_bucket_step k server x c s)
  unfolding apply_bucket_step
  apply_bucket_step-Ends types (err e) c s h = h.generation_is
  apply_bucket_step-Ends types (ok desired) c s h = bucket_applied-Ends types desired _ c _ h

  provider_applied-Ends :
      (types : Types) (desired : Desired OidcProviderSpec) (status : Result AckStatus) (c : Config)
      (s : S)
      → IsCurrent k g types c
      → Ends k g
          (or_type ConditionTypes.iam_provider_ready types)
          (provider_applied k server desired status c s)
  unfolding provider_applied
  provider_applied-Ends types desired (err e) c s h = h.generation_is
  provider_applied-Ends types desired (ok status) c s h =
      set_ack_on-IsCurrent k g types _ _ "IAM OpenIDConnectProvider"
        (is_ack_synced status.conditions) (not (arn_of status.arn == ""))
        (IsCurrent-same k g types c _ refl refl h)

  published-Ends :
      (types : Types) (bucket : String) (publication : IssuerPublication) (x : Result Bool)
      (c : Config) (s : S)
      → IsCurrent k g types c
      → Ends k g types (published k server bucket publication x c s)
  unfolding published set_publication_status
  published-Ends types bucket publication (err e) c s h = publish_failed-Ends _ types types _ c s h
  published-Ends types bucket publication (ok changed) c s h =
      IsCurrent-same k g types c _ refl refl h

  publish_with-Ends :
      (types : Types) (publication : IssuerPublication) (x : Result (Publisher S)) (c : Config)
      (s : S)
      → IsCurrent k g types c
      → Ends k g types (publish_with k server publication x c s)
  unfolding publish_with
  publish_with-Ends types publication (err e) c s h = h.generation_is
  publish_with-Ends types publication (ok publisher) c s h =
      published-Ends types _ publication _ c _ h

  ensure_oidc_objects_published-Ends :
      (types : Types) (publication : IssuerPublication) (c : Config) (s : S)
      → IsCurrent k g types c
      → Ends k g types (ensure_oidc_objects_published k server publication c s)
  unfolding ensure_oidc_objects_published
  ensure_oidc_objects_published-Ends types publication c s h =
      publish_with-Ends types publication
        (self_hosted_publisher server.publisher_factory s c.spec.region) c s h

  reconcile_oidc_provider-Ends :
      (types : Types) (c : Config) (s : S)
      → IsCurrent k g types c
      → Ends k g
          (or_type ConditionTypes.iam_provider_ready types)
          (reconcile_oidc_provider k server c s)
  unfolding reconcile_oidc_provider
  reconcile_oidc_provider-Ends types c s h =
      provider_applied-Ends types (build_oidc_provider server.digest c) _ c _ h

  -- The types beside those of `types` once a path has set what follows the bucket.
  abbrev pub settled : Types → Types
  settled types = or_type ConditionTypes.issuer_ready (
      or_type ConditionTypes.iam_provider_ready
        (or_type ConditionTypes.oidc_objects_published types))

  wait_for_bucket-Ends :
      (types : Types) (c : Config) (s : S)
      → IsCurrent k g types c
      → Ends k g (settled types) (wait_for_bucket k server c s)
  unfolding wait_for_bucket after clear_publication_status
  wait_for_bucket-Ends types c s h = set_on-IsCurrent k g _ _ _ _ _ _ (
      set_on-IsCurrent k g _ _ _ _ _ _
        (set_on-IsCurrent k g _ _ _ _ _ _ (IsCurrent-same k g types c _ refl refl h)))

  mark_issuer-Ends :
      (types : Types) (synced : Bool) (c : Config) (s : S)
      → IsCurrent k g types c
      → Ends k g (or_type ConditionTypes.issuer_ready types) (mark_issuer k server synced c s)
  unfolding mark_issuer
  mark_issuer-Ends types synced c s h =
      elim (Bool-cases (synced && not (c.status.oidc_provider_arn == ""))) [
        | inl synced_is ↦ simp synced_is (set_on-IsCurrent k g types c _ _ _ _ h)
        | inr waiting ↦ simp waiting (set_on-IsCurrent k g types c _ _ _ _ h)
      ]

  add_provider-Ends :
      (types : Types) (provider : Bool × AckResourceStatus) (c : Config) (s : S)
      → IsCurrent k g types c
      → Ends k g (or_type ConditionTypes.issuer_ready types) (add_provider k server provider c s)
  unfolding add_provider after
  add_provider-Ends types (synced, entry) c s h =
      mark_issuer-Ends types synced _ s (IsCurrent-same k g types c _ refl refl h)

  publish_and_provide-Ends :
      (types : Types) (publication : IssuerPublication) (c : Config) (s : S)
      → IsCurrent k g types c
      → Ends k g (settled types) (publish_and_provide k server publication c s)
  unfolding publish_and_provide
  publish_and_provide-Ends types publication c s h =
      after-Ends k g types (settled types) _ _
        (ensure_oidc_objects_published-Ends types publication c s h)
        λ _ c1 s1 h1.
          after-Ends k g (or_type ConditionTypes.oidc_objects_published types) (settled types) _ _
            (set_on-IsCurrent k g types c1 _ _ _ _ h1)
            λ _ c2 s2 h2.
              after-Ends k g
                (or_type ConditionTypes.iam_provider_ready
                  (or_type ConditionTypes.oidc_objects_published types))
                (settled types) _ _ (reconcile_oidc_provider-Ends _ c2 s2 h2)
                λ provider c3 s3 h3. add_provider-Ends _ provider c3 s3 h3

  add_bucket-Ends :
      (types : Types) (publication : IssuerPublication) (bucket : Bool × AckResourceStatus)
      (c : Config) (s : S)
      → IsCurrent k g types c
      → Ends k g (settled types) (add_bucket k server publication bucket c s)
  unfolding add_bucket after
  add_bucket-Ends types publication (true, entry) c s h =
      publish_and_provide-Ends types publication _ s (IsCurrent-same k g types c _ refl refl h)
  add_bucket-Ends types publication (false, entry) c s h =
      wait_for_bucket-Ends types _ s (IsCurrent-same k g types c _ refl refl h)

  abbrev pub nothing : Types
  nothing t = false

  pub reconcile_self_hosted_issuer-Ends :
      (c : Config) (s : S)
      → c.meta.generation ≡ g
      → Ends k g
          (settled (or_type ConditionTypes.bucket_ready nothing))
          (reconcile_self_hosted_issuer k server c s)
  unfolding reconcile_self_hosted_issuer render reconcile_self_hosted_bucket
  reconcile_self_hosted_issuer-Ends c s same =
      let done = settled (or_type ConditionTypes.bucket_ready nothing) in
      after-Ends k g nothing done _ _
        (name_bucket-Ends nothing c s
          (record { generation_is = same; observed = λ t m. ground (arith, m) }))
        λ _ c1 s1 h1.
          after-Ends k g nothing done _ _ (signing_secret_step-Ends nothing c1 s1 h1)
            λ keys c2 s2 h2.
              after-Ends k g nothing done _ _ (publication_step-Ends nothing _ c2 s2 h2)
                λ publication c3 s3 h3.
                  after-Ends k g (or_type ConditionTypes.bucket_ready nothing) done _ _
                    (apply_bucket_step-Ends nothing _ c3 s3 h3)
                    λ bucket c4 s4 h4. add_bucket-Ends _ publication bucket c4 s4 h4
