-- ===== src/RemoteIrsa/Provider.antt =====
-- pkg/remoteirsa/provider.go.
pub mod Exchange
use aws_workload_identity_op.Prelude.{
  ℕ, String, ◌==◌, Bool, true, false, not, if◌then◌else◌, Option, none, some, List, [], ◌∷◌, ◌++◌,
  cat, quote,
}
use aws_workload_identity_op.Prelude.Int.{ℤ}
use aws_workload_identity_op.Api.Delivery.{delivery_text, uses_annotation_based_irsa}
use aws_workload_identity_op.Api.Types.{
  NamespacedName, DeliveryType, self_hosted_irsa, eks_pod_identity, eks_irsa, other_delivery,
}
use aws_workload_identity_op.Api.Errors.{Failure, Result, ok, err}
use aws_workload_identity_op.RemoteIrsa.Errors
use aws_workload_identity_op.RemoteIrsa.Errors.{
  ErrorContext, no_context, IrsaError, sdk, other, Attempt, success, failed, new_error,
  with_error_context,
}
use aws_workload_identity_op.RemoteIrsa.Options.{
  ResolvedRole, ResolveOptions, ResolvedClusterProfile, AccessConfig, HubResolver,
  RemoteConfigResolver, TokenRequester, StsClient, Options, Defaults, set_defaults, validate,
  sts_audience,
}
use aws_workload_identity_op.RemoteIrsa.Sts.{
  Credentials, classify_token_request_error, assume_role_with_web_identity,
}

-- The conversion of a string to a DeliveryType.
unfoldable pub delivery_of : String → DeliveryType
delivery_of s =
    if s == "SelfHostedIRSA"
    then self_hosted_irsa
    else if s == "EKSPodIdentity"
    then eks_pod_identity
    else if s == "EKSIRSA"
    then eks_irsa
    else other_delivery s

-- cmp.Or of three texts.
abbrev pub first_text : String → String → String → String
first_text a b c = if not (a == "") then a else if not (b == "") then b else c

-- fmt.Errorf("prefix: %w", err)
abbrev pub wrap_error : String → IrsaError → IrsaError
wrap_error prefix (sdk prefixes e) = sdk (prefix ∷ prefixes) e
wrap_error prefix (other e) = other (record e { text = cat (prefix ∷ ": " ∷ e.text ∷ []) })

-- The options of a Provider: the dependencies are those that validation has found present.
pub record Provider (R : Type 0) : Type 0 where
  pub hub_resolver : HubResolver
  pub remote_config_resolver : RemoteConfigResolver R
  pub token_requester : TokenRequester R
  pub sts_client_factory : String → Option StsClient
  pub access_config : Option AccessConfig
  pub workload_namespace : String
  pub role_name : String
  pub service_account : NamespacedName
  pub region : String
  pub token_expiration : ℤ
  pub session_duration : ℤ
  pub session_name : String

module _ {R : Type 0} where
  checked : Options R → Option IrsaError → Attempt (Options R)
  checked o none = success o
  checked o (some e) = failed e

  -- NewProvider: the options that it stores.
  unfoldable pub new_provider : Defaults R → Options R → Attempt (Options R)
  unfolding checked set_defaults validate
  new_provider d o = let filled = set_defaults d o in checked filled (validate filled)

  provider_with :
      Options R
      → Option HubResolver
      → Option (RemoteConfigResolver R)
      → Option (TokenRequester R)
      → Option (String → Option StsClient)
      → Option (Provider R)
  provider_with o (some hub) (some remote) (some tokens) (some clients) = some (record {
    hub_resolver = hub;
    remote_config_resolver = remote;
    token_requester = tokens;
    sts_client_factory = clients;
    access_config = o.cluster_profile_access_config;
    workload_namespace = o.workload_namespace;
    role_name = o.role_name;
    service_account = o.service_account;
    region = o.region;
    token_expiration = o.token_expiration;
    session_duration = o.session_duration;
    session_name = o.session_name;
  })
  provider_with o _ _ _ _ = none

  -- The stored options with their dependencies. `none` is a call of a nil dependency.
  unfoldable pub provider_of : Options R → Option (Provider R)
  unfolding provider_with
  provider_of o =
      provider_with o o.hub_resolver o.remote_config_resolver o.token_requester o.sts_client_factory

module _ {R : Type 0} (parse_arn : String → Option String) (p : Provider R) where
  abbrev pub request_of : ResolveOptions
  request_of = record {
    workload_namespace = p.workload_namespace;
    role_name = p.role_name;
    service_account = p.service_account;
    region_override = p.region;
  }

  assumed : ErrorContext → Attempt Credentials → Attempt Credentials
  unfolding with_error_context
  assumed context (success c) = success c
  assumed context (failed e) = failed (with_error_context e context)

  with_client : ErrorContext → ResolvedRole → String → Option StsClient → Attempt Credentials
  unfolding assumed assume_role_with_web_identity
  with_client context resolved token none =
      failed (new_error Errors.invalid_options "STSClientFactory returned nil" none context)
  with_client context resolved token (some client) = assumed context (
      assume_role_with_web_identity parse_arn client resolved.role_arn token p.session_name
        p.session_duration)

  with_token : ErrorContext → ResolvedRole → String → Result String → Attempt Credentials
  unfolding with_client classify_token_request_error
  with_token context resolved region (err e) =
      failed (with_error_context (classify_token_request_error e) context)
  with_token context resolved region (ok token) =
      with_client context resolved token (p.sts_client_factory region)

  with_remote_config :
      ErrorContext → ResolvedRole → ResolvedClusterProfile → Attempt R → Attempt Credentials
  unfolding with_token
  with_remote_config context resolved profile (failed e) = failed (with_error_context e context)
  with_remote_config context resolved profile (success config) =
      let region = first_text p.region profile.aws_region resolved.region in
      if region == ""
      then failed (new_error Errors.region_not_ready "AWS region is empty" none context)
      else with_token context resolved region
          (p.token_requester config resolved.service_account sts_audience p.token_expiration)

  with_profile :
      ErrorContext → ResolvedRole → ResolvedClusterProfile × Attempt R → Attempt Credentials
  unfolding with_remote_config
  with_profile context resolved (profile, answer) =
      with_remote_config
        (record context {
          cluster_profile_ref = profile.ref;
          provider_name = profile.provider_name;
        })
        resolved profile answer

  with_resolved : Attempt ResolvedRole → Attempt Credentials
  unfolding with_profile uses_annotation_based_irsa delivery_of
  with_resolved (failed e) = failed (wrap_error "resolve remote IRSA role" e)
  with_resolved (success resolved) =
      let context : ErrorContext = record no_context {
        workload_namespace = resolved.workload_namespace;
        service_account = resolved.service_account;
        role_ref = resolved.role_ref;
      } in
      if not (uses_annotation_based_irsa (delivery_of resolved.delivery_type))
      then failed (
          new_error Errors.unsupported_delivery_type
            (cat (
              "delivery type "
              ∷ quote resolved.delivery_type
              ∷ " is not supported by remote IRSA"
              ∷ []))
            none context)
      else with_profile context resolved
          (p.remote_config_resolver resolved.workload_namespace p.access_config)

  -- Provider.Retrieve
  unfoldable pub retrieve : Attempt Credentials
  unfolding with_resolved
  retrieve = with_resolved (p.hub_resolver request_of)
