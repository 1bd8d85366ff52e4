-- ===== src/RemoteIrsa/Provider/Exchange.antt =====
-- What it takes to get credentials from Retrieve.
use aws_workload_identity_op.Prelude.{
  ◌≡◌, String, ◌==◌, true, false, none, some, Option, arith, refl, Bool-cases, inl, inr,
}
use aws_workload_identity_op.Api.Conditions.{StatusConditions}
use aws_workload_identity_op.Api.Delivery.{uses_annotation_based_irsa}
use aws_workload_identity_op.Api.Errors.{Result, ok, err}
use aws_workload_identity_op.Api.Types.{Config, Role}
use aws_workload_identity_op.RemoteIrsa.Errors.{Attempt, success, failed, ErrorContext}
use aws_workload_identity_op.RemoteIrsa.Options.{
  ResolvedRole, ResolvedClusterProfile, StsClient, sts_audience, HubReader,
}
use aws_workload_identity_op.RemoteIrsa.HubResolver.{resolve}
use aws_workload_identity_op.RemoteIrsa.HubResolver.Usable.{IsUsable, resolve-IsUsable}
use aws_workload_identity_op.RemoteIrsa.Sts.Assumed.{
  IsAssumed, assume_role_with_web_identity-IsAssumed,
}
use aws_workload_identity_op.RemoteIrsa.Sts.{Credentials, assume_role_with_web_identity}
use aws_workload_identity_op.RemoteIrsa.Provider.{
  Provider, retrieve, request_of, with_resolved, with_profile, with_remote_config, with_token,
  with_client, assumed, first_text, delivery_of,
}

module _ {R : Type 0} (parse_arn : String → Option String) (p : Provider R) (c : Credentials) where
  -- The exchange that gives the credentials, from a resolved role on.
  pub record IsExchange (resolved : ResolvedRole) (profile : ResolvedClusterProfile) (config : R)
      (token : String) (client : StsClient) : Type 0 where
    pub token_requested :
        p.token_requester config resolved.service_account sts_audience p.token_expiration ≡ ok token
    pub has_region : (first_text p.region profile.aws_region resolved.region == "") ≡ false
    pub client_made :
        p.sts_client_factory (first_text p.region profile.aws_region resolved.region) ≡ some client
    pub role_assumed : IsAssumed client resolved.role_arn token p.session_name c

  assumed-success :
      (context : ErrorContext) (a : Attempt Credentials)
      → assumed parse_arn p context a ≡ success c
      → a ≡ success c
  unfolding assumed
  assumed-success context (success x) h = h
  assumed-success context (failed e) h = ground arith

  with_client-success :
      (context : ErrorContext) (resolved : ResolvedRole) (token : String) (o : Option StsClient)
      → with_client parse_arn p context resolved token o ≡ success c
      → (client : StsClient) × (o ≡ some client)
        × (assume_role_with_web_identity parse_arn client resolved.role_arn token p.session_name
              p.session_duration
            ≡ success c)
  unfolding with_client
  with_client-success context resolved token none h = ground arith
  with_client-success context resolved token (some client) h =
      (client, refl, assumed-success context _ h)

  with_token-success :
      (context : ErrorContext) (resolved : ResolvedRole) (region : String) (answer : Result String)
      → with_token parse_arn p context resolved region answer ≡ success c
      → (token : String) × (client : StsClient) × (answer ≡ ok token)
        × (p.sts_client_factory region ≡ some client)
        × (assume_role_with_web_identity parse_arn client resolved.role_arn token p.session_name
              p.session_duration
            ≡ success c)
  unfolding with_token
  with_token-success context resolved region (err e) h = ground arith
  with_token-success context resolved region (ok token) h =
      let (client, made, done) = with_client-success context resolved token _ h in
      (token, client, refl, made, done)

  with_remote_config-IsExchange :
      (context : ErrorContext) (resolved : ResolvedRole) (profile : ResolvedClusterProfile)
      (answer : Attempt R)
      → with_remote_config parse_arn p context resolved profile answer ≡ success c
      → (config : R) × (token : String) × (client : StsClient) × (answer ≡ success config)
        × IsExchange resolved profile config token client
  unfolding with_remote_config
  with_remote_config-IsExchange context resolved profile (failed e) h = ground arith
  with_remote_config-IsExchange context resolved profile (success config) h =
      elim (Bool-cases (first_text p.region profile.aws_region resolved.region == "")) [
        | inl none_found ↦ ground arith
        | inr found ↦
            (let (token, client, asked, made, done) =
                with_token-success context resolved _ _ (simp found at h) in
              (
                config,
                token,
                client,
                refl,
                record {
                  token_requested = asked;
                  has_region = found;
                  client_made = made;
                  role_assumed =
                      assume_role_with_web_identity-IsAssumed parse_arn client resolved.role_arn
                        token p.session_name p.session_duration c done;
                },
              ))
      ]

  with_resolved-IsExchange :
      (answer : Attempt ResolvedRole)
      → with_resolved parse_arn p answer ≡ success c
      → (resolved : ResolvedRole) × (config : R) × (token : String) × (client : StsClient) × (answer
          ≡ success resolved)
        × (uses_annotation_based_irsa (delivery_of resolved.delivery_type) ≡ true)
        × (let remote = p.remote_config_resolver resolved.workload_namespace p.access_config in
            (remote.1 ≡ success config) × IsExchange resolved remote.0 config token client)
  unfolding with_resolved with_profile
  with_resolved-IsExchange (failed e) h = ground arith
  with_resolved-IsExchange (success resolved) h =
      elim (Bool-cases (uses_annotation_based_irsa (delivery_of resolved.delivery_type))) [
        | inr unsupported ↦ ground arith
        | inl supported ↦
            (let (config, token, client, found, exchange) =
                with_remote_config-IsExchange _ resolved _ _ (simp supported at h) in
              (resolved, config, token, client, refl, supported, (found, exchange)))
      ]

  -- With the default hub resolver, Retrieve gives credentials only if the config and the role of the
  -- requested service account are usable and the remote configuration was resolved: the token was
  -- requested from that remote cluster for the requested service account with the STS audience, and STS
  -- was asked for the role ARN of the role's status with that token, by a client of the first region
  -- given by the options, the ClusterProfile and the resolved role, and the credentials are those of
  -- its answer.
  pub retrieve-IsExchange :
      (k : StatusConditions) (reader : HubReader)
      → p.hub_resolver ≡ resolve k (some reader)
      → retrieve parse_arn p ≡ success c
      → (config : Config) × (role : Role) × (resolved : ResolvedRole) × IsUsable k reader
          (request_of parse_arn p)
          config
          role
          resolved
        × ((remote : R) × (token : String) × (client : StsClient) × (let found =
                p.remote_config_resolver resolved.workload_namespace p.access_config in
              (found.1 ≡ success remote) × IsExchange resolved found.0 remote token client))
  unfolding retrieve
  retrieve-IsExchange k reader default h =
      let (resolved, remote, token, client, answer, supported, (found, exchange)) =
        with_resolved-IsExchange (p.hub_resolver (request_of parse_arn p)) h in
      let (config, role, usable) =
        resolve-IsUsable k reader (request_of parse_arn p) resolved (rw (← default) answer) in
      (config, role, resolved, usable, (remote, token, client, (found, exchange)))
