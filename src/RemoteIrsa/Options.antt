-- ===== src/RemoteIrsa/Options.antt =====
-- pkg/remoteirsa/options.go. Durations are int64 numbers of nanoseconds.
pub mod Validation
use aws_workload_identity_op.Prelude.{
  ℕ, String, ◌==◌, Bool, true, false, not, ◌&&◌, ◌||◌, if◌then◌else◌, Option, none, some, List, [],
  ◌∷◌, is_some, ◌*◌,
}
use aws_workload_identity_op.Prelude.Int.{ℤ, pos, negsuc, ltb_ℤ, leb_ℤ}
use aws_workload_identity_op.Prelude.Maps.{Map}
use aws_workload_identity_op.Api.Conditions.{StatusConditions}
use aws_workload_identity_op.Api.Errors.{Failure, Result}
use aws_workload_identity_op.Api.Types.{Config, Role, NamespacedName}
use aws_workload_identity_op.RemoteIrsa.Errors.{
  ErrorReason, ErrorContext, no_context, IrsaError, Attempt, new_error, invalid_options,
}

abbrev pub sts_audience : String
sts_audience = "sts.amazonaws.com"

abbrev pub second : ℕ
second = 1000000000

abbrev pub default_token_expiration : ℤ
default_token_expiration = pos 900000000000

abbrev pub min_sts_session_duration : ℤ
min_sts_session_duration = pos 900000000000

abbrev pub max_sts_session_duration : ℤ
max_sts_session_duration = pos 43200000000000

-- access.Provider and access.Config of the cluster-inventory API: the names, and the rest, which only
-- that library reads.
pub record AccessProvider : Type 0 where
  pub name : String
  pub details : String

pub record AccessConfig : Type 0 where
  pub providers : List AccessProvider

-- What the code reads of a ClusterProfile of the cluster-inventory API.
pub record ClusterProfile : Type 0 where
  pub namespace : String
  pub name : String
  pub labels : Map String
  pub access_providers : List AccessProvider
  pub credential_providers : List AccessProvider
  pub properties : List (String × String)

-- client.Reader, at the objects that the package reads. A list of ClusterProfiles is scoped to one
-- namespace, or to none, and to the labels.
pub record HubReader : Type 0 where
  pub get_config : NamespacedName → Result Config
  pub get_role : NamespacedName → Result Role
  pub list_roles : String → Result (List Role)
  pub list_cluster_profiles : Option String → Map String → Result (List ClusterProfile)

pub record ResolveOptions : Type 0 where
  pub workload_namespace : String
  pub role_name : String
  pub service_account : NamespacedName
  pub region_override : String

pub record ResolvedRole : Type 0 where
  pub workload_namespace : String
  pub config_ref : NamespacedName
  pub role_ref : NamespacedName
  pub service_account : NamespacedName
  pub role_arn : String
  pub region : String
  pub delivery_type : String

pub record ResolvedClusterProfile : Type 0 where
  pub ref : NamespacedName
  pub provider_name : String
  pub aws_region : String

abbrev pub no_cluster_profile : ResolvedClusterProfile
no_cluster_profile = record {
  ref = record { namespace = ""; name = "" };
  provider_name = "";
  aws_region = "";
}

-- The credentials and the answer of STS; a missing pointer is `none`.
pub record StsCredentials : Type 0 where
  pub access_key_id : Option String
  pub secret_access_key : Option String
  pub session_token : Option String
  pub expiration : Option ℕ

pub record StsOutput : Type 0 where
  pub credentials : Option StsCredentials
  pub assumed_role_arn : Option String

pub record StsInput : Type 0 where
  pub role_arn : String
  pub role_session_name : String
  pub web_identity_token : String
  pub duration_seconds : Option ℕ

-- An error of the AWS SDK: its code, where it is an API error.
pub record StsError : Type 0 where
  pub code : Option String
  pub failure : Failure

pub data StsAnswer : Type 0 where
  no_output : StsAnswer
  output : StsOutput → StsAnswer
  sts_error : StsError → StsAnswer

abbrev pub StsClient : Type 0
StsClient = StsInput → StsAnswer

-- The interfaces of the package, over the type of a rest.Config. A resolver of the remote
-- configuration returns the ClusterProfile with an error too.
abbrev pub HubResolver : Type 0
HubResolver = ResolveOptions → Attempt ResolvedRole

abbrev pub RemoteConfigResolver : Type 0 → Type 0
RemoteConfigResolver R = String → Option AccessConfig → ResolvedClusterProfile × Attempt R

-- RequestServiceAccountToken: the service account, the audience and the expiration.
abbrev pub TokenRequester : Type 0 → Type 0
TokenRequester R = R → NamespacedName → String → ℤ → Result String

pub record Options (R : Type 0) : Type 0 where
  pub hub_reader : Option HubReader
  pub cluster_profile_access_config : Option AccessConfig
  pub cluster_profile_namespaces : List String
  pub hub_resolver : Option HubResolver
  pub remote_config_resolver : Option (RemoteConfigResolver R)
  pub token_requester : Option (TokenRequester R)
  pub workload_namespace : String
  pub role_name : String
  pub service_account : NamespacedName
  pub region : String
  pub token_expiration : ℤ
  pub session_duration : ℤ
  pub session_name : String
  pub sts_client_factory : Option (String → Option StsClient)

-- The defaults that setDefaults fills in.
pub record Defaults (R : Type 0) : Type 0 where
  pub new_sts_client : String → Option StsClient
  pub new_hub_resolver : HubReader → HubResolver
  pub new_remote_config_resolver : HubReader → List String → RemoteConfigResolver R
  pub new_token_requester : TokenRequester R

abbrev pub or_default {ℓ} : {A : Type ℓ} → Option A → A → Option A
or_default none a = some a
or_default (some b) a = some b

abbrev pub or_from_reader {ℓ} :
    {A : Type ℓ} → Option A → Option HubReader → (HubReader → A) → Option A
or_from_reader (some a) reader f = some a
or_from_reader none none f = none
or_from_reader none (some reader) f = some (f reader)

is_zero_ℤ : ℤ → Bool
is_zero_ℤ d = leb_ℤ d (pos 0) && leb_ℤ (pos 0) d

invalid : ErrorContext → Option String → Option IrsaError
invalid context none = none
invalid context (some message) = some (new_error invalid_options message none context)

module _ {R : Type 0} where
  -- Options.setDefaults
  unfoldable pub set_defaults : Defaults R → Options R → Options R
  unfolding is_zero_ℤ
  set_defaults d o = record o {
    token_expiration =
        if is_zero_ℤ o.token_expiration then default_token_expiration else o.token_expiration;
    sts_client_factory = or_default o.sts_client_factory d.new_sts_client;
    hub_resolver = or_from_reader o.hub_resolver o.hub_reader d.new_hub_resolver;
    remote_config_resolver =
        or_from_reader o.remote_config_resolver o.hub_reader
          (λ reader. d.new_remote_config_resolver reader o.cluster_profile_namespaces);
    token_requester = or_default o.token_requester d.new_token_requester;
  }

  -- The message of the first case of the switch that holds.
  invalid_option : Options R → Option String
  invalid_option o =
      if o.workload_namespace == ""
      then some "WorkloadNamespace is required"
      else if (o.service_account.namespace == "") || (o.service_account.name == "")
      then some "ServiceAccount namespace and name are required"
      else if o.session_name == ""
      then some "SessionName is required"
      else if not (is_some o.hub_resolver)
      then some "HubReader or HubResolver is required"
      else if not (is_some o.remote_config_resolver)
      then some "HubReader or RemoteConfigResolver is required"
      else if not (is_some o.token_requester)
      then some "TokenRequester is required"
      else if not (is_some o.sts_client_factory)
      then some "STSClientFactory is required"
      else if leb_ℤ o.token_expiration (pos 0)
      then some "TokenExpiration must be greater than zero"
      else if ltb_ℤ (pos 0) o.token_expiration && ltb_ℤ o.token_expiration (pos second)
      then some "TokenExpiration must be at least one second"
      else if ltb_ℤ o.session_duration (pos 0)
      then some "SessionDuration cannot be negative"
      else if ltb_ℤ (pos 0) o.session_duration && ltb_ℤ o.session_duration min_sts_session_duration
      then some "SessionDuration must be at least 15m0s when set"
      else if ltb_ℤ max_sts_session_duration o.session_duration
      then some "SessionDuration must be at most 12h0m0s"
      else none

  -- Options.validate
  unfoldable pub validate : Options R → Option IrsaError
  unfolding invalid_option invalid
  validate o =
      invalid
        (record no_context {
          workload_namespace = o.workload_namespace;
          service_account = o.service_account;
        })
        (invalid_option o)
