-- ===== src/Tests/Hub.antt =====
-- A hub with one config, one role and one ClusterProfile, and the dependencies of a Provider.
use aws_workload_identity_op.Prelude.{String, none, some, [], ◌∷◌}
use aws_workload_identity_op.Prelude.Int.{pos}
use aws_workload_identity_op.Api.Conditions.{Condition, status_true}
use aws_workload_identity_op.Api.Errors.{ok}
use aws_workload_identity_op.Api.Types.{Config, Role, NamespacedName, self_hosted_irsa}
use aws_workload_identity_op.RemoteIrsa.Options.{
  HubReader, AccessProvider, ClusterProfile, Options, Defaults, output, StsClient,
}
use aws_workload_identity_op.RemoteIrsa.HubResolver.{resolve}
use aws_workload_identity_op.RemoteIrsa.ClusterProfiles.{resolve_remote_config}
use aws_workload_identity_op.RemoteIrsa.Provider.{Provider}
use aws_workload_identity_op.Controller.Admission.{AdmissionReader}
use aws_workload_identity_op.Tests.Fixtures.{list_conditions}
use aws_workload_identity_op.Tests.World.{meta_of, web_spec, no_role_status}

abbrev pub ready_now : Condition
ready_now = record {
  condition_type = "Ready";
  report = record { status = status_true; observed_generation = 3; reason = "Ready"; message = "" };
  last_transition_time = none;
}

abbrev pub east_config : Config
east_config = record {
  meta = meta_of "east" "default";
  spec = record { delivery_type = self_hosted_irsa; region = "eu-west-1"; eks_irsa = none };
  status = record {
    observed_generation = 3;
    conditions = ready_now ∷ [];
    issuer_host_path = "";
    oidc_provider_arn = "";
    ack_resources = [];
    self_hosted_issuer = none;
    resolved_cluster_name = "";
    webhook_runtime_namespace = "";
    webhook_runtime_cert_not_after = none;
  };
}

abbrev pub bound_role : Role
bound_role = record {
  meta = meta_of "east" "web";
  spec = web_spec;
  status = record no_role_status {
    observed_generation = 3;
    conditions = ready_now ∷ [];
    role_arn = "arn:aws:iam::1:role/web";
  };
}

abbrev pub east_provider : AccessProvider
east_provider = record { name = "ocm"; details = "" }

abbrev pub east_profile : ClusterProfile
east_profile = record {
  namespace = "awio-system";
  name = "east";
  labels = [];
  access_providers = east_provider ∷ [];
  credential_providers = [];
  properties = [];
}

abbrev pub hub : HubReader
hub = record {
  get_config = λ n. ok east_config;
  get_role = λ n. ok bound_role;
  list_roles = λ ns. ok (bound_role ∷ []);
  list_cluster_profiles = λ ns labels. ok (east_profile ∷ []);
}

abbrev pub admission_hub : AdmissionReader
admission_hub = record { get_config = λ n. ok east_config; list_roles = λ ns limit. ok [] }

abbrev pub sts_client : StsClient
sts_client input = output (record {
  credentials = some (record {
    access_key_id = some "key";
    secret_access_key = some "secret";
    session_token = some "session";
    expiration = some 900;
  });
  assumed_role_arn = none;
})

abbrev pub web_account : NamespacedName
web_account = record { namespace = "web"; name = "frontend" }

abbrev pub web_options : Options String
web_options = record {
  hub_reader = some hub;
  cluster_profile_access_config = some (record { providers = east_provider ∷ [] });
  cluster_profile_namespaces = [];
  hub_resolver = none;
  remote_config_resolver = none;
  token_requester = none;
  workload_namespace = "east";
  role_name = "web";
  service_account = web_account;
  region = "";
  token_expiration = pos 0;
  session_duration = pos 0;
  session_name = "session";
  sts_client_factory = none;
}

abbrev pub web_defaults : Defaults String
web_defaults = record {
  new_sts_client = λ region. some sts_client;
  new_hub_resolver = λ reader opts. resolve list_conditions (some reader) opts;
  new_remote_config_resolver = λ reader namespaces.
      resolve_remote_config (λ access profile. ok "rest") namespaces (some reader);
  new_token_requester = λ config account audience expiration. ok "token";
}

abbrev pub web_provider : Provider String
web_provider = record {
  hub_resolver = resolve list_conditions (some hub);
  remote_config_resolver = resolve_remote_config (λ access profile. ok "rest") [] (some hub);
  token_requester = λ config account audience expiration. ok "token";
  sts_client_factory = λ region. some sts_client;
  access_config = some (record { providers = east_provider ∷ [] });
  workload_namespace = "east";
  role_name = "web";
  service_account = web_account;
  region = "";
  token_expiration = pos 900000000000;
  session_duration = pos 0;
  session_name = "session";
}
