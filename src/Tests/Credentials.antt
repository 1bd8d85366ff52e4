-- ===== src/Tests/Credentials.antt =====
-- Examples of the theorems on remote credentials, the inventory and admission.
use aws_workload_identity_op.Prelude.{◌≡◌, refl, String, true, none, some, [], ◌∷◌, ◌↔◌}
use aws_workload_identity_op.Api.Errors.{ok}
use aws_workload_identity_op.Api.Types.{Config, Role}
use aws_workload_identity_op.RemoteIrsa.Errors
use aws_workload_identity_op.RemoteIrsa.Errors.{
  with_error_context, reason_of, temporary, success, Attempt, new_error, no_context, ErrorContext,
  fill,
}
use aws_workload_identity_op.RemoteIrsa.Options.{
  validate, set_defaults, ResolveOptions, ResolvedRole, StsClient,
}
use aws_workload_identity_op.RemoteIrsa.Options.Validation.{IsComplete, validate-IsComplete}
use aws_workload_identity_op.RemoteIrsa.HubResolver.{resolve, resolve_role, not_ready}
use aws_workload_identity_op.RemoteIrsa.HubResolver.Usable.{IsUsable, resolve-IsUsable}
use aws_workload_identity_op.RemoteIrsa.ClusterProfiles.{
  resolve_cluster_profile, list_cluster_profiles, resolve_remote_config,
  selected_access_provider_name, cluster_profile_property, has_access_provider,
  partition_cluster_profiles_by_access,
}
use aws_workload_identity_op.RemoteIrsa.ClusterProfiles.Choice.{
  IsChoice, resolve_cluster_profile-IsChoice,
}
use aws_workload_identity_op.RemoteIrsa.Sts.{
  Credentials, assume_role_with_web_identity, account_id_of,
}
use aws_workload_identity_op.RemoteIrsa.Provider.{new_provider, retrieve, request_of, delivery_of}
use aws_workload_identity_op.RemoteIrsa.Provider.Exchange.{IsExchange, retrieve-IsExchange}
use aws_workload_identity_op.Api.Delivery.{uses_annotation_based_irsa}
use aws_workload_identity_op.Prelude.Sorting.{sort, insert_sorted}
use aws_workload_identity_op.Inventory.{resolve_inventory}
use aws_workload_identity_op.Inventory.Closed.{IsClosed, resolve_inventory-IsClosed}
use aws_workload_identity_op.Controller.Admission.{validate_role_create}
use aws_workload_identity_op.Controller.Admission.Bindings.{
  IsLive, IsUnbound, validate_role_create-none,
}
use aws_workload_identity_op.Tests.Fixtures.{list_conditions}
use aws_workload_identity_op.Tests.Hub.{
  east_config, bound_role, east_profile, hub, admission_hub, web_options, web_defaults,
  web_provider, web_account,
}

abbrev denied : Errors.IrsaError
denied = new_error Errors.sts_access_denied "denied" none no_context

abbrev web_context : ErrorContext
web_context = record no_context { workload_namespace = "east" }

validate-IsComplete_example :
    (validate (set_defaults web_defaults web_options) ≡ none)
    ↔ IsComplete (set_defaults web_defaults web_options)
validate-IsComplete_example = validate-IsComplete (set_defaults web_defaults web_options)

constructed :
    new_provider web_defaults web_options ≡ success (set_defaults web_defaults web_options)
unfolding new_provider set_defaults validate
constructed = refl

abbrev web_request : ResolveOptions
web_request = record {
  workload_namespace = "east";
  role_name = "web";
  service_account = web_account;
  region_override = "";
}

abbrev web_resolved : ResolvedRole
web_resolved = record {
  workload_namespace = "east";
  config_ref = record { namespace = "east"; name = "default" };
  role_ref = record { namespace = "east"; name = "web" };
  service_account = web_account;
  role_arn = "arn:aws:iam::1:role/web";
  region = "eu-west-1";
  delivery_type = "SelfHostedIRSA";
}

resolved : resolve list_conditions (some hub) web_request ≡ success web_resolved
unfolding resolve resolve_role not_ready uses_annotation_based_irsa
resolved = refl

resolve-IsUsable_example :
    (config : Config) × (role : Role) × IsUsable list_conditions hub web_request config role
      web_resolved
resolve-IsUsable_example = resolve-IsUsable list_conditions hub web_request web_resolved resolved

abbrev web_credentials : Credentials
web_credentials = record {
  access_key_id = "key";
  secret_access_key = "secret";
  session_token = "session";
  source = "RemoteIRSAAssumeRoleWithWebIdentity";
  can_expire = true;
  expires = 900;
  account_id = "";
}

retrieved : retrieve (λ arn. none) web_provider ≡ success web_credentials
unfolding retrieve resolve resolve_role not_ready uses_annotation_based_irsa delivery_of
    resolve_remote_config resolve_cluster_profile list_cluster_profiles
    partition_cluster_profiles_by_access has_access_provider selected_access_provider_name
    cluster_profile_property assume_role_with_web_identity account_id_of sort insert_sorted
retrieved = refl

retrieve-IsExchange_example :
    (config : Config) × (role : Role) × (resolved : ResolvedRole) × IsUsable list_conditions hub
      (request_of (λ arn. none) web_provider)
      config
      role
      resolved
    × ((remote : String) × (token : String) × (client : StsClient) × (let found =
            web_provider.remote_config_resolver resolved.workload_namespace
              web_provider.access_config in
          (found.1 ≡ success remote)
          × IsExchange
              (λ arn. none)
              web_provider
              web_credentials
              resolved
              found.0
              remote
              token
              client))
retrieve-IsExchange_example =
    retrieve-IsExchange (λ arn. none) web_provider web_credentials list_conditions hub refl
      retrieved

listed : list_cluster_profiles hub [] "east" ≡ ok (east_profile ∷ [])
unfolding list_cluster_profiles
listed = refl

resolve_cluster_profile-IsChoice_example :
    IsChoice (east_profile ∷ []) (resolve_cluster_profile hub [] "east")
resolve_cluster_profile-IsChoice_example =
    resolve_cluster_profile-IsChoice hub [] "east" (east_profile ∷ []) listed

abbrev same_text : String → String
same_text s = s

resolve_inventory-IsClosed_example :
    IsClosed
      (east_profile ∷ [])
      (resolve_inventory (some (λ labels. ok (east_profile ∷ []))) "east")
resolve_inventory-IsClosed_example =
    resolve_inventory-IsClosed (λ labels. ok (east_profile ∷ [])) "east" (east_profile ∷ []) refl

validate_role_create-none_example :
    (validate_role_create (some admission_hub) bound_role ≡ none)
    ↔ IsLive (ok east_config) × IsUnbound bound_role (ok [])
validate_role_create-none_example = validate_role_create-none admission_hub bound_role
