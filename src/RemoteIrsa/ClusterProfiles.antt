-- ===== src/RemoteIrsa/ClusterProfiles.antt =====
-- The ClusterProfiles of pkg/remoteirsa/resolve.go: remoteConfigResolver and the functions that it and
-- internal/inventory share.
pub mod Choice
use aws_workload_identity_op.Prelude.{
  ℕ, String, ◌==◌, Bool, true, false, not, ◌&&◌, ◌||◌, if◌then◌else◌, Option, none, some, List, [],
  ◌∷◌, ◌++◌, select, any, find_first, map, cat, join, quote, length, ltb,
}
use aws_workload_identity_op.Prelude.Sorting.{sort, str_le, str_lt}
use aws_workload_identity_op.Prelude.Maps.{Map}
use aws_workload_identity_op.Api.Errors.{Failure, Result, ok, err, ◌>>=◌}
use aws_workload_identity_op.Api.Types.{NamespacedName, name_text, no_name}
use aws_workload_identity_op.RemoteIrsa.Errors
use aws_workload_identity_op.RemoteIrsa.Errors.{
  ErrorReason, ErrorContext, no_context, IrsaError, Attempt, success, failed, new_error,
}
use aws_workload_identity_op.RemoteIrsa.Options.{
  HubReader, AccessProvider, AccessConfig, ClusterProfile, ResolvedClusterProfile,
  no_cluster_profile,
}

abbrev pub label_ocm_cluster_name : String
label_ocm_cluster_name = "open-cluster-management.io/cluster-name"

abbrev pub ocm_cluster_profile_manager_name : String
ocm_cluster_profile_manager_name = "open-cluster-management"

abbrev pub property_aws_region : String
property_aws_region = "aws.identity.appthrust.io.aws-region"

-- LabelClusterManagerKey of the cluster-inventory API.
abbrev pub label_cluster_manager_key : String
label_cluster_manager_key = "x-k8s.io/cluster-manager"

abbrev pub profile_ref : ClusterProfile → NamespacedName
profile_ref p = record { namespace = p.namespace; name = p.name }

-- cmp.Or of the comparisons of the namespaces and of the names.
abbrev pub profile_le : ClusterProfile → ClusterProfile → Bool
profile_le a b =
    str_lt a.namespace b.namespace || ((a.namespace == b.namespace) && str_le a.name b.name)

-- `len(profile.Status.AccessProviders) > 0`
unfoldable pub has_access_provider : ClusterProfile → Bool
has_access_provider p = ltb 0 (length p.access_providers)

-- PartitionClusterProfilesByAccess: the items that have access providers, in order.
unfoldable pub partition_cluster_profiles_by_access : List ClusterProfile → List ClusterProfile
unfolding has_access_provider
partition_cluster_profiles_by_access items = select has_access_provider (sort profile_le items)

-- normalizeResolverClusterProfileNamespaces; strings.TrimSpace is a parameter. `none` is the early
-- return of nil at "*".
normalized : (String → String) → List String → List String → Option (List String)
normalized trim seen [] = some seen
normalized trim seen (namespace ∷ rest) =
    let skip = normalized trim seen rest in
    let keep = normalized trim (seen ++ trim namespace ∷ []) rest in
    if trim namespace == ""
    then skip
    else if trim namespace == "*"
    then none
    else if any (λ x. x == trim namespace) seen
    then skip
    else keep

sorted_or_nil : Option (List String) → List String
sorted_or_nil none = []
sorted_or_nil (some namespaces) = sort str_le namespaces

unfoldable pub normalize_cluster_profile_namespaces : (String → String) → List String → List String
unfolding normalized sorted_or_nil
normalize_cluster_profile_namespaces trim namespaces = sorted_or_nil (normalized trim [] namespaces)

abbrev pub profile_labels : String → Map String
profile_labels workload_namespace =
    (label_ocm_cluster_name, workload_namespace)
    ∷ (label_cluster_manager_key, ocm_cluster_profile_manager_name)
    ∷ []

list_in : HubReader → Map String → List String → Result (List ClusterProfile)
list_in reader labels [] = ok []
list_in reader labels (namespace ∷ rest) =
    reader.list_cluster_profiles (some namespace) labels >>= λ scoped.
    list_in reader labels rest >>= λ later. ok (scoped ++ later)

-- listClusterProfiles
unfoldable pub list_cluster_profiles :
    HubReader → List String → String → Result (List ClusterProfile)
unfolding list_in
list_cluster_profiles reader [] workload_namespace =
    reader.list_cluster_profiles none (profile_labels workload_namespace)
list_cluster_profiles reader (n ∷ ns) workload_namespace =
    list_in reader (profile_labels workload_namespace) (n ∷ ns)

abbrev at_profile : String → NamespacedName → ErrorContext
at_profile workload_namespace ref = record no_context {
  workload_namespace = workload_namespace;
  cluster_profile_ref = ref;
}

first_ref : List ClusterProfile → NamespacedName
first_ref [] = no_name
first_ref (p ∷ ps) = profile_ref p

-- The switch on the ready profiles; the first argument is the sorted list of all.
only_ready : String → List ClusterProfile → List ClusterProfile → Attempt ClusterProfile
unfolding first_ref
only_ready workload_namespace sorted [] = failed (
    new_error Errors.missing_inventory_access
      "OCM ClusterProfiles matched but none has status.accessProviders" none
      (at_profile workload_namespace (first_ref sorted)))
only_ready workload_namespace sorted (p ∷ []) = success p
only_ready workload_namespace sorted (p ∷ q ∷ rest) = failed (
    new_error Errors.multiple_cluster_profiles
      (cat (
        "multiple OCM ClusterProfiles carry AccessProviders for cluster-name label "
        ∷ quote workload_namespace
        ∷ ": "
        ∷ join ", " (map (λ x. name_text (profile_ref x)) (p ∷ q ∷ rest))
        ∷ []))
      none (at_profile workload_namespace (profile_ref p)))

choose_profile : String → Result (List ClusterProfile) → Attempt ClusterProfile
unfolding only_ready partition_cluster_profiles_by_access
choose_profile workload_namespace (err e) = failed (
    new_error Errors.missing_inventory_access "list OCM ClusterProfiles by cluster-name label"
      (some e) (at_profile workload_namespace no_name))
choose_profile workload_namespace (ok []) = failed (
    new_error Errors.missing_inventory_access
      "ClusterProfile was not found by OCM cluster-name label" none
      (at_profile workload_namespace no_name))
choose_profile workload_namespace (ok (p ∷ ps)) =
    only_ready workload_namespace (sort profile_le (p ∷ ps))
      (partition_cluster_profiles_by_access (p ∷ ps))

-- resolveClusterProfile
unfoldable pub resolve_cluster_profile : HubReader → List String → String → Attempt ClusterProfile
unfolding choose_profile list_cluster_profiles
resolve_cluster_profile reader namespaces workload_namespace =
    choose_profile workload_namespace (list_cluster_profiles reader namespaces workload_namespace)

provider_name_of : Option AccessProvider → String
provider_name_of none = ""
provider_name_of (some p) = p.name

-- selectedAccessProviderName of an access config and a profile that are not nil.
unfoldable pub selected_access_provider_name : AccessConfig → ClusterProfile → String
unfolding provider_name_of
selected_access_provider_name config profile =
    provider_name_of
      (find_first (λ p. any (λ q. q.name == p.name) profile.access_providers) config.providers)

property_value : Option (String × String) → String
property_value none = ""
property_value (some p) = p.1

-- clusterProfileProperty: the first property of the name.
unfoldable pub cluster_profile_property : ClusterProfile → String → String
unfolding property_value
cluster_profile_property profile name =
    property_value (find_first (λ p. p.0 == name) profile.properties)

-- accessProviderOnlyProfile
abbrev pub access_provider_only_profile : ClusterProfile → ClusterProfile
access_provider_only_profile p = record p { credential_providers = [] }

-- The parameters are BuildConfigFromCP of the cluster-inventory API and the namespaces of the resolver.
-- CloneAccessConfig copies its argument, which is a value here.
module _ {R : Type 0} (build_config : AccessConfig → ClusterProfile → Result R)
    (namespaces : List String) where
  built : ErrorContext → Result R → Attempt R
  built context (ok config) = success config
  built context (err e) = failed (
      new_error Errors.missing_inventory_access
        "build remote Kubernetes rest.Config from ClusterProfile status.accessProviders" (some e)
        context)

  with_profile : String → AccessConfig → Attempt ClusterProfile → ResolvedClusterProfile × Attempt R
  unfolding selected_access_provider_name cluster_profile_property built
  with_profile workload_namespace config (failed e) = (no_cluster_profile, failed e)
  with_profile workload_namespace config (success profile) =
      let resolved : ResolvedClusterProfile = record {
        ref = profile_ref profile;
        provider_name = selected_access_provider_name config profile;
        aws_region = cluster_profile_property profile property_aws_region;
      } in
      let context : ErrorContext = record no_context {
        workload_namespace = workload_namespace;
        cluster_profile_ref = resolved.ref;
        provider_name = resolved.provider_name;
      } in
      (
        resolved,
        (if not (has_access_provider profile)
            then failed (
                new_error Errors.missing_inventory_access
                  "ClusterProfile has no status.accessProviders" none context)
            else if resolved.provider_name == ""
            then failed (
                new_error Errors.missing_inventory_access
                  "ClusterProfile has no status.accessProviders entry matching the access config"
                  none context)
            else built context (build_config config (access_provider_only_profile profile))),
      )

  -- ResolveRemoteConfig
  unfoldable pub resolve_remote_config :
      Option HubReader → String → Option AccessConfig → ResolvedClusterProfile × Attempt R
  unfolding with_profile resolve_cluster_profile
  resolve_remote_config none workload_namespace config = (
    no_cluster_profile,
    failed (
        new_error Errors.invalid_options "HubReader is nil" none
          (at_profile workload_namespace no_name)),
  )
  resolve_remote_config (some reader) workload_namespace none = (
    no_cluster_profile,
    failed (
        new_error Errors.missing_inventory_access "ClusterProfile access config is nil" none
          (at_profile workload_namespace no_name)),
  )
  resolve_remote_config (some reader) workload_namespace (some config) =
      with_profile workload_namespace config
        (resolve_cluster_profile reader namespaces workload_namespace)
