-- ===== src/Inventory.antt =====
-- internal/inventory/resolver.go: the ClusterProfile of a workload namespace and its AWS identity.
pub mod Closed
use aws_workload_identity_op.Prelude.{
  ℕ, String, ◌==◌, Bool, true, false, not, ◌&&◌, if◌then◌else◌, Option, none, some, List, [], ◌∷◌,
  map, cat, join, quote,
}
use aws_workload_identity_op.Prelude.Maps.{Map, insert, lookup_text}
use aws_workload_identity_op.Api.Reasons
use aws_workload_identity_op.Api.Errors.{Failure, failure, wrap, Result, ok, err}
use aws_workload_identity_op.Api.Types.{NamespacedName, name_text, no_name}
use aws_workload_identity_op.RemoteIrsa.Options.{ClusterProfile}
use aws_workload_identity_op.RemoteIrsa.ClusterProfiles.{
  profile_ref, profile_labels, label_ocm_cluster_name, has_access_provider,
  partition_cluster_profiles_by_access,
}

pub record Resolution : Type 0 where
  pub cluster_name : NamespacedName
  pub ready : Bool
  pub reason : String
  pub message : String
  pub eks_cluster_name : String
  pub eks_cluster_arn : String
  pub aws_account_id : String
  pub aws_region : String
  pub aws_organization_id : String
  pub eks_auto_mode : Bool

-- The errors of findOCMClusterProfile: its three sentinels, and any other error.
pub data LookupError : Type 0 where
  profile_not_found profile_not_ready : LookupError
  ambiguous : String → List NamespacedName → LookupError
  list_failed : Failure → LookupError

pub data Lookup : Type 0 where
  found : ClusterProfile → Lookup
  missing : LookupError → Lookup

-- ambiguousOCMClusterProfileError.Error
ambiguous_text : String → List NamespacedName → String
ambiguous_text namespace matches = cat (
    "multiple OCM ClusterProfiles match cluster-name label "
    ∷ quote namespace
    ∷ " with AccessProviders: "
    ∷ join ", " (map name_text matches)
    ∷ [])

choose : String → List ClusterProfile → Lookup
choose namespace [] = missing profile_not_ready
choose namespace (p ∷ []) = found p
choose namespace (p ∷ q ∷ rest) = missing (ambiguous namespace (map profile_ref (p ∷ q ∷ rest)))

lookup_in : String → Result (List ClusterProfile) → Lookup
unfolding choose partition_cluster_profiles_by_access
lookup_in namespace (err e) = missing (
    list_failed
      (wrap (cat ("list OCM ClusterProfiles for workload namespace " ∷ quote namespace ∷ [])) e))
lookup_in namespace (ok []) = missing profile_not_found
lookup_in namespace (ok (p ∷ ps)) = choose namespace (partition_cluster_profiles_by_access (p ∷ ps))

-- client.Reader at a List of ClusterProfiles by labels.
abbrev pub ProfileLister : Type 0
ProfileLister = Map String → Result (List ClusterProfile)

-- findOCMClusterProfile
unfoldable pub find_ocm_cluster_profile : ProfileLister → String → Lookup
unfolding lookup_in
find_ocm_cluster_profile list namespace = lookup_in namespace (list (profile_labels namespace))

-- propertyMap
unfoldable pub property_map : List (String × String) → Map String → Map String
property_map [] m = m
property_map (p ∷ ps) m = property_map ps (insert p.0 p.1 m)

-- logicalClusterName
unfoldable pub logical_cluster_name : ClusterProfile → NamespacedName
unfolding lookup_text
logical_cluster_name p =
    let labelled = lookup_text label_ocm_cluster_name p.labels in
    let name = if not (labelled == "") then labelled else p.name in
    record { namespace = name; name = name }

-- WorkloadNamespaceForClusterProfile
unfoldable pub workload_namespace_for_cluster_profile : ClusterProfile → String
unfolding lookup_text
workload_namespace_for_cluster_profile p = lookup_text label_ocm_cluster_name p.labels

-- resolutionForProfile
unfoldable pub resolution_for_profile : ClusterProfile → Resolution
unfolding property_map logical_cluster_name
resolution_for_profile p =
    let properties = property_map p.properties [] in
    record {
      cluster_name = logical_cluster_name p;
      ready = true;
      reason = Reasons.resolved;
      message = "ClusterProfile resolved";
      eks_cluster_name = lookup_text "aws.identity.appthrust.io/eks-cluster-name" properties;
      eks_cluster_arn = lookup_text "aws.identity.appthrust.io/eks-cluster-arn" properties;
      aws_account_id = lookup_text "aws.identity.appthrust.io/aws-account-id" properties;
      aws_region = lookup_text "aws.identity.appthrust.io.aws-region" properties;
      aws_organization_id = lookup_text "aws.identity.appthrust.io/aws-organization-id" properties;
      eks_auto_mode = lookup_text "aws.identity.appthrust.io/eks-auto-mode" properties == "true";
    }

abbrev pub not_ready : NamespacedName → String → String → Resolution
not_ready cluster_name reason message = record {
  cluster_name = cluster_name;
  ready = false;
  reason = reason;
  message = message;
  eks_cluster_name = "";
  eks_cluster_arn = "";
  aws_account_id = "";
  aws_region = "";
  aws_organization_id = "";
  eks_auto_mode = false;
}

unprovisioned_text : String → String → String
unprovisioned_text what namespace = cat (
    what ∷ "ClusterProfile for workload namespace " ∷ namespace
    ∷ " exists but has not been provisioned with access providers yet" ∷ [])

resolution_of : String → Lookup → Result Resolution
unfolding ambiguous_text unprovisioned_text resolution_for_profile has_access_provider
resolution_of namespace (found p) =
    if not (has_access_provider p)
    then ok (
        not_ready (logical_cluster_name p) Reasons.inventory_unavailable
          (unprovisioned_text "" namespace))
    else ok (resolution_for_profile p)
resolution_of namespace (missing profile_not_ready) = ok (
    not_ready (record { namespace = namespace; name = namespace }) Reasons.inventory_unavailable
      (unprovisioned_text "OCM " namespace))
resolution_of namespace (missing profile_not_found) = ok (
    not_ready (record { namespace = namespace; name = namespace }) Reasons.cluster_profile_not_found
      (cat ("ClusterProfile for workload namespace " ∷ namespace ∷ " was not found" ∷ [])))
resolution_of namespace (missing (ambiguous n matches)) = ok (
    not_ready (record { namespace = namespace; name = namespace }) Reasons.inventory_ambiguous
      (ambiguous_text n matches))
resolution_of namespace (missing (list_failed e)) = err e

-- Resolver.Resolve; `none` is a nil client.
unfoldable pub resolve_inventory : Option ProfileLister → String → Result Resolution
unfolding resolution_of find_ocm_cluster_profile
resolve_inventory none namespace = err (failure "inventory resolver client is nil")
resolve_inventory (some list) namespace =
    resolution_of namespace (find_ocm_cluster_profile list namespace)

-- Resolution.RequireEKS
unfoldable pub require_eks : Resolution → Option Failure
require_eks r =
    if not r.ready
    then some (failure (cat (r.reason ∷ ": " ∷ r.message ∷ [])))
    else if r.eks_cluster_name == ""
    then some (failure "missing EKS cluster name property")
    else if r.eks_cluster_arn == ""
    then some (failure "missing EKS cluster ARN property")
    else if r.aws_account_id == ""
    then some (failure "missing AWS account ID property")
    else none
