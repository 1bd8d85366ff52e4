-- ===== src/Api/ConditionTypes.antt =====
-- Condition types of api/v1alpha1/condition_types.go.
use Prim.Native.String.{String}

abbrev pub operator_config_ready : String
operator_config_ready = "OperatorConfigReady"

abbrev pub cluster_profile_resolved : String
cluster_profile_resolved = "ClusterProfileResolved"

abbrev pub inventory_resolved : String
inventory_resolved = "InventoryResolved"

abbrev pub bucket_ready : String
bucket_ready = "BucketReady"

abbrev pub oidc_objects_published : String
oidc_objects_published = "OIDCObjectsPublished"

abbrev pub iam_provider_ready : String
iam_provider_ready = "IAMProviderReady"

abbrev pub issuer_ready : String
issuer_ready = "IssuerReady"

abbrev pub config_resolved : String
config_resolved = "ConfigResolved"

abbrev pub policy_ready : String
policy_ready = "PolicyReady"

abbrev pub role_ready : String
role_ready = "RoleReady"

abbrev pub trust_policy_ready : String
trust_policy_ready = "TrustPolicyReady"

abbrev pub service_account_annotation_ready : String
service_account_annotation_ready = "ServiceAccountAnnotationReady"

abbrev pub webhook_runtime_ready : String
webhook_runtime_ready = "WebhookRuntimeReady"

abbrev pub pod_identity_assoc_ready : String
pod_identity_assoc_ready = "PodIdentityAssociationReady"

abbrev pub pod_identity_agent_ready : String
pod_identity_agent_ready = "PodIdentityAgentReady"

abbrev pub delivery_ready : String
delivery_ready = "DeliveryReady"

abbrev pub ready : String
ready = "Ready"

abbrev pub deletion_blocked : String
deletion_blocked = "DeletionBlocked"

abbrev pub placement_resolved : String
placement_resolved = "PlacementResolved"

abbrev pub placement_rolled_out : String
placement_rolled_out = "PlacementRolledOut"

abbrev pub progressing : String
progressing = "Progressing"

abbrev pub service_account_roles_applied : String
service_account_roles_applied = "AWSServiceAccountRolesApplied"

abbrev pub service_account_roles_ready : String
service_account_roles_ready = "AWSServiceAccountRolesReady"

abbrev pub cleanup_blocked : String
cleanup_blocked = "CleanupBlocked"
