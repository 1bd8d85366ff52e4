-- ===== src/Api/Types.antt =====
-- The custom resources: awsserviceaccountrole_types.go, awsworkloadidentityconfig_types.go and
-- ack_resource_types.go, with the metadata that the controllers read.
use aws_workload_identity_op.Prelude.{
  ℕ, String, Bool, Option, List, ◌&&◌, ◌==◌, if◌then◌else◌, cat, [], ◌∷◌,
}
use aws_workload_identity_op.Prelude.Maps.{Map, lookup_text}
use aws_workload_identity_op.Api.Conditions.{Condition, ConditionStatus}
use aws_workload_identity_op.Api.Constants.{force_delete_annotation}

-- types.NamespacedName
pub record NamespacedName : Type 0 where
  pub namespace : String
  pub name : String

abbrev pub same_name : NamespacedName → NamespacedName → Bool
same_name a b = (a.namespace == b.namespace) && (a.name == b.name)

-- NamespacedName.String
abbrev pub name_text : NamespacedName → String
name_text n = cat (n.namespace ∷ "/" ∷ n.name ∷ [])

abbrev pub no_name : NamespacedName
no_name = record { namespace = ""; name = "" }

-- metav1.ObjectMeta. `deleting` is a deletion timestamp that is set.
pub record ObjectMeta : Type 0 where
  pub namespace : String
  pub name : String
  pub uid : String
  pub generation : ℕ
  pub labels : Map String
  pub annotations : Map String
  pub finalizers : List String
  pub deleting : Bool

-- client.ObjectKeyFromObject
abbrev pub object_key : ObjectMeta → NamespacedName
object_key m = record { namespace = m.namespace; name = m.name }

pub data DeliveryType : Type 0 where
  self_hosted_irsa eks_pod_identity eks_irsa : DeliveryType
  other_delivery : String → DeliveryType

pub record ServiceAccountSubject : Type 0 where
  pub namespace : String
  pub name : String

pub record RoleSpec : Type 0 where
  pub service_account : ServiceAccountSubject
  pub policy_arns : List String
  pub policy_document : Option String

pub record AckResourceCondition : Type 0 where
  pub condition_type : String
  pub status : ConditionStatus
  pub last_transition_time : Option ℕ
  pub reason : String
  pub message : String

pub record AckResourceStatus : Type 0 where
  pub api_version : String
  pub kind : String
  pub namespace : String
  pub name : String
  pub conditions : List AckResourceCondition

pub record RoleStatus : Type 0 where
  pub observed_generation : ℕ
  pub conditions : List Condition
  pub ack_resources : List AckResourceStatus
  pub role_arn : String
  pub generated_policy_arn : String
  -- `other_delivery ""` before the first resolution.
  pub delivery_type : DeliveryType
  pub resolved_cluster_name : String

pub record Role : Type 0 where
  pub meta : ObjectMeta
  pub spec : RoleSpec
  pub status : RoleStatus

pub data OidcProviderManagement : Type 0 where
  managed external : OidcProviderManagement
  other_management : String → OidcProviderManagement

pub record EksIrsaOidcProviderConfig : Type 0 where
  pub management : OidcProviderManagement
  pub arn : String

pub record EksIrsaConfig : Type 0 where
  pub issuer_url : String
  pub oidc_provider : EksIrsaOidcProviderConfig

pub record ConfigSpec : Type 0 where
  pub delivery_type : DeliveryType
  pub region : String
  pub eks_irsa : Option EksIrsaConfig

pub record IssuerPublicationStatus : Type 0 where
  pub bucket_name : String
  pub issuer_url : String
  pub signing_key_id : String
  pub object_set_digest : String

pub record SelfHostedIssuerStatus : Type 0 where
  pub bucket_name : String
  pub publication : Option IssuerPublicationStatus

pub record ConfigStatus : Type 0 where
  pub observed_generation : ℕ
  pub conditions : List Condition
  pub ack_resources : List AckResourceStatus
  pub self_hosted_issuer : Option SelfHostedIssuerStatus
  pub issuer_host_path : String
  pub oidc_provider_arn : String
  pub resolved_cluster_name : String
  pub webhook_runtime_namespace : String
  pub webhook_runtime_cert_not_after : Option ℕ

pub record Config : Type 0 where
  pub meta : ObjectMeta
  pub spec : ConfigSpec
  pub status : ConfigStatus

-- AWSWorkloadIdentityConfigStatus.IssuerURL
unfoldable pub issuer_url : ConfigStatus → String
issuer_url s = if s.issuer_host_path == "" then "" else cat ("https://" ∷ s.issuer_host_path ∷ [])

-- AWSWorkloadIdentityConfig.IsForceDelete
unfoldable pub is_force_delete : Config → Bool
unfolding lookup_text
is_force_delete c = lookup_text force_delete_annotation c.meta.annotations == "true"
