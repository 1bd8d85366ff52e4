-- ===== src/Aws/TrustPolicy.antt =====
-- internal/aws/trust_policy.go. A policy document is what the program hands to json.Marshal, which is a
-- parameter, as is MakeUsername of k8s.io/apiserver.
use Prim.Native.String.{◌++◌}
use aws_workload_identity_op.Prelude.{cat, String, ◌==◌, not, if◌then◌else◌, List, [], ◌∷◌, ℕ}
use aws_workload_identity_op.Prelude.Maps.{Map, insert}
use aws_workload_identity_op.Api.Errors.{Result, wrap_result}
use aws_workload_identity_op.Api.Types.{ServiceAccountSubject}
use aws_workload_identity_op.RemoteIrsa.Options.{sts_audience}

pub data Principal : Type 0 where
  anyone : Principal
  federated service : String → Principal

pub data Action : Type 0 where
  one_action : String → Action
  actions : List String → Action

-- policyStatement. `string_equals` is the StringEquals condition; an empty field is left out.
pub record PolicyStatement : Type 0 where
  pub sid : String
  pub effect : String
  pub principal : Principal
  pub action : Action
  pub resources : List String
  pub string_equals : Map String

pub record PolicyDocument : Type 0 where
  pub version : String
  pub statements : List PolicyStatement

-- encoding/json at what the program passes to it: Marshal of a policy document, the number of fields
-- that Unmarshal finds in an object, and Compact.
pub record Json : Type 0 where
  pub marshal_policy : PolicyDocument → Result String
  pub field_count : String → Result ℕ
  pub compact : String → Result String

abbrev pub policy_version : String
policy_version = "2012-10-17"

abbrev pub eks_pod_identity_service_principal : String
eks_pod_identity_service_principal = "pods.eks.amazonaws.com"

unfoldable pub web_identity_document :
    (String → String → String) → String → String → ServiceAccountSubject → PolicyDocument
web_identity_document make_username issuer_host_path oidc_provider_arn sa = record {
  version = policy_version;
  statements =
      record {
        sid = "";
        effect = "Allow";
        principal = federated oidc_provider_arn;
        action = one_action "sts:AssumeRoleWithWebIdentity";
        resources = [];
        string_equals =
            (issuer_host_path ++ ":aud", sts_audience)
            ∷ (issuer_host_path ++ ":sub", make_username sa.namespace sa.name)
            ∷ [];
      }
      ∷ [];
}

unfoldable pub pod_identity_document : String → String → ServiceAccountSubject → PolicyDocument
unfolding insert
pod_identity_document eks_cluster_arn aws_organization_id sa =
    let equals =
      ("aws:RequestTag/eks-cluster-arn", eks_cluster_arn)
      ∷ ("aws:RequestTag/kubernetes-namespace", sa.namespace)
      ∷ ("aws:RequestTag/kubernetes-service-account", sa.name)
      ∷ [] in
    record {
      version = policy_version;
      statements =
          record {
            sid = "AllowEksAuthToAssumeRoleForPodIdentity";
            effect = "Allow";
            principal = service eks_pod_identity_service_principal;
            action = actions ("sts:AssumeRole" ∷ "sts:TagSession" ∷ []);
            resources = [];
            string_equals =
                if not (aws_organization_id == "")
                then insert "aws:SourceOrgId" aws_organization_id equals
                else equals;
          }
          ∷ [];
    }

-- The object keys of internal/oidc/documents.go.
abbrev pub discovery_object_key : String
discovery_object_key = ".well-known/openid-configuration"

abbrev pub jwks_object_key : String
jwks_object_key = "keys.json"

unfoldable pub bucket_document : String → PolicyDocument
bucket_document bucket = record {
  version = policy_version;
  statements =
      record {
        sid = "PublicReadOIDCDiscoveryOnly";
        effect = "Allow";
        principal = anyone;
        action = one_action "s3:GetObject";
        resources =
            cat ("arn:aws:s3:::" ∷ bucket ∷ "/" ∷ discovery_object_key ∷ [])
            ∷ cat ("arn:aws:s3:::" ∷ bucket ∷ "/" ∷ jwks_object_key ∷ [])
            ∷ [];
        string_equals = [];
      }
      ∷ [];
}

module _ (json : Json) where
  marshal_policy : PolicyDocument → Result String
  marshal_policy doc = wrap_result "marshal policy" (json.marshal_policy doc)

  -- WebIdentityTrustPolicy
  unfoldable pub web_identity_trust_policy :
      (String → String → String) → String → String → ServiceAccountSubject → Result String
  unfolding marshal_policy web_identity_document
  web_identity_trust_policy make_username issuer_host_path oidc_provider_arn sa =
      marshal_policy (web_identity_document make_username issuer_host_path oidc_provider_arn sa)

  -- EKSPodIdentityTrustPolicy
  unfoldable pub eks_pod_identity_trust_policy :
      String → String → ServiceAccountSubject → Result String
  unfolding marshal_policy pod_identity_document
  eks_pod_identity_trust_policy eks_cluster_arn aws_organization_id sa =
      marshal_policy (pod_identity_document eks_cluster_arn aws_organization_id sa)

  -- BucketPolicy
  unfoldable pub bucket_policy : String → Result String
  unfolding marshal_policy bucket_document
  bucket_policy bucket = marshal_policy (bucket_document bucket)
