-- ===== src/Aws/Ack.antt =====
-- internal/aws/ack.go: the ACK resources that the program asks for, and what it reads of those that
-- ACK reports on. A pointer to a string that is never nil is the string.
use aws_workload_identity_op.Prelude.{
  ℕ, String, ◌==◌, Bool, true, false, ◌&&◌, ◌||◌, if◌then◌else◌, Option, none, some, List, [], ◌∷◌,
  cat, nat_eq, ltb,
}
use aws_workload_identity_op.Prelude.Maps.{Map, text_or_empty}
use aws_workload_identity_op.Api.Conditions.{ConditionStatus, is_status_true}
use aws_workload_identity_op.Api.Errors.{failure, wrap, Result, ok, err}
use aws_workload_identity_op.Api.Types.{
  Config, Role, DeliveryType, eks_pod_identity, AckResourceStatus, AckResourceCondition,
  SelfHostedIssuerStatus, issuer_url,
}
use aws_workload_identity_op.RemoteIrsa.Options.{sts_audience}
use aws_workload_identity_op.Aws.Names.{
  role_name, policy_name, oidc_provider_name, bucket_name, pod_identity_association_name,
  text_length,
}
use aws_workload_identity_op.Aws.Labels.{labels_for_role, labels_for_config, sorted_tags}
use aws_workload_identity_op.Aws.TrustPolicy.{Json, bucket_policy}

-- A resource as the program asks for it.
pub record Desired (Spec : Type 0) : Type 0 where
  pub namespace : String
  pub name : String
  pub labels : Map String
  pub spec : Spec

pub record IamPolicySpec : Type 0 where
  pub name : String
  pub description : String
  pub policy_document : String
  pub tags : List (String × String)

pub record IamRoleSpec : Type 0 where
  pub name : String
  pub assume_role_policy_document : String
  pub max_session_duration : ℕ
  pub path : String
  pub policies : List String
  pub permissions_boundary : Option String
  pub tags : List (String × String)

pub record OidcProviderSpec : Type 0 where
  pub url : String
  pub client_ids : List String
  pub thumbprints : Option (List String)
  pub tags : List (String × String)

pub record BucketSpec : Type 0 where
  pub name : String
  pub object_ownership : String
  pub policy : String
  pub block_public_acls : Bool
  pub block_public_policy : Bool
  pub ignore_public_acls : Bool
  pub restrict_public_buckets : Bool
  pub tagging : List (String × String)

pub record AssociationSpec : Type 0 where
  pub client_request_token : String
  pub cluster_name : String
  pub namespace : String
  pub service_account : String
  pub role_arn : String
  pub tags : Map String

-- An entry of the conditions of an ACK resource, and the status that the program reads. `arn` is the
-- ACKResourceMetadata with its ARN, where there is one.
pub record AckCondition : Type 0 where
  pub condition_type : String
  pub status : ConditionStatus
  pub last_transition_time : Option ℕ
  pub reason : Option String
  pub message : Option String

pub record AckStatus : Type 0 where
  pub conditions : List (Option AckCondition)
  pub arn : Option (Option String)

module _ (digest : String → String) where
  unfoldable pub build_iam_policy : Role → DeliveryType → String → Desired IamPolicySpec
  unfolding policy_name labels_for_role sorted_tags
  build_iam_policy role delivery document = record {
    namespace = role.meta.namespace;
    name = policy_name digest role;
    labels = labels_for_role digest role delivery;
    spec = record {
      name = policy_name digest role;
      description = cat (
          "Generated by aws-workload-identity-operator for " ∷ role.meta.namespace ∷ "/"
          ∷ role.meta.name ∷ []);
      policy_document = document;
      tags = sorted_tags (labels_for_role digest role delivery);
    };
  }

  unfoldable pub build_iam_role :
      Role → DeliveryType → String → String → List String → Desired IamRoleSpec
  unfolding role_name labels_for_role sorted_tags
  build_iam_role role delivery boundary_arn trust_policy policy_arns = record {
    namespace = role.meta.namespace;
    name = role_name digest role;
    labels = labels_for_role digest role delivery;
    spec = record {
      name = role_name digest role;
      assume_role_policy_document = trust_policy;
      max_session_duration = 3600;
      path = "/";
      policies = policy_arns;
      permissions_boundary = if boundary_arn == "" then none else some boundary_arn;
      tags = sorted_tags (labels_for_role digest role delivery);
    };
  }

  unfoldable pub build_oidc_provider : Config → Desired OidcProviderSpec
  unfolding oidc_provider_name labels_for_config sorted_tags issuer_url
  build_oidc_provider config = record {
    namespace = config.meta.namespace;
    name = oidc_provider_name config;
    labels = labels_for_config digest config;
    spec = record {
      url = issuer_url config.status;
      client_ids = sts_audience ∷ [];
      thumbprints = none;
      tags = sorted_tags (labels_for_config digest config);
    };
  }

  -- The bucket that the status records, or the deterministic one.
  recorded_bucket : Option SelfHostedIssuerStatus → String
  recorded_bucket none = ""
  recorded_bucket (some issuer) = issuer.bucket_name

  unfoldable pub self_hosted_issuer_bucket_name : Config → String
  unfolding recorded_bucket bucket_name
  self_hosted_issuer_bucket_name config =
      let recorded = recorded_bucket config.status.self_hosted_issuer in
      if recorded == ""
      then bucket_name digest config.meta.namespace config.spec.region
      else recorded

  bucket_with_policy : Config → String → Result String → Result (Desired BucketSpec)
  unfolding labels_for_config sorted_tags
  bucket_with_policy config name (err e) = err (wrap "build bucket policy" e)
  bucket_with_policy config name (ok policy) = ok (record {
    namespace = config.meta.namespace;
    name = name;
    labels = labels_for_config digest config;
    spec = record {
      name = name;
      object_ownership = "BucketOwnerEnforced";
      policy = policy;
      block_public_acls = true;
      block_public_policy = false;
      ignore_public_acls = true;
      restrict_public_buckets = false;
      tagging = sorted_tags (labels_for_config digest config);
    };
  })

  unfoldable pub build_bucket : Json → Config → Result (Desired BucketSpec)
  unfolding bucket_with_policy self_hosted_issuer_bucket_name bucket_policy
  build_bucket json config =
      let name = self_hosted_issuer_bucket_name config in
      bucket_with_policy config name (bucket_policy json name)

  unfoldable pub build_pod_identity_association : Role → String → String → Desired AssociationSpec
  unfolding pod_identity_association_name labels_for_role
  build_pod_identity_association role role_arn cluster_name = record {
    namespace = role.meta.namespace;
    name = pod_identity_association_name role;
    labels = labels_for_role digest role eks_pod_identity;
    spec = record {
      client_request_token = role.meta.uid;
      cluster_name = cluster_name;
      namespace = role.spec.service_account.namespace;
      service_account = role.spec.service_account.name;
      role_arn = role_arn;
      tags = labels_for_role digest role eks_pod_identity;
    };
  }

is_synced : Option AckCondition → Bool
is_synced none = false
is_synced (some c) = (c.condition_type == "ACK.ResourceSynced") && is_status_true c.status

-- IsACKSynced
unfoldable pub is_ack_synced : List (Option AckCondition) → Bool
unfolding is_synced
is_ack_synced [] = false
is_ack_synced (c ∷ cs) = is_synced c || is_ack_synced cs

-- ackConditions
unfoldable pub ack_conditions : List (Option AckCondition) → List AckResourceCondition
ack_conditions [] = []
ack_conditions (none ∷ cs) = ack_conditions cs
ack_conditions (some c ∷ cs) =
    record {
      condition_type = c.condition_type;
      status = c.status;
      last_transition_time = c.last_transition_time;
      reason = text_or_empty c.reason;
      message = text_or_empty c.message;
    }
    ∷ ack_conditions cs

-- ACKResourceStatus
unfoldable pub ack_resource_status :
    String → String → String → String → List (Option AckCondition) → AckResourceStatus
unfolding ack_conditions
ack_resource_status api_version kind namespace name conditions = record {
  api_version = api_version;
  kind = kind;
  namespace = namespace;
  name = name;
  conditions = ack_conditions conditions;
}

-- ARN
unfoldable pub arn_of : Option (Option String) → String
arn_of none = ""
arn_of (some arn) = text_or_empty arn

compacted : Result String → Result String
compacted (err e) = err (wrap "compact policy document" e)
compacted (ok text) =
    if ltb 6144 (text_length text)
    then err (
        failure
          "policy document exceeds AWS IAM customer-managed policy size limit of 6144 characters")
    else ok text

probed : Json → String → Result ℕ → Result String
unfolding compacted
probed json raw (err e) = err (wrap "parse policy document" e)
probed json raw (ok fields) =
    if nat_eq fields 0
    then err (failure "policy document is empty")
    else compacted (json.compact raw)

-- PolicyDocumentString of a document that the API server gave, which is raw text.
unfoldable pub policy_document_string : Json → String → Result String
unfolding probed
policy_document_string json raw =
    if raw == ""
    then err (failure "policy document is empty")
    else probed json raw (json.field_count raw)
