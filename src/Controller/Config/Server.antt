-- ===== src/Controller/Config/Server.antt =====
-- What the config controller asks of the hub's API server, of S3, of a remote cluster and of the
-- libraries. `S` is the state of the hub and of S3, and `R` that of the remote clusters.
use aws_workload_identity_op.Prelude.{ℕ, String, Bool, Option, List}
use aws_workload_identity_op.Prelude.Maps.{Map}
use aws_workload_identity_op.Api.Errors.{Failure, Result}
use aws_workload_identity_op.Api.Semantic.{FinalizerLists}
use aws_workload_identity_op.Api.Types.{Role, Config, ConfigStatus, NamespacedName}
use aws_workload_identity_op.Api.OperatorConfig.{OperatorConfig}
use aws_workload_identity_op.Aws.TrustPolicy.{Json}
use aws_workload_identity_op.Aws.OidcProvider.{Urls}
use aws_workload_identity_op.Aws.Ack.{Desired, BucketSpec, OidcProviderSpec, AckStatus}
use aws_workload_identity_op.Inventory.{ProfileLister}

-- The kinds of children that a config owns.
pub data ConfigChildKind : Type 0 where
  oidc_provider signing_secret bucket : ConfigChildKind

-- What the controller reads of a child. `controller_uid` is the UID of its controller reference.
pub record ConfigChild : Type 0 where
  pub kind : ConfigChildKind
  pub key : NamespacedName
  pub controller_uid : Option String
  pub labels : Map String

-- corev1.Secret. The bytes of an entry are a string.
pub record Secret : Type 0 where
  pub labels : Map String
  pub annotations : Map String
  pub secret_type : String
  -- Data
  pub entries : Map String

-- What GenerateRSAKeyPEM of internal/oidc returns.
pub record SigningKey : Type 0 where
  pub private_key : String
  pub public_key : String
  pub key_id : String

-- oidc.IssuerPublication, by what the controller reads of it.
pub record IssuerPublication : Type 0 where
  pub signing_key_id : String
  pub issuer_url : String
  pub object_set_digest : String

-- SelfHostedIssuerPublisher. `ensure_issuer` answers whether it changed an object.
pub record Publisher (S : Type 0) : Type 0 where
  pub ensure_issuer : String → IssuerPublication → S → Result Bool × S
  pub delete_issuer : String → S → Result (Unit {0}) × S

-- webhookRuntimeOutcome, with its observation, its condition and its schedule, in seconds.
pub record RuntimeOutcome : Type 0 where
  pub webhook_namespace : String
  pub cert_not_after : Option ℕ
  pub ready : Bool
  pub reason : String
  pub message : String
  pub readiness_retry_after : ℕ
  pub cert_renewal_after : ℕ

-- applyRemoteWebhookRuntime, with a namespace and an image, and deleteRemoteWebhookRuntime on one
-- remote cluster.
pub record RuntimeClient (R : Type 0) : Type 0 where
  pub apply : String → String → R → RuntimeOutcome × (Option Failure × R)
  pub delete : String → R → Result (Unit {0}) × R

pub record ConfigServer (S R : Type 0) : Type 0 where
  pub digest : String → String
  pub finalizer_lists : FinalizerLists
  -- apiequality.Semantic.DeepEqual of two statuses.
  pub statuses_equal : ConfigStatus → ConfigStatus → Bool
  pub json : Json
  pub urls : Urls
  -- SanitizeError of internal/aws/errors.go
  pub sanitize : Failure → String
  -- KeyIDFromPublicKeyPEM and RenderIssuerPublication of internal/oidc
  pub key_id_of : String → Result String
  pub render_publication : String → String → String → Result IssuerPublication
  -- errors.Is on multicluster.ErrClusterNotFound, and isErrUnmanagedRemoteRuntime
  pub is_cluster_not_found : Failure → Bool
  pub is_unmanaged_runtime : Failure → Bool
  pub webhook_image : String
  pub get_operator_config : S → Result OperatorConfig
  pub get_config : S → NamespacedName → Result Config
  pub list_profiles : S → ProfileLister
  -- The roles of a namespace, at most so many of them.
  pub list_roles : S → String → ℕ → Result (List Role)
  pub list_configs : S → Result (List Config)
  -- The configs that the index has for a resolved cluster.
  pub list_configs_by_cluster : S → String → Result (List Config)
  pub get_child : S → ConfigChildKind → NamespacedName → Result ConfigChild
  pub delete_child : ConfigChild → S → Result (Unit {0}) × S
  pub patch_status : Config → S → Result (Unit {0}) × S
  pub patch_finalizers : Config → S → Result (Unit {0}) × S
  -- controllerutil.CreateOrUpdate with the config as controller, under RetryOnConflict. A Secret is
  -- what the given function makes of the current one, and a provider has the spec that the given
  -- function makes of the current one.
  pub apply_secret : Config → NamespacedName → (Secret → Result Secret) → S → Result Secret × S
  pub apply_bucket : Config → Desired BucketSpec → S → Result AckStatus × S
  pub apply_oidc_provider :
      Config
      → NamespacedName
      → (OidcProviderSpec → Desired OidcProviderSpec)
      → S
      → Result AckStatus × S
  -- SigningSecretReader, and the generator of key pairs.
  pub signing_secret_reader : Option (S → NamespacedName → Result Secret)
  pub generate_key : S → Result SigningKey
  -- SelfHostedIssuerPublisherFactory, by region.
  pub publisher_factory : Option (S → String → Result (Publisher S))
  -- GetCluster of MCManager.
  pub get_cluster : Option (R → NamespacedName → Result (RuntimeClient R))
