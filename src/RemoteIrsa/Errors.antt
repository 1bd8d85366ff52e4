-- ===== src/RemoteIrsa/Errors.antt =====
-- pkg/remoteirsa/errors.go.
use aws_workload_identity_op.Prelude.{
  String, ◌==◌, Bool, true, false, if◌then◌else◌, Option, none, some, List, [], ◌∷◌, ◌++◌, cat,
  join,
}
use aws_workload_identity_op.Api.Errors.{Failure}
use aws_workload_identity_op.Api.Types.{NamespacedName, name_text, no_name, same_name}

pub data ErrorReason : Type 0 where
  invalid_options config_not_found unsupported_delivery_type role_not_found : ErrorReason
  multiple_roles multiple_cluster_profiles role_service_account_mismatch : ErrorReason
  role_arn_not_ready config_not_ready region_not_ready missing_inventory_access : ErrorReason
  remote_token_request_forbidden remote_token_request_failed sts_access_denied : ErrorReason
  expired_or_invalid_token sts_credentials_unavailable : ErrorReason
  sts_assume_role_with_web_identity : ErrorReason

unfoldable pub reason_text : ErrorReason → String
reason_text invalid_options = "InvalidOptions"
reason_text config_not_found = "ConfigNotFound"
reason_text unsupported_delivery_type = "UnsupportedDeliveryType"
reason_text role_not_found = "RoleNotFound"
reason_text multiple_roles = "MultipleRoles"
reason_text multiple_cluster_profiles = "MultipleClusterProfiles"
reason_text role_service_account_mismatch = "RoleServiceAccountMismatch"
reason_text role_arn_not_ready = "RoleARNNotReady"
reason_text config_not_ready = "ConfigNotReady"
reason_text region_not_ready = "RegionNotReady"
reason_text missing_inventory_access = "MissingInventoryAccess"
reason_text remote_token_request_forbidden = "RemoteTokenRequestForbidden"
reason_text remote_token_request_failed = "RemoteTokenRequestFailed"
reason_text sts_access_denied = "STSAccessDenied"
reason_text expired_or_invalid_token = "ExpiredOrInvalidToken"
reason_text sts_credentials_unavailable = "STSCredentialsUnavailable"
reason_text sts_assume_role_with_web_identity = "STSAssumeRoleWithWebIdentityFailed"

pub record ErrorContext : Type 0 where
  pub workload_namespace : String
  pub service_account : NamespacedName
  pub role_ref : NamespacedName
  pub cluster_profile_ref : NamespacedName
  pub provider_name : String

abbrev pub no_context : ErrorContext
no_context = record {
  workload_namespace = "";
  service_account = no_name;
  role_ref = no_name;
  cluster_profile_ref = no_name;
  provider_name = "";
}

-- The struct Error: its fields on the context are kept as one.
pub record Error : Type 0 where
  pub reason : ErrorReason
  pub message : String
  pub cause : Option Failure
  pub context : ErrorContext

-- An `error` of this package: an Error, under the texts that fmt.Errorf with `%w` put around it, or any
-- other error. errors.As finds the Error under the texts.
pub data IrsaError : Type 0 where
  sdk : List String → Error → IrsaError
  other : Failure → IrsaError

pub data Attempt {ℓ} (A : Type ℓ) : Type ℓ where
  success : A → Attempt A
  failed : IrsaError → Attempt A

-- newError
abbrev pub new_error : ErrorReason → String → Option Failure → ErrorContext → IrsaError
new_error reason message cause context =
    sdk [] (record { reason = reason; message = message; cause = cause; context = context })

-- Reason. `none` is the empty reason.
unfoldable pub reason_of : IrsaError → Option ErrorReason
reason_of (sdk prefixes e) = some e.reason
reason_of (other e) = none

is_temporary_reason : Option ErrorReason → Bool
is_temporary_reason none = false
is_temporary_reason (some invalid_options) = false
is_temporary_reason (some config_not_found) = false
is_temporary_reason (some unsupported_delivery_type) = false
is_temporary_reason (some role_not_found) = false
is_temporary_reason (some multiple_roles) = false
is_temporary_reason (some multiple_cluster_profiles) = false
is_temporary_reason (some role_service_account_mismatch) = false
is_temporary_reason (some role_arn_not_ready) = true
is_temporary_reason (some config_not_ready) = true
is_temporary_reason (some region_not_ready) = true
is_temporary_reason (some missing_inventory_access) = true
is_temporary_reason (some remote_token_request_forbidden) = true
is_temporary_reason (some remote_token_request_failed) = true
is_temporary_reason (some sts_access_denied) = true
is_temporary_reason (some expired_or_invalid_token) = true
is_temporary_reason (some sts_credentials_unavailable) = true
is_temporary_reason (some sts_assume_role_with_web_identity) = true

-- Temporary
unfoldable pub temporary : IrsaError → Bool
unfolding is_temporary_reason reason_of
temporary e = is_temporary_reason (reason_of e)

abbrev pub text_or : String → String → String
text_or current fallback = if current == "" then fallback else current

abbrev pub name_or : NamespacedName → NamespacedName → NamespacedName
name_or current fallback = if same_name current no_name then fallback else current

-- The fields that are empty are taken from the second context.
abbrev pub fill : ErrorContext → ErrorContext → ErrorContext
fill own context = record {
  workload_namespace = text_or own.workload_namespace context.workload_namespace;
  service_account = name_or own.service_account context.service_account;
  role_ref = name_or own.role_ref context.role_ref;
  cluster_profile_ref = name_or own.cluster_profile_ref context.cluster_profile_ref;
  provider_name = text_or own.provider_name context.provider_name;
}

-- withErrorContext of an error that is not nil. The Error that it returns is the inner one.
unfoldable pub with_error_context : IrsaError → ErrorContext → IrsaError
with_error_context (sdk prefixes e) context = sdk [] (record e { context = fill e.context context })
with_error_context (other e) context = other e

text_field : String → String → List String
text_field key value = if value == "" then [] else cat (key ∷ value ∷ []) ∷ []

name_field : String → NamespacedName → List String
name_field key value = if same_name value no_name then [] else cat (key ∷ name_text value ∷ []) ∷ []

-- Error.contextFields
unfoldable pub context_fields : ErrorContext → List String
unfolding text_field name_field
context_fields c =
    text_field "workloadNamespace=" c.workload_namespace
    ++ name_field "serviceAccount=" c.service_account
    ++ name_field "role=" c.role_ref
    ++ name_field "clusterProfile=" c.cluster_profile_ref
    ++ text_field "provider=" c.provider_name

fields_text : List String → String
fields_text [] = ""
fields_text (field ∷ fields) = cat (" (" ∷ join " " (field ∷ fields) ∷ ")" ∷ [])

cause_text : Option Failure → String
cause_text none = ""
cause_text (some e) = cat (": " ∷ e.text ∷ [])

-- Error.Error
unfoldable pub error_text : Error → String
unfolding context_fields fields_text cause_text reason_text
error_text e = cat (
    "remoteirsa "
    ∷ reason_text e.reason
    ∷ ": "
    ∷ e.message
    ∷ fields_text (context_fields e.context)
    ∷ cause_text e.cause
    ∷ [])
