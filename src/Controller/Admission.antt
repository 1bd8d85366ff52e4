-- ===== src/Controller/Admission.antt =====
-- internal/controller/admission.go. A handler gives `none` where it admits the request.
pub mod Bindings
use aws_workload_identity_op.Prelude.{
  ℕ, String, ◌==◌, Bool, true, false, not, ◌&&◌, if◌then◌else◌, Option, none, some, List, [], ◌∷◌,
  cat, quote, length, ltb,
}
use aws_workload_identity_op.Api.Constants.{default_name}
use aws_workload_identity_op.Api.Errors.{Failure, failure, wrap, Result, ok, err}
use aws_workload_identity_op.Api.Types.{
  Role, Config, NamespacedName, ServiceAccountSubject, is_force_delete,
}
use aws_workload_identity_op.Controller.ReplicaSet.Template.{same_service_account_subject}

-- client.Reader at the objects that the validators read. A list of roles is that of a namespace, and
-- the number is the limit, 0 for none.
pub record AdmissionReader : Type 0 where
  pub get_config : NamespacedName → Result Config
  pub list_roles : String → ℕ → Result (List Role)

list_error : String → Failure → Failure
list_error namespace e =
    wrap (cat ("list AWSServiceAccountRoles in namespace " ∷ quote namespace ∷ [])) e

blocked_by_roles : String → Result (List Role) → Option Failure
unfolding list_error
blocked_by_roles namespace (err e) = some (list_error namespace e)
blocked_by_roles namespace (ok roles) =
    if ltb 0 (length roles)
    then some (
        failure (
          cat (
            "cannot delete config while AWSServiceAccountRole objects remain in namespace "
            ∷ quote namespace
            ∷ [])))
    else none

-- ConfigValidator.ValidateDelete
unfoldable pub validate_config_delete : Option AdmissionReader → Config → Option Failure
unfolding blocked_by_roles is_force_delete
validate_config_delete none config = none
validate_config_delete (some reader) config =
    if is_force_delete config
    then none
    else blocked_by_roles config.meta.namespace (reader.list_roles config.meta.namespace 1)

config_of : String → Result Config → Result Config
config_of namespace (ok config) = ok config
config_of namespace (err e) =
    if e.not_found
    then err (
        failure (
          cat
            ("AWSWorkloadIdentityConfig/default is required in namespace " ∷ quote namespace ∷ [])))
    else err (
        wrap (cat ("get AWSWorkloadIdentityConfig/default in namespace " ∷ quote namespace ∷ [])) e)

-- ensureConfigExists
unfoldable pub ensure_config_exists : AdmissionReader → String → Result Config
unfolding config_of
ensure_config_exists reader namespace =
    config_of namespace (reader.get_config (record { namespace = namespace; name = default_name }))

-- Whether a role of the namespace occupies the service account.
unfoldable pub occupies : ServiceAccountSubject → Role → Bool
unfolding same_service_account_subject
occupies subject r =
    if r.meta.deleting then false else same_service_account_subject r.spec.service_account subject

duplicate_among : Role → List Role → Option Failure
unfolding occupies
duplicate_among role [] = none
duplicate_among role (r ∷ rs) =
    let rest = duplicate_among role rs in
    if occupies role.spec.service_account r
    then some (
        failure (
          cat (
            "service account " ∷ role.spec.service_account.namespace ∷ "/"
            ∷ role.spec.service_account.name ∷ " is already bound by AWSServiceAccountRole "
            ∷ r.meta.namespace ∷ "/" ∷ r.meta.name ∷ [])))
    else rest

duplicate_in : Role → Result (List Role) → Option Failure
unfolding duplicate_among list_error
duplicate_in role (err e) = some (list_error role.meta.namespace e)
duplicate_in role (ok roles) = duplicate_among role roles

-- ensureNoDuplicateBinding
unfoldable pub ensure_no_duplicate_binding : AdmissionReader → Role → Option Failure
unfolding duplicate_in
ensure_no_duplicate_binding reader role =
    duplicate_in role (reader.list_roles role.meta.namespace 0)

create_under : AdmissionReader → Role → Result Config → Option Failure
unfolding ensure_no_duplicate_binding
create_under reader role (err e) = some e
create_under reader role (ok config) =
    if config.meta.deleting
    then some (
        failure (
          cat (
            "AWSWorkloadIdentityConfig/default in namespace "
            ∷ quote role.meta.namespace
            ∷ " is being deleted; cannot create new AWSServiceAccountRole"
            ∷ [])))
    else ensure_no_duplicate_binding reader role

-- RoleValidator.ValidateCreate
unfoldable pub validate_role_create : Option AdmissionReader → Role → Option Failure
unfolding create_under ensure_config_exists
validate_role_create none role = none
validate_role_create (some reader) role =
    create_under reader role (ensure_config_exists reader role.meta.namespace)

error_of : Result Config → Option Failure
error_of (ok config) = none
error_of (err e) = some e

-- RoleValidator.ValidateUpdate
unfoldable pub validate_role_update : Option AdmissionReader → Role → Option Failure
unfolding error_of ensure_config_exists
validate_role_update none role = none
validate_role_update (some reader) role =
    if role.meta.deleting then none else error_of (ensure_config_exists reader role.meta.namespace)
