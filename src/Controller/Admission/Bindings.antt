-- ===== src/Controller/Admission/Bindings.antt =====
-- What admission guarantees about the roles of a namespace.
use aws_workload_identity_op.Prelude.{◌≡◌, false, none, some, arith, List, [], ◌∷◌, All, ◌↔◌}
use aws_workload_identity_op.Api.Constants.{default_name}
use aws_workload_identity_op.Api.Errors.{Result, ok, err}
use aws_workload_identity_op.Api.Types.{Role, Config}
use aws_workload_identity_op.Controller.Admission.{
  AdmissionReader, occupies, validate_role_create, ensure_config_exists,
  ensure_no_duplicate_binding, duplicate_among, duplicate_in, create_under, config_of,
}

abbrev pub IsUnbound : Role → Result (List Role) → Type 0
IsUnbound role (ok roles) = All (λ r. occupies role.spec.service_account r ≡ false) roles
IsUnbound role (err e) = ⊥

abbrev pub IsLive : Result Config → Type 0
IsLive (ok config) = config.meta.deleting ≡ false
IsLive (err e) = ⊥

duplicate_among-none :
    (role : Role) (roles : List Role)
    → (duplicate_among role roles ≡ none)
      ↔ All (λ r. occupies role.spec.service_account r ≡ false) roles
unfolding duplicate_among
duplicate_among-none role [] = ground arith
duplicate_among-none role (r ∷ rs) = ground (arith, duplicate_among-none role rs)

duplicate_in-none :
    (role : Role) (answer : Result (List Role))
    → (duplicate_in role answer ≡ none) ↔ IsUnbound role answer
unfolding duplicate_in
duplicate_in-none role (ok roles) = duplicate_among-none role roles
duplicate_in-none role (err e) = ground arith

create_under-none :
    (reader : AdmissionReader) (role : Role) (answer : Result Config)
    → (create_under reader role (config_of role.meta.namespace answer) ≡ none)
      ↔ IsLive answer × IsUnbound role (reader.list_roles role.meta.namespace 0)
unfolding create_under config_of ensure_no_duplicate_binding
create_under-none reader role (ok config) =
    ground (arith, duplicate_in-none role (reader.list_roles role.meta.namespace 0))
create_under-none reader role (err e) = ground arith

-- A validator with a client admits a role exactly when its namespace has a config that is not being
-- deleted and the roles of the namespace can be listed and none of them, except those being deleted,
-- binds its service account.
pub validate_role_create-none :
    (reader : AdmissionReader) (role : Role)
    → (validate_role_create (some reader) role ≡ none)
      ↔ IsLive (reader.get_config (record { namespace = role.meta.namespace; name = default_name }))
        × IsUnbound role (reader.list_roles role.meta.namespace 0)
unfolding validate_role_create ensure_config_exists
validate_role_create-none reader role = create_under-none reader role _
