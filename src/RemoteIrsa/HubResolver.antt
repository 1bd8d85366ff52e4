-- ===== src/RemoteIrsa/HubResolver.antt =====
-- The hub resolver of pkg/remoteirsa/resolve.go: hubResolver.Resolve and resolveRole.
pub mod Usable
use aws_workload_identity_op.Prelude.{
  ℕ, String, ◌==◌, Bool, true, false, not, ◌&&◌, if◌then◌else◌, Option, none, some, List, [], ◌∷◌,
  select, ltb, cat, decimal, quote,
}
use aws_workload_identity_op.Prelude.Sorting.{sort, str_le}
use aws_workload_identity_op.Api.ConditionTypes
use aws_workload_identity_op.Api.Conditions.{
  Condition, StatusConditions, is_status_true, status_text,
}
use aws_workload_identity_op.Api.Constants.{default_name}
use aws_workload_identity_op.Api.Delivery.{delivery_text, uses_annotation_based_irsa}
use aws_workload_identity_op.Api.Errors.{Failure, Result, ok, err}
use aws_workload_identity_op.Api.Types.{
  Config, Role, NamespacedName, name_text, same_name, object_key, no_name,
}
use aws_workload_identity_op.RemoteIrsa.Errors
use aws_workload_identity_op.RemoteIrsa.Errors.{
  ErrorReason, ErrorContext, no_context, IrsaError, Attempt, success, failed, new_error,
}
use aws_workload_identity_op.RemoteIrsa.Options.{HubReader, ResolveOptions, ResolvedRole}

-- The context that both functions start from.
abbrev pub request_context : ResolveOptions → ErrorContext
request_context opts = record no_context {
  workload_namespace = opts.workload_namespace;
  service_account = opts.service_account;
}

-- A reason that the generations and the Ready condition of an object give against it: the texts differ
-- in the object's kind only.
stale_text : String → String → ℕ → ℕ → String
stale_text kind what observed generation = cat (
    kind
    ∷ " "
    ∷ what
    ∷ " "
    ∷ decimal observed
    ∷ " is behind metadata.generation "
    ∷ decimal generation
    ∷ [])

not_ready_condition : String → ℕ → Option Condition → Option String
unfolding stale_text
not_ready_condition kind generation none = some (cat (kind ∷ " Ready condition is missing" ∷ []))
not_ready_condition kind generation (some c) =
    if not (is_status_true c.report.status)
    then some (cat (kind ∷ " Ready condition is " ∷ status_text c.report.status ∷ []))
    else if ltb c.report.observed_generation generation
    then some (
        stale_text kind "Ready condition observedGeneration" c.report.observed_generation
          generation)
    else none

unfoldable pub not_ready : StatusConditions → String → ℕ → ℕ → List Condition → Option String
unfolding not_ready_condition stale_text
not_ready k kind observed generation conditions =
    if ltb observed generation
    then some (stale_text kind "status.observedGeneration" observed generation)
    else not_ready_condition kind generation (k.find_status conditions ConditionTypes.ready)

abbrev pub role_subject : Role → NamespacedName
role_subject r = record {
  namespace = r.spec.service_account.namespace;
  name = r.spec.service_account.name;
}

-- The roles that resolveRole collects for a service account.
unfoldable pub matches_subject : NamespacedName → Role → Bool
matches_subject service_account r =
    not r.meta.deleting && same_name (role_subject r) service_account

only_role : ErrorContext → List Role → Attempt Role
only_role context [] =
    failed (
      new_error Errors.role_not_found "no AWSServiceAccountRole matches ServiceAccount" none
        context)
only_role context (r ∷ []) = success r
only_role context (r ∷ q ∷ rest) = failed (
    new_error Errors.multiple_roles
      "multiple AWSServiceAccountRole objects match ServiceAccount; set AWSServiceAccountRoleName"
      none context)

role_among : ResolveOptions → Result (List Role) → Attempt Role
unfolding only_role matches_subject
role_among opts (err e) = failed (
    new_error Errors.role_not_found "list AWSServiceAccountRole objects" (some e)
      (request_context opts))
role_among opts (ok roles) = only_role (request_context opts) (
    sort (λ a b. str_le a.meta.name b.meta.name)
      (select (matches_subject opts.service_account) roles))

role_named : ResolveOptions → NamespacedName → Result Role → Attempt Role
role_named opts ref (ok r) = success r
role_named opts ref (err e) = failed (
    new_error Errors.role_not_found "AWSServiceAccountRole is not available" (some e)
      (record (request_context opts) { role_ref = ref }))

-- resolveRole
unfoldable pub resolve_role : HubReader → ResolveOptions → Attempt Role
unfolding role_among role_named
resolve_role reader opts =
    if not (opts.role_name == "")
    then (let ref : NamespacedName = record {
      namespace = opts.workload_namespace;
      name = opts.role_name;
    } in
        role_named opts ref (reader.get_role ref))
    else role_among opts (reader.list_roles opts.workload_namespace)

-- The region: the override, or else that of the config.
abbrev pub region_of : ResolveOptions → Config → String
region_of opts config =
    if opts.region_override == "" then config.spec.region else opts.region_override

abbrev fail_with : ErrorReason → String → ErrorContext → Attempt ResolvedRole
fail_with reason message context = failed (new_error reason message none context)

not_ready_role : StatusConditions → Role → Option String
unfolding not_ready
not_ready_role k role =
    if role.status.role_arn == ""
    then some "AWSServiceAccountRole status.roleARN is empty"
    else not_ready k "AWSServiceAccountRole" role.status.observed_generation role.meta.generation
        role.status.conditions

with_ready_role :
    ResolveOptions → Config → Role → ErrorContext → Option String → Attempt ResolvedRole
with_ready_role opts config role context (some message) =
    fail_with Errors.role_arn_not_ready message context
with_ready_role opts config role context none =
    if region_of opts config == ""
    then fail_with Errors.region_not_ready "AWS region is empty" context
    else success (record {
      workload_namespace = opts.workload_namespace;
      config_ref = record { namespace = opts.workload_namespace; name = default_name };
      role_ref = object_key role.meta;
      service_account = opts.service_account;
      role_arn = role.status.role_arn;
      region = region_of opts config;
      delivery_type = delivery_text config.spec.delivery_type;
    })

with_role : StatusConditions → ResolveOptions → Config → Attempt Role → Attempt ResolvedRole
unfolding not_ready_role with_ready_role
with_role k opts config (failed e) = failed e
with_role k opts config (success role) =
    let context = record (request_context opts) { role_ref = object_key role.meta } in
    if not (same_name (role_subject role) opts.service_account)
    then fail_with Errors.role_service_account_mismatch
        (cat (
          "AWSServiceAccountRole serviceAccount "
          ∷ name_text (role_subject role)
          ∷ " does not match requested ServiceAccount "
          ∷ name_text opts.service_account
          ∷ []))
        context
    else with_ready_role opts config role context (not_ready_role k role)

with_ready_config :
    StatusConditions → HubReader → ResolveOptions → Config → Option String → Attempt ResolvedRole
unfolding with_role resolve_role
with_ready_config k reader opts config (some message) =
    fail_with Errors.config_not_ready message (request_context opts)
with_ready_config k reader opts config none = with_role k opts config (resolve_role reader opts)

with_config : StatusConditions → HubReader → ResolveOptions → Result Config → Attempt ResolvedRole
unfolding with_ready_config not_ready uses_annotation_based_irsa
with_config k reader opts (err e) = failed (
    new_error Errors.config_not_found "AWSWorkloadIdentityConfig/default is not available" (some e)
      (request_context opts))
with_config k reader opts (ok config) =
    if not (uses_annotation_based_irsa config.spec.delivery_type)
    then fail_with Errors.unsupported_delivery_type
        (cat (
          "delivery type "
          ∷ quote (delivery_text config.spec.delivery_type)
          ∷ " is not supported by remote IRSA"
          ∷ []))
        (request_context opts)
    else with_ready_config k reader opts config (
        not_ready k "AWSWorkloadIdentityConfig" config.status.observed_generation
          config.meta.generation config.status.conditions)

-- hubResolver.Resolve
unfoldable pub resolve : StatusConditions → Option HubReader → ResolveOptions → Attempt ResolvedRole
unfolding with_config
resolve k none opts = fail_with Errors.invalid_options "HubReader is nil" (request_context opts)
resolve k (some reader) opts =
    with_config k reader opts
      (reader.get_config (record { namespace = opts.workload_namespace; name = default_name }))
