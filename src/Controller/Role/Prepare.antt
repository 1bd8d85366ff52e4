-- ===== src/Controller/Role/Prepare.antt =====
-- prepareRoleInputs and resolveInventory of internal/controller/role_controller.go.
pub mod Keeps
use aws_workload_identity_op.Prelude.{String, not, if◌then◌else◌, some, [], ◌∷◌, cat, quote}
use aws_workload_identity_op.Api.ConditionTypes
use aws_workload_identity_op.Api.Reasons
use aws_workload_identity_op.Api.Constants.{default_name}
use aws_workload_identity_op.Api.Conditions.{StatusConditions, status_true, status_false}
use aws_workload_identity_op.Api.Errors.{Failure, wrap, Result, ok, err}
use aws_workload_identity_op.Api.OperatorConfig.{OperatorConfig, load_operator_config}
use aws_workload_identity_op.Api.Types.{Role, RoleStatus, Config}
use aws_workload_identity_op.Aws.TrustPolicy.{
  web_identity_trust_policy, eks_pod_identity_trust_policy,
}
use aws_workload_identity_op.Controller.Common.{transient_requeue}
use aws_workload_identity_op.Controller.Role.Finalize.{patch_role_status}
use aws_workload_identity_op.Controller.Role.Flow.{
  M, ◌>>=◌, ◌>>◌, pure, halt, abort, the_role, read, call, mark, mark_not_ready,
}
use aws_workload_identity_op.Controller.Role.Server.{RoleServer}
use aws_workload_identity_op.Controller.Role.Status.{trust_policy}
use aws_workload_identity_op.Inventory.{Resolution, resolve_inventory}

-- roleReconcileInputs
pub record Inputs : Type 0 where
  pub operator_config : OperatorConfig
  pub config : Config
  pub resolved : Resolution
  pub trust_policy : String

module _ (k : StatusConditions) {S : Type 0} (server : RoleServer S) (before : RoleStatus) where
  -- patchRoleStatus of the role as it is now.
  abbrev pub patch_status : M S (Result (Unit {0}))
  patch_status = call (λ r s. patch_role_status k server r before s)

  -- What follows the patch of a step that ends the reconcile.
  unfoldable pub halt_after : {A : Type 0} → Result (Unit {0}) → M S A
  halt_after (ok _) = halt transient_requeue
  halt_after (err e) = abort e

  -- failPrepareStep
  unfoldable pub fail_prepare_step : {A : Type 0} → String → String → String → M S A
  unfolding halt_after
  fail_prepare_step condition_type reason message = do
    mark_not_ready k condition_type reason message
    answer ← patch_status
    halt_after answer

  operator_step : Result OperatorConfig → M S OperatorConfig
  unfolding fail_prepare_step
  operator_step (err e) =
      fail_prepare_step ConditionTypes.operator_config_ready Reasons.operator_config_unavailable
        e.text
  operator_step (ok c) = do
    mark k ConditionTypes.operator_config_ready status_true Reasons.ready
        "operator configuration is valid"
    pure c

  config_step : Result Config → M S Config
  unfolding fail_prepare_step
  config_step (err e) =
      fail_prepare_step ConditionTypes.config_resolved Reasons.config_unavailable e.text
  config_step (ok c) = do
    mark k ConditionTypes.config_resolved status_true Reasons.resolved "namespace config resolved"
    pure c

  not_ready_step : Resolution → M S Resolution
  unfolding halt_after
  not_ready_step resolved = do
    mark k ConditionTypes.inventory_resolved status_false resolved.reason resolved.message
    mark_not_ready k ConditionTypes.delivery_ready resolved.reason resolved.message
    answer ← patch_status
    halt_after answer

  ready_step : Resolution → M S Resolution
  ready_step resolved = do
    mark k ConditionTypes.inventory_resolved status_true resolved.reason resolved.message
    pure resolved

  -- The error of the patch is logged only.
  resolver_error : Failure → M S Resolution
  resolver_error e = do
    mark_not_ready k ConditionTypes.inventory_resolved Reasons.resolver_error e.text
    answer ← patch_status
    role ← the_role
    abort (wrap (cat ("resolve inventory for namespace " ∷ quote role.meta.namespace ∷ [])) e)

  inventory_step : Result Resolution → M S Resolution
  unfolding not_ready_step ready_step resolver_error
  inventory_step (err e) = resolver_error e
  inventory_step (ok resolved) =
      if not resolved.ready then not_ready_step resolved else ready_step resolved

  trust_step : Result String → M S String
  unfolding fail_prepare_step
  trust_step (err e) =
      fail_prepare_step ConditionTypes.trust_policy_ready Reasons.trust_policy_input_missing e.text
  trust_step (ok policy) = do
    mark k ConditionTypes.trust_policy_ready status_true Reasons.rendered "trust policy rendered"
    pure policy

  -- trustPolicy, with the documents of internal/aws/trust_policy.go.
  unfoldable pub role_trust_policy : Role → Config → Resolution → Result String
  unfolding trust_policy
  role_trust_policy role config resolved =
      trust_policy (web_identity_trust_policy server.json server.make_username)
        (eks_pod_identity_trust_policy server.json) role config resolved

  load_operator : M S OperatorConfig
  unfolding operator_step load_operator_config
  load_operator r s = operator_step (load_operator_config (server.get_operator_config s)) r s

  load_config : M S Config
  unfolding config_step
  load_config r s =
      config_step
        (server.get_config s (record { namespace = r.meta.namespace; name = default_name })) r s

  -- resolveInventory
  unfoldable pub load_inventory : M S Resolution
  unfolding inventory_step
  load_inventory r s =
      inventory_step (resolve_inventory (some (server.list_profiles s)) r.meta.namespace) r s

  render_trust : Config → Resolution → M S String
  unfolding trust_step role_trust_policy
  render_trust config resolved r s = trust_step (role_trust_policy r config resolved) r s

  -- prepareRoleInputs
  unfoldable pub prepare_role_inputs : M S Inputs
  unfolding load_operator load_config load_inventory render_trust
  prepare_role_inputs = do
    operator_config ← load_operator
    config ← load_config
    resolved ← load_inventory
    policy ← render_trust config resolved
    pure (record {
      operator_config = operator_config;
      config = config;
      resolved = resolved;
      trust_policy = policy;
    })
