-- ===== src/Controller/Config/Reconcile.antt =====
-- reconcileNormal of internal/controller/config_controller.go. An error that is logged only is dropped.
pub mod Consistent
use aws_workload_identity_op.Prelude.{String, if◌then◌else◌, some, [], ◌∷◌, cat, quote}
use aws_workload_identity_op.Api.ConditionTypes
use aws_workload_identity_op.Api.Reasons
use aws_workload_identity_op.Api.Conditions.{StatusConditions, status_true}
use aws_workload_identity_op.Api.Errors.{Failure, wrap, wrap_result, Result, ok, err}
use aws_workload_identity_op.Api.OperatorConfig.{OperatorConfig, load_operator_config}
use aws_workload_identity_op.Api.Types.{Config, ConfigStatus, name_text, object_key}
use aws_workload_identity_op.Controller.Common.{
  transient_requeue, RequeueAfter, fail_ready, result_with_dependency_safety_requeue,
}
use aws_workload_identity_op.Controller.Config.Components.{Outcome, reconcile_config_components}
use aws_workload_identity_op.Controller.Config.Server.{ConfigServer}
use aws_workload_identity_op.Controller.Config.Status.{
  set_cluster_profile_resolved, set_resolved_cluster_status, set_config_ready_condition,
}
use aws_workload_identity_op.Controller.Config.Steps.{set_on, with_status}
use aws_workload_identity_op.Inventory.{Resolution, resolve_inventory}

module _ (k : StatusConditions) {S R : Type 0} (server : ConfigServer S R) where
  unfoldable pub patched : Config → Result (Unit {0}) × S → Result (Unit {0}) × S
  patched c (answer, s) = (
    wrap_result
        (cat (
          "patch *v1alpha1.AWSWorkloadIdentityConfig "
          ∷ name_text (object_key c.meta)
          ∷ " status"
          ∷ []))
        answer,
    s,
  )

  -- patchConfigStatus
  unfoldable pub patch_config_status : Config → ConfigStatus → S → Result (Unit {0}) × S
  unfolding patched
  patch_config_status c before s =
      if server.statuses_equal before c.status
      then (ok tt, s)
      else patched c (server.patch_status c s)

  fail_on : Config → String → String → String → Config
  unfolding fail_ready
  fail_on c condition_type reason message =
      with_status
        (λ status. record status {
          conditions =
              fail_ready k status.conditions c.meta.generation condition_type reason message;
        })
        c

  retried : Config → Result (Unit {0}) × S → R → Outcome S R
  retried c (ok _, s) r = (ok transient_requeue, c, s, r)
  retried c (err e, s) r = (err e, c, s, r)

  no_operator : Config → ConfigStatus → Failure → S → R → Outcome S R
  unfolding fail_on patch_config_status retried
  no_operator c before e s r =
      let c' =
        fail_on c ConditionTypes.operator_config_ready Reasons.operator_config_unavailable e.text in
      retried c' (patch_config_status c' before s) r

  no_inventory : Config → ConfigStatus → Failure → S → R → Outcome S R
  unfolding fail_on patch_config_status
  no_inventory c before e s r =
      let c' =
        with_status (λ status. record status { resolved_cluster_name = "" })
          (fail_on c ConditionTypes.cluster_profile_resolved Reasons.resolver_error e.text) in
      (
        err (wrap (cat ("resolve inventory for namespace " ∷ quote c.meta.namespace ∷ [])) e),
        c',
        (patch_config_status c' before s).1,
        r,
      )

  answered : Result RequeueAfter → Config → Result (Unit {0}) × S → R → Outcome S R
  unfolding result_with_dependency_safety_requeue
  answered result c (err e, s) r = (err e, c, s, r)
  answered (err e) c (ok _, s) r = (err e, c, s, r)
  answered (ok t) c (ok _, s) r = (ok (result_with_dependency_safety_requeue t), c, s, r)

  -- The Ready condition is set last, and the status patched whether or not a component failed.
  unfoldable pub with_components : ConfigStatus → Resolution → Outcome S R → Outcome S R
  unfolding answered patch_config_status set_config_ready_condition
  with_components before resolved (result, c, s, r) =
      let c' = set_config_ready_condition k c resolved in
      answered result c' (patch_config_status c' before s) r

  with_inventory : OperatorConfig → ConfigStatus → Result Resolution → Config → S → R → Outcome S R
  unfolding no_inventory with_components reconcile_config_components set_cluster_profile_resolved
      set_resolved_cluster_status
  with_inventory operator_config before (err e) c s r = no_inventory c before e s r
  with_inventory operator_config before (ok resolved) c s r = with_components before resolved (
      reconcile_config_components k server operator_config resolved
        (set_resolved_cluster_status (set_cluster_profile_resolved k c resolved) resolved) s r)

  with_operator : ConfigStatus → Result OperatorConfig → Config → S → R → Outcome S R
  unfolding no_operator with_inventory set_on resolve_inventory
  with_operator before (err e) c s r = no_operator c before e s r
  with_operator before (ok operator_config) c s r =
      with_inventory operator_config before
        (resolve_inventory (some (server.list_profiles s)) c.meta.namespace)
        (set_on k c ConditionTypes.operator_config_ready status_true Reasons.ready
          "operator configuration is valid")
        s r

  -- reconcileNormal
  unfoldable pub reconcile_config : Config → S → R → Outcome S R
  unfolding with_operator load_operator_config
  reconcile_config c s r =
      with_operator c.status (load_operator_config (server.get_operator_config s))
        (with_status (λ status. record status { observed_generation = c.meta.generation }) c) s r
