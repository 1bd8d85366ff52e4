-- ===== src/Controller/Config/Reconcile/Consistent.antt =====
-- The Ready condition of a config agrees with its components after every reconcile.
use aws_workload_identity_op.Prelude.{◌≡◌, false, ap}
use aws_workload_identity_op.Api.ConditionTypes
use aws_workload_identity_op.Api.Conditions.{StatusConditions, is_report_true}
use aws_workload_identity_op.Api.Errors.{Result, ok, err}
use aws_workload_identity_op.Api.OperatorConfig.{OperatorConfig}
use aws_workload_identity_op.Api.Types.{Config, ConfigStatus}
use aws_workload_identity_op.Controller.Common.{RequeueAfter}
use aws_workload_identity_op.Controller.Common.Reports.{report_at-fail_ready}
use aws_workload_identity_op.Controller.Config.Components.{Outcome}
use aws_workload_identity_op.Controller.Config.Reconcile.{
  fail_on, retried, no_operator, no_inventory, answered, with_components, with_inventory,
  with_operator, reconcile_config, String,
}
use aws_workload_identity_op.Controller.Config.Server.{ConfigServer}
use aws_workload_identity_op.Controller.Config.Status.Readiness.{is_true_of}
use aws_workload_identity_op.Controller.Config.Status.Consistent.{
  IsConsistent, not_ready-IsConsistent, set_config_ready_condition-IsConsistent,
}
use aws_workload_identity_op.Inventory.{Resolution}

module _ (k : StatusConditions) {S R : Type 0} (server : ConfigServer S R) where
  Ends : Outcome S R → Type 0
  Ends x = IsConsistent k x.1

  fail_on-ready :
      (c : Config) (condition_type reason message : String)
      → is_true_of k (fail_on k server c condition_type reason message) ConditionTypes.ready ≡ false
  unfolding fail_on
  fail_on-ready c condition_type reason message = rw (k.is_true_lem _ ConditionTypes.ready) (
      ap is_report_true (
        report_at-fail_ready k c.status.conditions c.meta.generation condition_type reason message
          ConditionTypes.ready))

  retried-Ends :
      (c : Config) (x : Result (Unit {0}) × S) (r : R)
      → IsConsistent k c
      → Ends (retried k server c x r)
  unfolding Ends retried
  retried-Ends c (ok _, s) r h = h
  retried-Ends c (err e, s) r h = h

  answered-Ends :
      (result : Result RequeueAfter) (c : Config) (x : Result (Unit {0}) × S) (r : R)
      → IsConsistent k c
      → Ends (answered k server result c x r)
  unfolding Ends answered
  answered-Ends result c (err e, s) r h = h
  answered-Ends (err e) c (ok _, s) r h = h
  answered-Ends (ok t) c (ok _, s) r h = h

  with_components-Ends :
      (before : ConfigStatus) (resolved : Resolution) (x : Outcome S R)
      → Ends (with_components k server before resolved x)
  unfolding with_components
  with_components-Ends before resolved (result, c, s, r) =
      answered-Ends result _ _ r (set_config_ready_condition-IsConsistent k c resolved)

  with_inventory-Ends :
      (operator_config : OperatorConfig) (before : ConfigStatus) (found : Result Resolution)
      (c : Config) (s : S) (r : R)
      → Ends (with_inventory k server operator_config before found c s r)
  unfolding with_inventory no_inventory Ends
  with_inventory-Ends operator_config before (err e) c s r =
      not_ready-IsConsistent k _ (fail_on-ready c _ _ _)
  with_inventory-Ends operator_config before (ok resolved) c s r =
      with_components-Ends before resolved _

  with_operator-Ends :
      (before : ConfigStatus) (found : Result OperatorConfig) (c : Config) (s : S) (r : R)
      → Ends (with_operator k server before found c s r)
  unfolding with_operator no_operator
  with_operator-Ends before (err e) c s r =
      retried-Ends _ _ r (not_ready-IsConsistent k _ (fail_on-ready c _ _ _))
  with_operator-Ends before (ok operator_config) c s r =
      with_inventory-Ends operator_config before _ _ s r

  -- Whichever status reconcileNormal of a config starts from and however it ends, the config that it
  -- leaves is Ready only if its issuer is ready and, if it is self-hosted, its webhook runtime too.
  pub reconcile_config-IsConsistent :
      (c : Config) (s : S) (r : R) → IsConsistent k (reconcile_config k server c s r).1
  unfolding reconcile_config Ends
  reconcile_config-IsConsistent c s r = with_operator-Ends c.status _ _ s r
