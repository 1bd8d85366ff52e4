-- ===== src/Controller/Common/Reports.antt =====
-- What the conditions say after `setCondition`, `setACKReadyCondition` and `failReady`.
use aws_workload_identity_op.Prelude.{ℕ, String, ◌==◌, ◌≡◌, if◌then◌else◌, some, List}
use aws_workload_identity_op.Api.Conditions.{
  Condition, ConditionStatus, status_false, StatusConditions, report_at,
}
use aws_workload_identity_op.Api.ConditionTypes
use aws_workload_identity_op.Controller.Common.{set_condition, fail_ready}

module _ (k : StatusConditions) (cs : List Condition) (generation : ℕ) where
  -- The condition that was set has what was written, and every other is as before.
  pub report_at-set_condition :
      (condition_type : String) (status : ConditionStatus) (reason message t : String)
      → report_at k (set_condition k cs generation condition_type status reason message) t ≡ (
          if condition_type == t
          then some (record {
            status = status;
            observed_generation = generation;
            reason = reason;
            message = message;
          })
          else report_at k cs t)
  unfolding set_condition
  report_at-set_condition condition_type status reason message t = k.find-set cs _ t

  -- `failReady` leaves the Ready condition False with its reason and message, and the condition that
  -- it names too.
  pub report_at-fail_ready :
      (condition_type reason message t : String)
      → report_at k (fail_ready k cs generation condition_type reason message) t ≡ (
          if ConditionTypes.ready == t
          then some (record {
            status = status_false;
            observed_generation = generation;
            reason = reason;
            message = message;
          })
          else if condition_type == t
          then some (record {
            status = status_false;
            observed_generation = generation;
            reason = reason;
            message = message;
          })
          else report_at k cs t)
  unfolding fail_ready set_condition
  report_at-fail_ready condition_type reason message t =
      rw (k.find-set _ _ t) (rw (k.find-set _ _ t))
