-- ===== src/Controller/ReplicaSet/Aggregate/Readiness.antt =====
-- When a ReplicaSet is reported ready.
use aws_workload_identity_op.Prelude.{
  ℕ, ◌≡◌, ◌<◌, some, arith, ◌↔◌, ◌==◌, String, List, if◌then◌else◌,
}
use aws_workload_identity_op.Api.Conditions.{
  status_true, StatusConditions, report_at, Report, Condition,
}
use aws_workload_identity_op.Api.ConditionTypes
use aws_workload_identity_op.Controller.Common.Reports.{report_at-set_condition}
use aws_workload_identity_op.Controller.ReplicaSet.Types.{ReplicaSetStatus}
use aws_workload_identity_op.Controller.ReplicaSet.Aggregate.{
  set_aggregate_conditions, set_verdicts, Verdict, Verdicts, aggregate_verdicts, List, String,
}

abbrev pub as_report : ℕ → Verdict → Report
as_report generation v = record {
  status = v.status;
  observed_generation = generation;
  reason = v.reason;
  message = v.message;
}

module _ (k : StatusConditions) (cs : List Condition) (generation : ℕ) (vs : Verdicts) where
  report_at-set_verdicts :
      (t : String)
      → report_at k (set_verdicts k cs generation vs) t ≡ (
          if ConditionTypes.ready == t
          then some (as_report generation vs.overall)
          else if ConditionTypes.service_account_roles_ready == t
          then some (as_report generation vs.children)
          else if ConditionTypes.service_account_roles_applied == t
          then some (as_report generation vs.applied)
          else report_at k cs t)
  unfolding set_verdicts
  report_at-set_verdicts t = simp report_at-set_condition

-- What the three verdicts say, whatever the counters.
pub record IsHonest (s : ReplicaSetStatus) (vs : Verdicts) : Type 0 where
  pub ready_iff :
      (vs.overall.status ≡ status_true)
      ↔ (s.failure_count ≡ 0)
        × (s.conflict_count ≡ 0)
        × (s.stale_cluster_count ≡ 0)
        × (s.ready_cluster_count ≡ s.desired_cluster_count)
  pub children_iff : (vs.children.status ≡ status_true) ↔ (vs.overall.status ≡ status_true)

aggregate_verdicts-IsHonest :
    (s : ReplicaSetStatus)
    → s.failure_count < 2147483648
    → s.conflict_count < 2147483648
    → IsHonest s (aggregate_verdicts s)
unfolding aggregate_verdicts
aggregate_verdicts-IsHonest s h k = record {
  ready_iff = (λ e. ground arith, λ (a, b, c, d). ground arith);
  children_iff = (λ e. ground arith, λ e. ground arith);
}

module _ (k : StatusConditions) (generation : ℕ) (s : ReplicaSetStatus) where
  -- After the call the Ready condition is True exactly when no selected cluster failed, conflicts or is
  -- stale and as many children are ready as are desired, and the condition on the children's
  -- readiness agrees with it; the three conditions observe the generation, and no other condition
  -- type is touched. The failure and conflict counters are below 2^31.
  pub set_aggregate_conditions-IsHonest :
      (t : String)
      → s.failure_count < 2147483648
      → s.conflict_count < 2147483648
      → (report_at k (set_aggregate_conditions k generation s) t ≡ (
          if ConditionTypes.ready == t
          then some (as_report generation (aggregate_verdicts s).overall)
          else if ConditionTypes.service_account_roles_ready == t
          then some (as_report generation (aggregate_verdicts s).children)
          else if ConditionTypes.service_account_roles_applied == t
          then some (as_report generation (aggregate_verdicts s).applied)
          else report_at k s.conditions t))
        × IsHonest s (aggregate_verdicts s)
  unfolding set_aggregate_conditions
  set_aggregate_conditions-IsHonest t h m = (
    report_at-set_verdicts k s.conditions generation (aggregate_verdicts s) t,
    aggregate_verdicts-IsHonest s h m,
  )
