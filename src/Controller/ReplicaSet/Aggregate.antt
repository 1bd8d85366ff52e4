-- ===== src/Controller/ReplicaSet/Aggregate.antt =====
-- setReplicaSetAggregateConditions and applyPlacementRolledOutCondition.
pub mod Readiness
use aws_workload_identity_op.Prelude.{
  ℕ, String, ◌==◌, Bool, ◌&&◌, if◌then◌else◌, Option, none, some, List, [], ◌∷◌, nat_eq, cat,
}
use aws_workload_identity_op.Prelude.Int32.{positive32, text_of_32}
use aws_workload_identity_op.Api.Conditions.{
  Condition, status_true, status_false, StatusConditions, ConditionStatus, is_status_false,
}
use aws_workload_identity_op.Api.ConditionTypes
use aws_workload_identity_op.Api.Reasons
use aws_workload_identity_op.Controller.Common.{set_condition}
use aws_workload_identity_op.Controller.ReplicaSet.Types.{ReplicaSetStatus, RolloutSummary}

abbrev pub children_pending_message : ReplicaSetStatus → String
children_pending_message s = cat (
    text_of_32 s.ready_cluster_count
    ∷ " of "
    ∷ text_of_32 s.desired_cluster_count
    ∷ " generated AWSServiceAccountRole children are ready"
    ∷ [])

unfoldable pub all_ready : ReplicaSetStatus → Bool
all_ready s =
    nat_eq s.ready_cluster_count s.desired_cluster_count
    && (nat_eq s.failure_count 0 && (nat_eq s.conflict_count 0 && nat_eq s.stale_cluster_count 0))

-- The arguments of one `setCondition` call.
pub record Verdict : Type 0 where
  pub status : ConditionStatus
  pub reason : String
  pub message : String

-- What one branch writes: the applied, the children's readiness and the Ready condition.
pub record Verdicts : Type 0 where
  pub applied : Verdict
  pub children : Verdict
  pub overall : Verdict

abbrev pub verdict : ConditionStatus → String → String → Verdict
verdict status reason message = record { status = status; reason = reason; message = message }

abbrev pub children_applied : Verdict
children_applied =
    verdict status_true Reasons.children_applied
      "generated AWSServiceAccountRole children are applied"

failure_verdicts : ReplicaSetStatus → Verdicts
failure_verdicts s =
    let message = cat (text_of_32 s.failure_count ∷ " selected clusters failed to apply" ∷ []) in
    record {
      applied = verdict status_false Reasons.child_apply_failed message;
      children = verdict status_false Reasons.children_pending (children_pending_message s);
      overall = verdict status_false Reasons.child_apply_failed message;
    }

conflict_verdicts : ReplicaSetStatus → Verdicts
conflict_verdicts s =
    let message = cat (
      text_of_32 s.conflict_count
      ∷ " selected clusters have conflicting AWSServiceAccountRole children"
      ∷ []) in
    record {
      applied = verdict status_false Reasons.child_conflict message;
      children = verdict status_false Reasons.children_pending (children_pending_message s);
      overall = verdict status_false Reasons.child_conflict message;
    }

ready_verdicts : Verdicts
ready_verdicts = record {
  applied = children_applied;
  children =
      verdict status_true Reasons.children_ready
        "generated AWSServiceAccountRole children are ready";
  overall = verdict status_true Reasons.ready "ReplicaSet is ready";
}

pending_verdicts : ReplicaSetStatus → Verdicts
pending_verdicts s =
    let waiting = verdict status_false Reasons.children_pending (children_pending_message s) in
    record {
      applied =
          if nat_eq s.applied_cluster_count s.desired_cluster_count
          then children_applied
          else waiting;
      children = waiting;
      overall = waiting;
    }

-- The `switch` of setReplicaSetAggregateConditions.
unfoldable pub aggregate_verdicts : ReplicaSetStatus → Verdicts
unfolding all_ready failure_verdicts conflict_verdicts ready_verdicts pending_verdicts
aggregate_verdicts s =
    if positive32 s.failure_count
    then failure_verdicts s
    else if positive32 s.conflict_count
    then conflict_verdicts s
    else if all_ready s
    then ready_verdicts
    else pending_verdicts s

set_verdict : StatusConditions → List Condition → ℕ → String → Verdict → List Condition
set_verdict k cs generation condition_type v =
    set_condition k cs generation condition_type v.status v.reason v.message

unfoldable pub set_verdicts : StatusConditions → List Condition → ℕ → Verdicts → List Condition
unfolding set_verdict
set_verdicts k cs generation vs =
    let first =
      set_verdict k cs generation ConditionTypes.service_account_roles_applied vs.applied in
    let second =
      set_verdict k first generation ConditionTypes.service_account_roles_ready vs.children in
    set_verdict k second generation ConditionTypes.ready vs.overall

-- setReplicaSetAggregateConditions
unfoldable pub set_aggregate_conditions : StatusConditions → ℕ → ReplicaSetStatus → List Condition
unfolding aggregate_verdicts set_verdicts
set_aggregate_conditions k generation s =
    set_verdicts k s.conditions generation (aggregate_verdicts s)

rolled_out : StatusConditions → ReplicaSetStatus → ℕ → Option Condition → ReplicaSetStatus
rolled_out k s generation none = s
rolled_out k s generation (some progressing) = record s {
  conditions =
      if is_status_false progressing.report.status
        && (progressing.report.reason == Reasons.complete)
      then set_condition k s.conditions generation ConditionTypes.placement_rolled_out status_true
          Reasons.complete progressing.report.message
      else set_condition k s.conditions generation ConditionTypes.placement_rolled_out status_false
          Reasons.progressing progressing.report.message;
}

-- applyPlacementRolledOutCondition
unfoldable pub apply_placement_rolled_out_condition :
    StatusConditions → ReplicaSetStatus → Option RolloutSummary → ℕ → ReplicaSetStatus
unfolding rolled_out
apply_placement_rolled_out_condition k s none generation = s
apply_placement_rolled_out_condition k s (some summary) generation =
    rolled_out k s generation (k.find_status summary.conditions ConditionTypes.progressing)
