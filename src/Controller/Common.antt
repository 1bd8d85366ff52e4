-- ===== src/Controller/Common.antt =====
-- internal/controller/common.go: conditions, requeue cadences, names and finalizers.
pub mod Reports
pub mod Names
pub mod Finalizers
use aws_workload_identity_op.Prelude.{
  ℕ, String, ◌==◌, Bool, true, false, not, ◌&&◌, if◌then◌else◌, ltb, nat_eq, none, List, cat, [],
  ◌∷◌, Option,
}
use aws_workload_identity_op.Api.Conditions.{
  Condition, ConditionStatus, status_true, status_false, StatusConditions,
}
use aws_workload_identity_op.Api.ConditionTypes
use aws_workload_identity_op.Api.Reasons

-- Durations in seconds.
abbrev pub transient_requeue : ℕ
transient_requeue = 30

abbrev pub dependency_steady_state_requeue : ℕ
dependency_steady_state_requeue = 3600

abbrev pub self_hosted_steady_state_requeue : ℕ
self_hosted_steady_state_requeue = 3600

-- ctrl.Result, by its RequeueAfter. The zero result asks for no requeue.
abbrev pub RequeueAfter : Type 0
RequeueAfter = ℕ

-- resultWithDependencySafetyRequeue
unfoldable pub result_with_dependency_safety_requeue : RequeueAfter → RequeueAfter
result_with_dependency_safety_requeue after =
    if nat_eq after 0
    then dependency_steady_state_requeue
    else if ltb dependency_steady_state_requeue after
    then dependency_steady_state_requeue
    else after

-- setCondition
unfoldable pub set_condition :
    StatusConditions
    → List Condition
    → ℕ
    → String
    → ConditionStatus
    → String
    → String
    → List Condition
set_condition k cs generation condition_type status reason message = k.set_status cs (record {
  condition_type = condition_type;
  report = record {
    status = status;
    observed_generation = generation;
    reason = reason;
    message = message;
  };
  last_transition_time = none;
})

-- setACKReadyCondition
unfoldable pub set_ack_ready_condition :
    StatusConditions → List Condition → ℕ → String → String → Bool → Bool → List Condition
set_ack_ready_condition k cs generation condition_type kind synced identifier_observed =
    if synced && identifier_observed
    then set_condition k cs generation condition_type status_true Reasons.ack_resource_synced
        (cat (kind ∷ " is synced by ACK" ∷ []))
    else if not synced
    then set_condition k cs generation condition_type status_false Reasons.ack_resource_not_synced
        (cat ("waiting for ACK " ∷ kind ∷ " sync" ∷ []))
    else set_condition k cs generation condition_type status_false
        Reasons.ack_resource_identifier_pending
        (cat
          ("ACK reports " ∷ kind ∷ " as synced but its identifier has not been observed yet" ∷ []))

-- failReady
unfoldable pub fail_ready :
    StatusConditions → List Condition → ℕ → String → String → String → List Condition
fail_ready k cs generation condition_type reason message =
    set_condition k (set_condition k cs generation condition_type status_false reason message)
      generation ConditionTypes.ready status_false reason message
