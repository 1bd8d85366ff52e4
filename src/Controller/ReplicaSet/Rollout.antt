-- ===== src/Controller/ReplicaSet/Rollout.antt =====
-- The rollout summary of a ReplicaSet or of one placement: newReplicaSetRolloutSummary,
-- availableDecisionGroupsMessage, summaryFromRolloutStatus and their helpers.
pub mod Progress
use aws_workload_identity_op.Prelude.{
  ℕ, zero, suc, ◌+◌, String, ◌==◌, Bool, true, false, not, ◌&&◌, ◌||◌, if◌then◌else◌, Option, none,
  some, List, [], ◌∷◌, nat_eq, ltb, cat, decimal, length,
}
use aws_workload_identity_op.Prelude.Maps.{Map}
use aws_workload_identity_op.Prelude.Int.{pos}
use aws_workload_identity_op.Prelude.Int32.{inc32, add32, text_of_32}
use aws_workload_identity_op.Api.Conditions.{Condition, status_true, status_false, StatusConditions}
use aws_workload_identity_op.Api.ConditionTypes
use aws_workload_identity_op.Api.Reasons
use aws_workload_identity_op.Controller.Common.{set_condition}
use aws_workload_identity_op.Controller.ReplicaSet.Types.{
  ClusterSummary, ClusterRolloutStatus, RolloutSummary, RolloutState, RolloutStrategy,
  PlacementStatus, ReplicaSetStatus, ReplicaSet, pending,
}
use aws_workload_identity_op.Controller.ReplicaSet.Types
use aws_workload_identity_op.Controller.ReplicaSet.Counts.{count_int32}
use aws_workload_identity_op.Controller.ReplicaSet.Server.{Names, has, ClusterGroups, Placement}

abbrev pub message_generated_child_ready : String
message_generated_child_ready = "generated AWSServiceAccountRole child is ready"

abbrev pub message_waiting_for_child_readiness : String
message_waiting_for_child_readiness = "waiting for generated AWSServiceAccountRole child readiness"

abbrev pub message_waiting_for_rollout_to_apply : String
message_waiting_for_rollout_to_apply =
    "waiting for rollout strategy to apply generated AWSServiceAccountRole child"

-- rolloutConditions
unfoldable pub rollout_conditions : Option RolloutSummary → List Condition
rollout_conditions none = []
rollout_conditions (some summary) = summary.conditions

-- placementRolloutConditions
unfoldable pub placement_rollout_conditions : List PlacementStatus → String → List Condition
unfolding rollout_conditions
placement_rollout_conditions [] name = []
placement_rollout_conditions (p ∷ ps) name =
    let rest = placement_rollout_conditions ps name in
    if p.name == name then rollout_conditions p.rollout else rest

count_state : RolloutState → RolloutSummary → RolloutSummary
count_state RolloutState.succeeded s = record s { succeeded = inc32 s.succeeded }
count_state RolloutState.failed s = record s { failed = inc32 s.failed }
count_state RolloutState.time_out s = record s { timed_out = inc32 s.timed_out }
count_state RolloutState.to_apply s = s
count_state RolloutState.progressing s = s
count_state RolloutState.skip s = s

pub count_states : Names → Names → Map ClusterRolloutStatus → RolloutSummary → RolloutSummary
unfolding count_state
count_states updating timed_out [] s = s
count_states updating timed_out ((cluster_name, status) ∷ rest) s =
    count_states updating timed_out rest (
      if has cluster_name updating || has cluster_name timed_out
      then s
      else count_state status.state s)

pub is_complete : RolloutSummary → Bool
is_complete s =
    nat_eq s.succeeded s.total
    && (nat_eq s.failed 0 && (nat_eq s.timed_out 0 && nat_eq s.updating 0))

pub set_progressing : StatusConditions → ℕ → RolloutSummary → RolloutSummary
unfolding is_complete
set_progressing k generation s = record s {
  conditions =
      if is_complete s
      then set_condition k s.conditions generation ConditionTypes.progressing status_false
          Reasons.complete
          (cat (
            "selected clusters "
            ∷ text_of_32 s.total
            ∷ ". AWSServiceAccountRole children "
            ∷ text_of_32 s.succeeded
            ∷ "/"
            ∷ text_of_32 s.total
            ∷ " completed with no errors, "
            ∷ text_of_32 s.failed
            ∷ " failed "
            ∷ text_of_32 s.timed_out
            ∷ " timed out."
            ∷ []))
      else set_condition k s.conditions generation ConditionTypes.progressing status_true
          Reasons.progressing
          (cat (
            "selected clusters "
            ∷ text_of_32 s.total
            ∷ ". AWSServiceAccountRole children "
            ∷ text_of_32 (add32 s.updating s.succeeded)
            ∷ "/"
            ∷ text_of_32 s.total
            ∷ " progressing, "
            ∷ text_of_32 s.failed
            ∷ " failed "
            ∷ text_of_32 s.timed_out
            ∷ " timed out."
            ∷ []));
}

-- The summary before the loop over the statuses.
unfoldable pub start_summary : ℕ → Names → Names → List Condition → RolloutSummary
unfolding count_int32
start_summary total updating timed_out previous_conditions = record {
  total = total;
  updating = count_int32 (pos (length updating));
  succeeded = 0;
  failed = 0;
  timed_out = count_int32 (pos (length timed_out));
  conditions = previous_conditions;
}

-- newReplicaSetRolloutSummary
unfoldable pub new_rollout_summary :
    StatusConditions
    → ℕ
    → Names
    → Names
    → Map ClusterRolloutStatus
    → List Condition
    → ℕ
    → RolloutSummary
unfolding count_states set_progressing
new_rollout_summary k total updating timed_out statuses previous_conditions generation =
    set_progressing k generation (
      count_states updating timed_out statuses
        (start_summary total updating timed_out previous_conditions))

total_groups : ℕ → Option Placement → ℕ
total_groups groups none = groups
total_groups groups (some p) = if ltb 0 p.decision_groups then p.decision_groups else groups

total_clusters : ℕ → Option Placement → ℕ
total_clusters clusters none = clusters
total_clusters clusters (some p) =
    if ltb 0 p.number_of_selected_clusters then p.number_of_selected_clusters else clusters

is_to_apply : RolloutState → Bool
is_to_apply RolloutState.to_apply = true
is_to_apply _ = false

applied_clusters : Names → Names → Map ClusterRolloutStatus → ℕ
unfolding is_to_apply
applied_clusters selected applying [] = 0
applied_clusters selected applying ((cluster_name, status) ∷ rest) =
    (if has cluster_name selected && (has cluster_name applying || not (is_to_apply status.state))
      then 1
      else 0)
    + applied_clusters selected applying rest

-- availableDecisionGroupsMessage
unfoldable pub available_decision_groups_message :
    Option Placement → ClusterGroups → Map ClusterRolloutStatus → Names → String
unfolding total_groups total_clusters applied_clusters
available_decision_groups_message placement groups statuses applying = cat (
    decimal (total_groups groups.group_count placement)
    ∷ " ("
    ∷ decimal (applied_clusters groups.clusters applying statuses)
    ∷ " / "
    ∷ decimal (total_clusters (length groups.clusters) placement)
    ∷ " clusters applied)"
    ∷ [])

-- defaultRolloutStrategy
unfoldable pub default_rollout_strategy : RolloutStrategy → RolloutStrategy
default_rollout_strategy s = if s.strategy_type == "" then record s { strategy_type = "All" } else s

-- The summary that existingReplicaSetClusterSummary and summaryFromRolloutStatus start from.
abbrev pub rollout_pending_summary : String → String → ClusterSummary
rollout_pending_summary cluster_name name = record {
  cluster_name = cluster_name;
  namespace = cluster_name;
  name = name;
  phase = pending;
  reason = Reasons.rollout_pending;
  message = message_waiting_for_rollout_to_apply;
}

with_state : RolloutState → ClusterSummary → ClusterSummary
with_state RolloutState.succeeded s = record s {
  phase = Types.ready;
  reason = Reasons.ready;
  message = message_generated_child_ready;
}
with_state RolloutState.failed s = record s {
  phase = Types.failed;
  reason = Reasons.child_apply_failed;
  message = "generated AWSServiceAccountRole child failed before rollout could continue";
}
with_state RolloutState.time_out s = record s {
  phase = Types.timed_out;
  reason = Reasons.rollout_timed_out;
  message = "generated AWSServiceAccountRole child rollout timed out";
}
with_state _ s = s

-- summaryFromRolloutStatus
unfoldable pub summary_from_rollout_status : ReplicaSet → ClusterRolloutStatus → ClusterSummary
unfolding with_state
summary_from_rollout_status rs status =
    with_state status.state (rollout_pending_summary status.cluster_name rs.meta.name)
