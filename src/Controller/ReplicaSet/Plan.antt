-- ===== src/Controller/ReplicaSet/Plan.antt =====
-- planReplicaSetRollout and applyReplicaSetRolloutStatus.
use aws_workload_identity_op.Prelude.{
  ℕ, String, ◌==◌, if◌then◌else◌, Option, none, some, List, [], ◌∷◌, ◌++◌, length, cat, quote,
  nat_eq, ltb, min, map,
}
use aws_workload_identity_op.Prelude.Maps.{Map, lookup, insert}
use aws_workload_identity_op.Prelude.Int.{pos}
use aws_workload_identity_op.Prelude.Int32.{int_of_32, add_ℤ}
use aws_workload_identity_op.Api.Conditions.{StatusConditions}
use aws_workload_identity_op.Api.Errors.{Result, ok, wrap_result, ◌>>=◌}
use aws_workload_identity_op.Api.Types.{Role}
use aws_workload_identity_op.Controller.ReplicaSet.Types.{
  ReplicaSet, ReplicaSetStatus, PlacementRef, PlacementStatus, ClusterSummary, ClusterRolloutStatus,
  RolloutSummary,
}
use aws_workload_identity_op.Controller.ReplicaSet.Counts.{count_int32}
use aws_workload_identity_op.Controller.ReplicaSet.Template.{ChildTemplate}
use aws_workload_identity_op.Controller.ReplicaSet.Aggregate.{apply_placement_rolled_out_condition}
use aws_workload_identity_op.Controller.ReplicaSet.Server.{
  Server, Names, insert_name, names_list, RolloutResult,
}
use aws_workload_identity_op.Controller.ReplicaSet.Resolve.{
  Resolution, ResolvedPlacement, no_groups,
}
use aws_workload_identity_op.Controller.ReplicaSet.Cluster.{existing_cluster_summary}
use aws_workload_identity_op.Controller.ReplicaSet.Rollout.{
  new_rollout_summary, available_decision_groups_message, placement_rollout_conditions,
  rollout_conditions, default_rollout_strategy, summary_from_rollout_status,
}

-- replicaSetRolloutPlan, with the set of timed-out clusters that the loop keeps beside it.
pub record RolloutPlan : Type 0 where
  pub rollout_clusters : Names
  pub timeout_clusters : Names
  pub summaries : Map ClusterSummary
  pub statuses : Map ClusterRolloutStatus
  pub placement_rollouts : Map RolloutSummary
  pub available_decision_groups : Map String
  pub requeue_after : ℕ

abbrev pub empty_plan : RolloutPlan
empty_plan = record {
  rollout_clusters = [];
  timeout_clusters = [];
  summaries = [];
  statuses = [];
  placement_rollouts = [];
  available_decision_groups = [];
  requeue_after = 0;
}

-- The variables of the loop over one placement's clusters.
pub record RefPlan : Type 0 where
  pub plan : RolloutPlan
  pub statuses : Map ClusterRolloutStatus
  pub existing : List ClusterRolloutStatus
  pub updating : Names
  pub late : Names

-- The zero value of a map read of a missing placement.
resolved_or_zero : Option ResolvedPlacement → ResolvedPlacement
resolved_or_zero none = record { placement = none; groups = no_groups; error = none }
resolved_or_zero (some r) = r

add_existing : String → ClusterSummary × ClusterRolloutStatus → RefPlan → RefPlan
add_existing name (summary, status) acc = record acc {
  plan = record acc.plan {
    summaries = insert name summary acc.plan.summaries;
    statuses = insert name status acc.plan.statuses;
  };
  statuses = insert name status acc.statuses;
  existing = acc.existing ++ status ∷ [];
}

-- `for _, status := range rolloutResult.ClustersToRollout`
add_updating : List ClusterRolloutStatus → RefPlan → RefPlan
add_updating [] acc = acc
add_updating (status ∷ rest) acc = add_updating rest (
    if status.cluster_name == "" then acc else record acc {
      plan = record acc.plan {
        statuses = insert status.cluster_name status acc.plan.statuses;
        rollout_clusters = insert_name status.cluster_name acc.plan.rollout_clusters;
      };
      statuses = insert status.cluster_name status acc.statuses;
      updating = insert_name status.cluster_name acc.updating;
    })

-- `for _, status := range rolloutResult.ClustersTimeOut`
add_late : ReplicaSet → List ClusterRolloutStatus → RefPlan → RefPlan
unfolding summary_from_rollout_status
add_late rs [] acc = acc
add_late rs (status ∷ rest) acc = add_late rs rest (
    if status.cluster_name == "" then acc else record acc {
      plan = record acc.plan {
        statuses = insert status.cluster_name status acc.plan.statuses;
        summaries =
            insert status.cluster_name (summary_from_rollout_status rs status) acc.plan.summaries;
        timeout_clusters = insert_name status.cluster_name acc.plan.timeout_clusters;
      };
      statuses = insert status.cluster_name status acc.statuses;
      late = insert_name status.cluster_name acc.late;
    })

-- The shorter of the requeues asked for; 0 is none.
unfoldable pub shorter_requeue : ℕ → Option ℕ → ℕ
shorter_requeue current none = current
shorter_requeue current (some after) =
    if ltb 0 after then (if nat_eq current 0 then after else min current after) else current

module _ (k : StatusConditions) {S : Type 0} (server : Server S) (s : S) (rs : ReplicaSet)
    (template : ChildTemplate) (children : Map Role) where
  existing_statuses : List String → RefPlan → Result RefPlan
  unfolding existing_cluster_summary add_existing
  existing_statuses [] acc = ok acc
  existing_statuses (name ∷ names) acc =
      existing_cluster_summary k server rs template s name (lookup name children) >>= λ found.
      existing_statuses names (add_existing name found acc)

  finish_ref : PlacementRef → ResolvedPlacement → RolloutResult → RefPlan → RolloutPlan
  unfolding new_rollout_summary available_decision_groups_message shorter_requeue
  finish_ref ref resolved result acc = record acc.plan {
    placement_rollouts =
        insert ref.name
          (new_rollout_summary k (count_int32 (pos (length resolved.groups.clusters))) acc.updating
            acc.late acc.statuses (placement_rollout_conditions rs.status.placements ref.name)
            rs.meta.generation)
          acc.plan.placement_rollouts;
    available_decision_groups =
        insert ref.name
          (available_decision_groups_message resolved.placement resolved.groups acc.statuses
            acc.updating)
          acc.plan.available_decision_groups;
    requeue_after = shorter_requeue acc.plan.requeue_after result.recheck_after;
  }

  -- A placement with no cluster groups.
  plan_empty_ref : PlacementRef → ResolvedPlacement → RolloutPlan → RolloutPlan
  unfolding new_rollout_summary available_decision_groups_message
  plan_empty_ref ref resolved plan = record plan {
    placement_rollouts =
        insert ref.name
          (new_rollout_summary k 0 [] [] []
            (placement_rollout_conditions rs.status.placements ref.name) rs.meta.generation)
          plan.placement_rollouts;
    available_decision_groups =
        insert ref.name (available_decision_groups_message resolved.placement resolved.groups [] [])
          plan.available_decision_groups;
  }

  plan_ref : PlacementRef → ResolvedPlacement → RolloutPlan → Result RolloutPlan
  unfolding existing_statuses add_updating add_late finish_ref plan_empty_ref names_list
      default_rollout_strategy
  plan_ref ref resolved plan =
      if nat_eq resolved.groups.group_count 0
      then ok (plan_empty_ref ref resolved plan)
      else (existing_statuses (names_list resolved.groups.clusters)
            (record { plan = plan; statuses = []; existing = []; updating = []; late = [] })
          >>= λ acc.
              wrap_result (cat ("plan rollout for placement ref " ∷ quote ref.name ∷ [])) (
                server.rollout_clusters resolved.groups
                  (default_rollout_strategy ref.rollout_strategy) acc.existing)
              >>= λ result. ok (
                  finish_ref ref resolved result (
                    add_late rs result.clusters_time_out
                      (add_updating result.clusters_to_rollout acc))))

  plan_refs : Map ResolvedPlacement → List PlacementRef → RolloutPlan → Result RolloutPlan
  unfolding plan_ref resolved_or_zero
  plan_refs by_ref [] plan = ok plan
  plan_refs by_ref (ref ∷ refs) plan =
      plan_ref ref (resolved_or_zero (lookup ref.name by_ref)) plan >>= λ next.
      plan_refs by_ref refs next

  -- planReplicaSetRollout, without its final summary.
  unfoldable pub plan_rollout : Resolution → Result RolloutPlan
  unfolding plan_refs
  plan_rollout resolution = plan_refs resolution.by_ref rs.placement_refs empty_plan

-- plan.summary
unfoldable pub plan_summary :
    StatusConditions → ReplicaSet → Resolution → RolloutPlan → RolloutSummary
unfolding new_rollout_summary count_int32
plan_summary k rs resolution plan =
    new_rollout_summary k (count_int32 (pos (length resolution.clusters))) plan.rollout_clusters
      plan.timeout_clusters plan.statuses (rollout_conditions rs.status.rollout) rs.meta.generation

text_of : Option String → String
text_of none = ""
text_of (some t) = t

with_rollout : RolloutPlan → PlacementStatus → PlacementStatus
unfolding text_of
with_rollout plan p = record p {
  rollout = lookup p.name plan.placement_rollouts;
  available_decision_groups = text_of (lookup p.name plan.available_decision_groups);
}

-- applyReplicaSetRolloutStatus
unfoldable pub apply_rollout_status :
    StatusConditions → ℕ → ReplicaSetStatus → RolloutPlan → RolloutSummary → ReplicaSetStatus
unfolding with_rollout count_int32 apply_placement_rolled_out_condition
apply_rollout_status k generation status plan summary =
    apply_placement_rolled_out_condition k
      (record status {
        rollout = some summary;
        desired_cluster_count =
            count_int32 (add_ℤ (int_of_32 summary.updating) (int_of_32 summary.succeeded));
        placements = map (with_rollout plan) status.placements;
      })
      (some summary) generation
