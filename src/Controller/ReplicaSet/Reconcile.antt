-- ===== src/Controller/ReplicaSet/Reconcile.antt =====
-- reconcileReplicaSetNormal, applyReplicaSetRolloutClusters and patchReplicaSetStatus.
pub mod Recorded
use aws_workload_identity_op.Prelude.{
  String, if◌then◌else◌, Option, none, some, List, [], ◌∷◌, ◌++◌, length, join, map,
}
use aws_workload_identity_op.Prelude.Maps.{Map, lookup, insert}
use aws_workload_identity_op.Prelude.Int.{pos}
use aws_workload_identity_op.Prelude.Int32.{add32}
use aws_workload_identity_op.Api.Conditions.{StatusConditions, status_true}
use aws_workload_identity_op.Api.ConditionTypes
use aws_workload_identity_op.Api.Reasons
use aws_workload_identity_op.Api.Errors.{Failure, Result, ok, err, errors_of_result}
use aws_workload_identity_op.Api.Types.{Role}
use aws_workload_identity_op.Controller.Common.{
  set_condition, fail_ready, transient_requeue, RequeueAfter, result_with_dependency_safety_requeue,
}
use aws_workload_identity_op.Controller.ReplicaSet.Types.{
  ReplicaSet, ReplicaSetStatus, ClusterSummary, no_phase,
}
use aws_workload_identity_op.Controller.ReplicaSet.Counts.{
  count_int32, reset_derived_status, update_counts, append_summary,
}
use aws_workload_identity_op.Controller.ReplicaSet.Aggregate.{set_aggregate_conditions}
use aws_workload_identity_op.Controller.ReplicaSet.Template.{
  ChildTemplate, new_child_template, validate_template_metadata,
}
use aws_workload_identity_op.Controller.ReplicaSet.Server.{Server, has, names_list}
use aws_workload_identity_op.Controller.ReplicaSet.Resolve.{Resolution, resolve_placements}
use aws_workload_identity_op.Controller.ReplicaSet.Plan.{
  RolloutPlan, plan_rollout, plan_summary, apply_rollout_status,
}
use aws_workload_identity_op.Controller.ReplicaSet.Apply.{
  apply_cluster, prune_children, list_owned_children, errors_of_apply,
}

-- What Reconcile returns: the requeue of its result, or the errors that it joins.
pub data Outcome : Type 0 where
  requeue : RequeueAfter → Outcome
  failed : List Failure → Outcome

abbrev pub outcome_of : RequeueAfter → Result (Unit {0}) → Outcome
outcome_of after (ok _) = requeue after
outcome_of after (err e) = failed (e ∷ [])

-- childrenByNS: a later child of a namespace replaces an earlier one.
children_by_namespace : List Role → Map Role → Map Role
children_by_namespace [] m = m
children_by_namespace (child ∷ children) m =
    children_by_namespace children (insert child.meta.namespace child m)

-- The zero summary of a map read of a missing cluster.
pub summary_or_zero : Option ClusterSummary → ClusterSummary
summary_or_zero none = record {
  cluster_name = "";
  namespace = "";
  name = "";
  phase = no_phase;
  reason = "";
  message = "";
}
summary_or_zero (some summary) = summary

-- The texts that errors.Join joins.
joined_text : List Failure → String
joined_text errors = join "\n" (map (λ e. e.text) errors)

abbrev pub with_status : ReplicaSet → ReplicaSetStatus → ReplicaSet
with_status rs status = record rs { status = status }

-- The variables of the loop over the clusters: the status, the errors and the server.
pub record Applying (S : Type 0) : Type 0 where
  pub status : ReplicaSetStatus
  pub errors : List Failure
  pub server_state : S

module _ (k : StatusConditions) {S : Type 0} (server : Server S) where
  -- patchReplicaSetStatus
  unfoldable pub patch_replica_set_status :
      ReplicaSet → ReplicaSetStatus → S → Result (Unit {0}) × S
  patch_replica_set_status rs before s =
      if server.statuses_equal before rs.status then (ok tt, s) else server.patch_status rs s

  pub apply_one :
      ReplicaSet → RolloutPlan → Map Role → ChildTemplate → String → Applying S → Applying S
  unfolding apply_cluster update_counts append_summary summary_or_zero
  apply_one rs plan children template name acc =
      let planned = summary_or_zero (lookup name plan.summaries) in
      let (applied, s') =
        (if has name plan.rollout_clusters
          then apply_cluster server rs template acc.server_state name planned (lookup name children)
          else (record { summary = planned; error = none }, acc.server_state)) in
      record {
        status = append_summary (update_counts acc.status applied.summary) applied.summary;
        errors = acc.errors ++ errors_of_apply applied;
        server_state = s';
      }

  -- applyReplicaSetRolloutClusters
  unfoldable pub apply_rollout_clusters :
      ReplicaSet → RolloutPlan → Map Role → ChildTemplate → List String → Applying S → Applying S
  unfolding apply_one
  apply_rollout_clusters rs plan children template [] acc = acc
  apply_rollout_clusters rs plan children template (name ∷ names) acc =
      apply_rollout_clusters rs plan children template names
        (apply_one rs plan children template name acc)

  abbrev fail_with :
      ReplicaSet → ReplicaSetStatus → RequeueAfter → String → String → String → S → Outcome × S
  fail_with rs before after condition_type reason message s =
      let (answer, s') =
        patch_replica_set_status
          (with_status rs (record rs.status {
            conditions =
                fail_ready k rs.status.conditions rs.meta.generation condition_type reason message;
          }))
          before s in
      (outcome_of after answer, s')

  -- The end of reconcileReplicaSetNormal: pruning, the aggregate conditions and the status patch.
  finish :
      ReplicaSet
      → ReplicaSetStatus
      → Resolution
      → RolloutPlan
      → List Role
      → Applying S
      → Outcome × S
  unfolding prune_children count_int32 set_aggregate_conditions patch_replica_set_status
      result_with_dependency_safety_requeue
  finish rs before resolution plan children acc =
      let (pruning, s') = prune_children server children resolution.clusters acc.server_state in
      let counted = record acc.status {
        stale_cluster_count = add32 acc.status.stale_cluster_count (count_int32 (pos pruning.0));
      } in
      let final = record counted {
        conditions = set_aggregate_conditions k rs.meta.generation counted;
      } in
      let (answer, s'') = patch_replica_set_status (with_status rs final) before s' in
      (
        elim (acc.errors ++ pruning.1) [
          | [] ↦ outcome_of (result_with_dependency_safety_requeue plan.requeue_after) answer
          | e ∷ es ↦ failed ((e ∷ es) ++ errors_of_result answer)
        ],
        s'',
      )

  -- The status once the placements are resolved and the children are listed.
  resolved_status : ReplicaSet → ReplicaSetStatus → Resolution → ReplicaSetStatus
  unfolding reset_derived_status set_condition count_int32
  resolved_status rs before resolution =
      let fresh = reset_derived_status rs.status in
      record fresh {
        conditions =
            set_condition k fresh.conditions rs.meta.generation ConditionTypes.placement_resolved
              status_true Reasons.resolved "placement references resolved";
        selected_cluster_count = count_int32 (pos (length resolution.clusters));
        placements = resolution.placement_statuses;
        rollout = before.rollout;
      }

  -- From the plan on: rollout status, apply, prune, aggregate.
  with_plan :
      ReplicaSet
      → ReplicaSetStatus
      → Resolution
      → List Role
      → ChildTemplate
      → Map Role
      → S
      → Result RolloutPlan
      → Outcome × S
  unfolding apply_rollout_status plan_summary apply_rollout_clusters finish names_list
  with_plan rs before resolution children template by_namespace s (ok plan) =
      let status =
        apply_rollout_status k rs.meta.generation rs.status plan
          (plan_summary k rs resolution plan) in
      let planned = with_status rs status in
      finish planned before resolution plan children (
        apply_rollout_clusters planned plan by_namespace template (names_list resolution.clusters)
          (record { status = status; errors = []; server_state = s }))
  with_plan rs before resolution children template by_namespace s (err e) =
      fail_with rs before 0 ConditionTypes.placement_rolled_out Reasons.child_apply_failed e.text s

  with_children : ReplicaSet → ReplicaSetStatus → Resolution → S → Result (List Role) → Outcome × S
  unfolding resolved_status children_by_namespace new_child_template with_plan plan_rollout
  with_children rs before resolution s (ok children) =
      let planning = with_status rs (resolved_status rs before resolution) in
      let template = new_child_template planning in
      let by_namespace = children_by_namespace children [] in
      with_plan planning before resolution children template by_namespace s
        (plan_rollout k server s planning template by_namespace resolution)
  with_children rs before resolution s (err e) = (failed (e ∷ []), s)

  after_resolution : ReplicaSet → ReplicaSetStatus → S → Resolution → List Failure → Outcome × S
  unfolding with_children list_owned_children joined_text
  after_resolution rs before s resolution [] =
      with_children rs before resolution s (list_owned_children server s rs)
  after_resolution rs before s resolution (e ∷ es) =
      fail_with (with_status rs (record rs.status { placements = resolution.placement_statuses }))
        before transient_requeue ConditionTypes.placement_resolved Reasons.placement_unavailable
        (joined_text (e ∷ es)) s

  after_validation : ReplicaSet → ReplicaSetStatus → S → Option Failure → Outcome × S
  unfolding after_resolution resolve_placements
  after_validation rs before s none =
      let resolution = resolve_placements k server s rs in
      after_resolution rs before s resolution resolution.errors
  after_validation rs before s (some e) =
      fail_with rs before 0 ConditionTypes.service_account_roles_applied Reasons.invalid_spec e.text
        s

  -- reconcileReplicaSetNormal
  unfoldable pub reconcile_normal : ReplicaSet → S → Outcome × S
  unfolding after_validation validate_template_metadata
  reconcile_normal rs s =
      let observed =
        with_status rs (record rs.status { observed_generation = rs.meta.generation }) in
      after_validation observed rs.status s (validate_template_metadata observed)
