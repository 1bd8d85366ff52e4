-- ===== src/Tests/Examples.antt =====
-- Examples of the theorems on the ReplicaSet controller: counters, conditions, templates and names.
use aws_workload_identity_op.Prelude.{
  ◌≡◌, String, true, false, ◌&&◌, nat_eq, none, some, List, [], ◌∷◌, length, arith, ◌↔◌, eq_iff,
}
use aws_workload_identity_op.Api.Reasons
use aws_workload_identity_op.Api.Conditions.{verdict_of}
use aws_workload_identity_op.Api.Conditions.{report_at}
use aws_workload_identity_op.Api.ConditionTypes
use aws_workload_identity_op.Api.Types.{NamespacedName, name_text, object_key}
use aws_workload_identity_op.Controller.Common.Names.{
  namespaced_name_from_string, namespaced_name_from_string-name_text,
}
use aws_workload_identity_op.Controller.ReplicaSet.Types
use aws_workload_identity_op.Controller.ReplicaSet.Types.{
  ClusterSummary, ClusterRolloutStatus, ReplicaSet, ReplicaSetStatus, RolloutState,
}
use aws_workload_identity_op.Controller.ReplicaSet.Counts.{record_summaries}
use aws_workload_identity_op.Controller.ReplicaSet.Counts.Reported.{record_summaries-reported}
use aws_workload_identity_op.Controller.ReplicaSet.Aggregate.{
  set_aggregate_conditions, aggregate_verdicts,
}
use aws_workload_identity_op.Controller.ReplicaSet.Aggregate.Readiness.{
  set_aggregate_conditions-IsHonest, IsHonest, as_report,
}
use aws_workload_identity_op.Controller.ReplicaSet.Template.{
  new_child_template, apply_template, owns_child, drifts, same_service_account_subject,
}
use aws_workload_identity_op.Controller.ReplicaSet.Template.Ownership.{
  owns_child-apply_template, drifts-apply_template,
}
use aws_workload_identity_op.Controller.ReplicaSet.Rollout.{
  new_rollout_summary, placement_rollout_conditions,
}
use aws_workload_identity_op.Controller.ReplicaSet.Rollout.Progress.{
  IsCounted, new_rollout_summary-IsCounted,
}
use aws_workload_identity_op.Controller.ReplicaSet.Resolve.{resolve_placements}
use aws_workload_identity_op.Controller.ReplicaSet.Resolve.Fresh.{
  placement_rollout_conditions-resolve_placements,
}
use aws_workload_identity_op.Tests.Fixtures.{list_conditions, text_equality}
use aws_workload_identity_op.Tests.World.{
  world_server, web_replica_set, web_role, no_status, empty_world,
}
use aws_workload_identity_op.Prelude.{if◌then◌else◌}
use aws_workload_identity_op.Api.Conditions.{status_false}
use aws_workload_identity_op.Api.Conditions.{status_true}

abbrev summary_at : String → Types.ClusterPhase → ClusterSummary
summary_at name phase = record {
  cluster_name = name;
  namespace = name;
  name = "web";
  phase = phase;
  reason = "";
  message = "";
}

abbrev three_clusters : List ClusterSummary
three_clusters =
    summary_at "east" Types.ready
    ∷ summary_at "west" Types.failed
    ∷ summary_at "north" Types.conflict
    ∷ []

record_summaries-reported_example :
    (length (record_summaries no_status three_clusters).clusters ≡ 3)
    × (length (record_summaries no_status three_clusters).failed_clusters ≡ 2)
record_summaries-reported_example =
    record_summaries-reported no_status three_clusters (omega arith) (omega arith)

abbrev two_ready : ReplicaSetStatus
two_ready = record no_status {
  desired_cluster_count = 2;
  ready_cluster_count = 2;
  applied_cluster_count = 2;
}

set_aggregate_conditions-IsHonest_example :
    (report_at list_conditions
        (set_aggregate_conditions list_conditions 3 two_ready)
        ConditionTypes.ready
      ≡ some (as_report 3 (aggregate_verdicts two_ready).overall))
    × IsHonest two_ready (aggregate_verdicts two_ready)
set_aggregate_conditions-IsHonest_example =
    set_aggregate_conditions-IsHonest list_conditions 3 two_ready ConditionTypes.ready (omega arith)
      (omega arith)

abbrev other_set : ReplicaSet
other_set = record web_replica_set { meta = record web_replica_set.meta { uid = "uid-2" } }

owns_child-apply_template_example :
    (owns_child web_replica_set (apply_template (new_child_template web_replica_set) web_role)
      ≡ true)
    × ((owns_child other_set (apply_template (new_child_template web_replica_set) web_role) ≡ true)
        ↔ (web_replica_set.meta.uid ≡ other_set.meta.uid)
          × (name_text (object_key web_replica_set.meta)
              ≡ name_text (object_key web_replica_set.meta)))
owns_child-apply_template_example = owns_child-apply_template web_replica_set other_set web_role

drifts-apply_template_example :
    (drifts text_equality
        (new_child_template web_replica_set)
        (apply_template (new_child_template web_replica_set) web_role)
      ≡ false)
    × (same_service_account_subject
          (apply_template (new_child_template web_replica_set) web_role).spec.service_account
          web_replica_set.template_spec.service_account
        ≡ true)
drifts-apply_template_example = drifts-apply_template text_equality web_replica_set web_role

abbrev rolled : List (String × ClusterRolloutStatus)
rolled =
    (
      "east",
      record { cluster_name = "east"; state = RolloutState.succeeded; last_transition_time = none },
    )
    ∷ (
      "west",
      record {
        cluster_name = "west";
        state = RolloutState.progressing;
        last_transition_time = none;
      },
    )
    ∷ []

new_rollout_summary-IsCounted_example :
    (let r = new_rollout_summary list_conditions 2 ("west" ∷ []) [] rolled [] 3 in
      IsCounted ("west" ∷ []) [] rolled 2 r
      × (verdict_of (report_at list_conditions r.conditions ConditionTypes.progressing)
          ≡ some (
              if nat_eq r.succeeded r.total
                && (nat_eq r.failed 0 && (nat_eq r.timed_out 0 && nat_eq r.updating 0))
              then (status_false, Reasons.complete)
              else (status_true, Reasons.progressing))))
new_rollout_summary-IsCounted_example =
    new_rollout_summary-IsCounted list_conditions 2 ("west" ∷ []) [] rolled [] 3 (omega arith)
      (omega arith)

placement_rollout_conditions-resolve_placements_example :
    placement_rollout_conditions
      (resolve_placements list_conditions world_server empty_world
        web_replica_set).placement_statuses
      "prod"
    ≡ []
placement_rollout_conditions-resolve_placements_example =
    placement_rollout_conditions-resolve_placements list_conditions world_server empty_world
      web_replica_set "prod"

abbrev web_name : NamespacedName
web_name = record { namespace = "web"; name = "frontend" }

namespaced_name_from_string-name_text_example :
    namespaced_name_from_string (name_text web_name) ≡ some web_name
namespaced_name_from_string-name_text_example =
    namespaced_name_from_string-name_text web_name
      (ground arith, (ground arith, (ground arith, tt)))
      (λ e. ground (arith, (eq_iff "web" "").1 e)) (λ e. ground (arith, (eq_iff "frontend" "").1 e))
