-- ===== src/Controller/ReplicaSet/Cluster.antt =====
-- One cluster of a ReplicaSet: childReady, existingReplicaSetClusterSummary and
-- applyReplicaSetCluster.
pub mod Agreement
use aws_workload_identity_op.Prelude.{
  ℕ, String, ◌==◌, Bool, true, false, not, ◌&&◌, ◌||◌, if◌then◌else◌, Option, none, some, List, [],
  ◌∷◌, nat_eq, cat, quote,
}
use aws_workload_identity_op.Api.Conditions.{Condition, StatusConditions, is_status_true}
use aws_workload_identity_op.Api.ConditionTypes
use aws_workload_identity_op.Api.Reasons
use aws_workload_identity_op.Api.Errors.{Failure, Result, ok, err, wrap}
use aws_workload_identity_op.Api.Types.{Role, NamespacedName, name_text}
use aws_workload_identity_op.Controller.ReplicaSet.Types
use aws_workload_identity_op.Controller.ReplicaSet.Types.{
  ClusterSummary, ClusterRolloutStatus, ClusterPhase, RolloutState, ReplicaSet, pending,
}
use aws_workload_identity_op.Controller.ReplicaSet.Template.{
  ChildTemplate, drifts, owns_child, materialize, apply_template, same_service_account_subject,
}
use aws_workload_identity_op.Controller.ReplicaSet.Server.{Server}
use aws_workload_identity_op.Controller.ReplicaSet.Rollout.{
  rollout_pending_summary, message_generated_child_ready, message_waiting_for_child_readiness,
}

is_ready_now : Option Condition → ℕ → Bool
is_ready_now none generation = false
is_ready_now (some c) generation =
    if not (is_status_true c.report.status)
    then false
    else nat_eq c.report.observed_generation generation

-- childReady
unfoldable pub child_ready : StatusConditions → Role → Bool
unfolding is_ready_now
child_ready k child =
    is_ready_now (k.find_status child.status.conditions ConditionTypes.ready) child.meta.generation

transition_of : Option Condition → Option ℕ
transition_of none = none
transition_of (some c) = c.last_transition_time

abbrev pub rollout_status : String → RolloutState → Option ℕ → ClusterRolloutStatus
rollout_status cluster_name state time = record {
  cluster_name = cluster_name;
  state = state;
  last_transition_time = time;
}

unfoldable pub is_pending : ClusterPhase → Bool
is_pending pending = true
is_pending _ = false

module _ (k : StatusConditions) {S : Type 0} (server : Server S) (rs : ReplicaSet)
    (template : ChildTemplate) where
  child_key : String → NamespacedName
  child_key cluster_name = record { namespace = cluster_name; name = rs.meta.name }

  summary_of_probe : String → Result Role → Result (ClusterSummary × ClusterRolloutStatus)
  unfolding child_key owns_child
  summary_of_probe cluster_name (ok probe) =
      let pending_summary = rollout_pending_summary cluster_name rs.meta.name in
      if owns_child rs probe
      then ok (pending_summary, rollout_status cluster_name RolloutState.to_apply none)
      else ok (
        record pending_summary {
          phase = Types.conflict;
          reason = Reasons.child_conflict;
          message = cat (
              "AWSServiceAccountRole "
              ∷ name_text (child_key cluster_name)
              ∷ " exists and is not owned by this ReplicaSet"
              ∷ []);
        },
        rollout_status cluster_name RolloutState.failed none,
      )
  summary_of_probe cluster_name (err e) =
      if e.not_found
      then ok (
        rollout_pending_summary cluster_name rs.meta.name,
        rollout_status cluster_name RolloutState.to_apply none,
      )
      else err
          (wrap (cat ("get AWSServiceAccountRole " ∷ name_text (child_key cluster_name) ∷ [])) e)

  has_immutable_drift : Role → Bool
  unfolding same_service_account_subject
  has_immutable_drift child =
      not (same_service_account_subject child.spec.service_account rs.template_spec.service_account)

  summary_of_child : String → Role → ClusterSummary × ClusterRolloutStatus
  unfolding has_immutable_drift drifts child_ready transition_of
  summary_of_child cluster_name child =
      let pending_summary = rollout_pending_summary cluster_name rs.meta.name in
      let time = transition_of (k.find_status child.status.conditions ConditionTypes.ready) in
      if has_immutable_drift child || drifts server.semantic template child
      then (pending_summary, rollout_status cluster_name RolloutState.to_apply none)
      else if child_ready k child
      then (
        record pending_summary {
          phase = Types.ready;
          reason = Reasons.ready;
          message = message_generated_child_ready;
        },
        rollout_status cluster_name RolloutState.succeeded time,
      )
      else (
        record pending_summary {
          reason = Reasons.children_pending;
          message = message_waiting_for_child_readiness;
        },
        rollout_status cluster_name RolloutState.progressing time,
      )

  summary_in_namespace : S → String → Option Role → Result (ClusterSummary × ClusterRolloutStatus)
  unfolding summary_of_probe summary_of_child
  summary_in_namespace s cluster_name none =
      summary_of_probe cluster_name (server.get_role s (child_key cluster_name))
  summary_in_namespace s cluster_name (some child) = ok (summary_of_child cluster_name child)

  summary_after_namespace :
      S → String → Option Role → Result (Unit {0}) → Result (ClusterSummary × ClusterRolloutStatus)
  unfolding summary_in_namespace
  summary_after_namespace s cluster_name child (ok _) = summary_in_namespace s cluster_name child
  summary_after_namespace s cluster_name child (err e) =
      if not e.not_found
      then err (wrap (cat ("get cluster namespace " ∷ quote cluster_name ∷ [])) e)
      else ok (
        record (rollout_pending_summary cluster_name rs.meta.name) {
          phase = Types.failed;
          reason = Reasons.cluster_namespace_missing;
          message = cat ("cluster namespace " ∷ quote cluster_name ∷ " is required" ∷ []);
        },
        rollout_status cluster_name RolloutState.failed none,
      )

  -- existingReplicaSetClusterSummary
  unfoldable pub existing_cluster_summary :
      S → String → Option Role → Result (ClusterSummary × ClusterRolloutStatus)
  unfolding summary_after_namespace
  existing_cluster_summary s cluster_name child =
      summary_after_namespace s cluster_name child (server.get_namespace s cluster_name)
