-- ===== src/Tests/Lifecycle.antt =====
-- Examples of the theorems on applying, pruning, observing and finalizing the children.
use aws_workload_identity_op.Prelude.{
  ◌+◌, ◌≡◌, refl, true, false, none, some, [], ◌∷◌, length, ◌↔◌, ◌⊎◌, is_some,
}
use aws_workload_identity_op.Prelude.Maps.{insert, copy_into}
use aws_workload_identity_op.Api.Reasons
use aws_workload_identity_op.Controller.ReplicaSet.Rollout.{message_waiting_for_child_readiness}
use aws_workload_identity_op.Controller.ReplicaSet.Template.{
  drifts, same_service_account_subject, ChildTemplate, new_child_template, apply_template,
  owns_child, materialize,
}
use aws_workload_identity_op.Controller.ReplicaSet.Cluster.{
  child_ready, existing_cluster_summary, is_pending,
}
use aws_workload_identity_op.Api.Types.{Role}
use aws_workload_identity_op.Api.Errors.{ok}
use aws_workload_identity_op.Controller.ReplicaSet.Types
use aws_workload_identity_op.Controller.ReplicaSet.Types.{
  ClusterSummary, ClusterRolloutStatus, ReplicaSet, RolloutState, pending,
}
use aws_workload_identity_op.Controller.ReplicaSet.Cluster.Agreement.{
  Agrees, IsUpToDate, existing_cluster_summary-Agrees,
}
use aws_workload_identity_op.Controller.ReplicaSet.Apply.{
  apply_cluster, prune_children, list_owned_children,
}
use aws_workload_identity_op.Controller.ReplicaSet.Apply.Safety.{
  apply_cluster-Writes, apply_cluster-error,
}
use aws_workload_identity_op.Controller.ReplicaSet.Apply.Pruning.{prune_children-keeps}
use aws_workload_identity_op.Controller.ReplicaSet.Delete.{reconcile_delete}
use aws_workload_identity_op.Controller.ReplicaSet.Delete.Finalization.{reconcile_delete-keeps}
use aws_workload_identity_op.Controller.ReplicaSet.Plan.{RolloutPlan, empty_plan}
use aws_workload_identity_op.Controller.ReplicaSet.Reconcile.{Applying, apply_rollout_clusters}
use aws_workload_identity_op.Controller.ReplicaSet.Counts.Totals.{Totals}
use aws_workload_identity_op.Controller.ReplicaSet.Reconcile.Recorded.{
  summaries_of, apply_rollout_clusters-Totals,
}
use aws_workload_identity_op.Tests.Fixtures.{list_conditions}
use aws_workload_identity_op.Tests.World.{
  World, world_server, web_replica_set, web_role, empty_world,
}
use aws_workload_identity_op.Tests.World.{no_status}
use aws_workload_identity_op.Prelude.{arith}

abbrev web_template : ChildTemplate
web_template = new_child_template web_replica_set

abbrev web_child : Role
web_child = apply_template web_template web_role

abbrev world : World
world = record { roles = web_child ∷ []; status_patches = 0; finalizer_patches = 0 }

abbrev east_pending : ClusterSummary
east_pending = record {
  cluster_name = "east";
  namespace = "east";
  name = "web";
  phase = pending;
  reason = "";
  message = "";
}

apply_cluster-Writes_example :
    (let s' =
        (apply_cluster world_server web_replica_set web_template empty_world "east" east_pending
          none).1 in
      (is_pending pending ≡ false) × (s' ≡ empty_world)
      ⊎ (is_pending pending ≡ true)
        × (s' ≡ record empty_world { roles = materialize web_template "east" ∷ [] }))
apply_cluster-Writes_example =
    apply_cluster-Writes world_server web_replica_set web_template empty_world "east" east_pending
      none

apply_cluster-error_example :
    (let applied =
        (apply_cluster world_server web_replica_set web_template world "east" east_pending
          (some web_role)).0 in
      (is_pending pending ≡ false) × (applied.error ≡ none) × (applied.summary.phase ≡ pending)
      ⊎ (pending ≡ pending) × (applied.error ≡ none) × (applied.summary.phase ≡ pending)
      ⊎ (pending ≡ pending)
        × (is_some applied.error ≡ true)
        × (applied.summary.phase ≡ Types.failed)
        × (applied.summary.reason ≡ Reasons.child_apply_failed))
apply_cluster-error_example =
    apply_cluster-error world_server web_replica_set web_template world "east" east_pending
      (some web_role)

-- A rollout that reaches both clusters: one child is there already, the other is missing.
abbrev both_reached : RolloutPlan
both_reached = record empty_plan {
  rollout_clusters = "east" ∷ "west" ∷ [];
  summaries =
      ("east", east_pending)
      ∷ ("west", record east_pending { cluster_name = "west"; namespace = "west" })
      ∷ [];
}

abbrev starting : Applying World
starting = record { status = no_status; errors = []; server_state = world }

apply_rollout_clusters-Totals_example :
    Totals no_status
      (summaries_of list_conditions world_server web_replica_set both_reached
        (("east", web_child) ∷ [])
        web_template
        ("east" ∷ "west" ∷ [])
        starting)
      (apply_rollout_clusters list_conditions world_server web_replica_set both_reached
        (("east", web_child) ∷ [])
        web_template
        ("east" ∷ "west" ∷ [])
        starting).status
apply_rollout_clusters-Totals_example =
    apply_rollout_clusters-Totals list_conditions world_server web_replica_set both_reached
      (("east", web_child) ∷ []) web_template ("east" ∷ "west" ∷ []) starting
      (record {
        applied = omega arith;
        ready = omega arith;
        stale = omega arith;
        conflict = omega arith;
        failure = omega arith;
      })

list_owned_world : list_owned_children world_server world web_replica_set ≡ ok (web_child ∷ [])
unfolding list_owned_children owns_child apply_template new_child_template insert copy_into
list_owned_world = refl

prune_children-keeps_example :
    ((prune_children world_server (web_child ∷ []) ("west" ∷ []) world).1.finalizer_patches ≡ 0)
    × ((prune_children world_server (web_child ∷ []) ("west" ∷ []) world).0.0
          + length (prune_children world_server (web_child ∷ []) ("west" ∷ []) world).0.1
        ≡ 1)
unfolding apply_template
prune_children-keeps_example =
    prune_children-keeps world_server ("west" ∷ []) (λ w. w.finalizer_patches ≡ 0) (web_child ∷ [])
      world ((λ stale s p. p), tt) refl

reconcile_delete-keeps_example :
    (reconcile_delete list_conditions world_server web_replica_set world).1.finalizer_patches ≡ 0
reconcile_delete-keeps_example =
    reconcile_delete-keeps list_conditions world_server web_replica_set
      (λ w. w.finalizer_patches ≡ 0) (λ c s owned p. p) (λ r s p. p) world web_child []
      list_owned_world refl

abbrev waiting : ClusterSummary × ClusterRolloutStatus
waiting = (
  record east_pending {
    reason = Reasons.children_pending;
    message = message_waiting_for_child_readiness;
  },
  record { cluster_name = "east"; state = RolloutState.progressing; last_transition_time = none },
)

observed_waiting :
    existing_cluster_summary list_conditions world_server web_replica_set web_template world "east"
      (some web_child)
    ≡ ok waiting
unfolding existing_cluster_summary drifts same_service_account_subject apply_template
    new_child_template child_ready insert copy_into
observed_waiting = refl

existing_cluster_summary-Agrees_example :
    Agrees Types.pending RolloutState.progressing
    × ("east" ≡ waiting.0.cluster_name)
    × ("east" ≡ waiting.1.cluster_name)
    × ((RolloutState.progressing ≡ RolloutState.succeeded)
        ↔ (world_server.get_namespace world "east" ≡ ok tt)
          × IsUpToDate list_conditions world_server web_replica_set web_template (some web_child))
existing_cluster_summary-Agrees_example =
    existing_cluster_summary-Agrees list_conditions world_server web_replica_set web_template world
      "east" (some web_child) waiting observed_waiting
