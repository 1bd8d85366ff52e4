-- ===== src/Controller/ReplicaSet/Cluster/Agreement.antt =====
-- The summary that users see and the status that the rollout planner reads agree.
use aws_workload_identity_op.Prelude.{String, ◌≡◌, true, false, ◌⊎◌, Option, none, some, arith, ◌↔◌}
use aws_workload_identity_op.Api.Conditions.{StatusConditions}
use aws_workload_identity_op.Api.Errors.{ok}
use aws_workload_identity_op.Api.Types.{Role}
use aws_workload_identity_op.Controller.ReplicaSet.Types.{
  ClusterPhase, RolloutState, ClusterSummary, ClusterRolloutStatus, ReplicaSet,
}
use aws_workload_identity_op.Controller.ReplicaSet.Template.{
  ChildTemplate, drifts, same_service_account_subject,
}
use aws_workload_identity_op.Controller.ReplicaSet.Server.{Server}
use aws_workload_identity_op.Controller.ReplicaSet.Cluster.{existing_cluster_summary, child_ready}

-- The phase that stands for a rollout state.
abbrev pub Agrees : ClusterPhase → RolloutState → Type 0
Agrees ClusterPhase.pending state =
    (state ≡ RolloutState.to_apply) ⊎ (state ≡ RolloutState.progressing)
Agrees ClusterPhase.ready state = state ≡ RolloutState.succeeded
Agrees ClusterPhase.conflict state = state ≡ RolloutState.failed
Agrees ClusterPhase.failed state = state ≡ RolloutState.failed
Agrees ClusterPhase.timed_out state = state ≡ RolloutState.time_out
Agrees ClusterPhase.no_phase state = ⊥

module _ (k : StatusConditions) {S : Type 0} (server : Server S) (rs : ReplicaSet)
    (template : ChildTemplate) where
  -- What makes an observed child count as succeeded.
  abbrev pub IsUpToDate : Option Role → Type 0
  IsUpToDate none = ⊥
  IsUpToDate (some child) =
      (same_service_account_subject child.spec.service_account rs.template_spec.service_account
        ≡ true)
      × (drifts server.semantic template child ≡ false)
      × (child_ready k child ≡ true)

  -- Where a summary is produced, its phase agrees with the status handed to the rollout planner, both
  -- name the cluster, and a cluster counts as succeeded only if its namespace exists and its child is
  -- up to date and ready.
  pub existing_cluster_summary-Agrees :
      (s : S) (cluster_name : String) (child : Option Role)
      (r : ClusterSummary × ClusterRolloutStatus)
      → existing_cluster_summary k server rs template s cluster_name child ≡ ok r
      → Agrees r.0.phase r.1.state
        × (r.0.cluster_name ≡ cluster_name)
        × (r.1.cluster_name ≡ cluster_name)
        × ((r.1.state ≡ RolloutState.succeeded)
            ↔ (server.get_namespace s cluster_name ≡ ok tt) × IsUpToDate child)
  unfolding existing_cluster_summary
  existing_cluster_summary-Agrees s cluster_name none r h =
      (ground arith, ground arith, ground arith, (λ e. ground arith, λ (p, q). absurd q))
  existing_cluster_summary-Agrees s cluster_name (some child) r h = (
    ground arith,
    ground arith,
    ground arith,
    (λ e. (ground arith, ground arith), λ (p, q). ground arith),
  )
