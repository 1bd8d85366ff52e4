-- ===== src/Controller/ReplicaSet/Apply/Safety.antt =====
-- What applying one cluster and pruning may write, and what they report.
use aws_workload_identity_op.Prelude.{
  String, ◌≡◌, Bool, true, false, ◌⊎◌, Option, none, some, arith, is_some,
}
use aws_workload_identity_op.Api.Reasons
use aws_workload_identity_op.Api.Types.{Role}
use aws_workload_identity_op.Controller.ReplicaSet.Types
use aws_workload_identity_op.Controller.ReplicaSet.Types.{
  ClusterSummary, ClusterPhase, ReplicaSet, pending,
}
use aws_workload_identity_op.Controller.ReplicaSet.Template.{
  ChildTemplate, drifts, materialize, apply_template, same_service_account_subject,
}
use aws_workload_identity_op.Controller.ReplicaSet.Server.{Server}
use aws_workload_identity_op.Controller.ReplicaSet.Cluster.{is_pending}
use aws_workload_identity_op.Controller.ReplicaSet.Apply.{apply_cluster}

module _ {S : Type 0} (server : Server S) (rs : ReplicaSet) (template : ChildTemplate) where
  abbrev pub same_subject : Role → Bool
  same_subject child =
      same_service_account_subject child.spec.service_account rs.template_spec.service_account

  -- The one write that a pending cluster calls for, from the state before to the state after.
  abbrev pub Writes : String → Option Role → S → S → Type 0
  Writes cluster_name none s s' = s' ≡ (server.create_role (materialize template cluster_name) s).1
  Writes cluster_name (some child) s s' =
      (same_subject child ≡ false)
        × (child.meta.deleting ≡ false)
        × (s' ≡ (server.delete_role child s).1)
      ⊎ (same_subject child ≡ true)
        × (drifts server.semantic template child ≡ true)
        × (s' ≡ (server.patch_role child (apply_template template child) s).1)
      ⊎ ((same_subject child ≡ false) × (child.meta.deleting ≡ true)
          ⊎ (same_subject child ≡ true) × (drifts server.semantic template child ≡ false))
        × (s' ≡ s)

  -- A cluster that is not pending is left alone. For a pending one the controller creates a missing
  -- child, deletes a child whose service account differs and that is not being deleted, patches a child
  -- whose service account agrees and that drifts, and writes nothing in every other case.
  pub apply_cluster-Writes :
      (s : S) (cluster_name : String) (plan : ClusterSummary) (child : Option Role)
      → (let s' = (apply_cluster server rs template s cluster_name plan child).1 in
          (is_pending plan.phase ≡ false) × (s' ≡ s)
          ⊎ (is_pending plan.phase ≡ true) × Writes cluster_name child s s')
  unfolding apply_cluster
  apply_cluster-Writes s cluster_name plan none = ground arith
  apply_cluster-Writes s cluster_name plan (some child) = ground arith

  -- A cluster that is not pending keeps its phase and gives no error. For a pending one an error is
  -- returned exactly when the summary reports a failed apply; otherwise it stays pending.
  pub apply_cluster-error :
      (s : S) (cluster_name : String) (plan : ClusterSummary) (child : Option Role)
      → (let applied = (apply_cluster server rs template s cluster_name plan child).0 in
          (is_pending plan.phase ≡ false)
            × (applied.error ≡ none)
            × (applied.summary.phase ≡ plan.phase)
          ⊎ (plan.phase ≡ pending) × (applied.error ≡ none) × (applied.summary.phase ≡ pending)
          ⊎ (plan.phase ≡ pending)
            × (is_some applied.error ≡ true)
            × (applied.summary.phase ≡ Types.failed)
            × (applied.summary.reason ≡ Reasons.child_apply_failed))
  unfolding apply_cluster
  apply_cluster-error s cluster_name plan none = ground arith
  apply_cluster-error s cluster_name plan (some child) = ground arith
