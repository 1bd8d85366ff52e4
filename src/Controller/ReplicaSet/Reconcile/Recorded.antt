-- ===== src/Controller/ReplicaSet/Reconcile/Recorded.antt =====
-- What the status counts after the loop of applyReplicaSetRolloutClusters.
use aws_workload_identity_op.Controller.ReplicaSet.Counts.Totals.{
  HasRoom, Totals, record_summaries-Totals,
}
use aws_workload_identity_op.Prelude.{
  length, ap, suc, String, ◌≡◌, refl, if◌then◌else◌, none, List, [], ◌∷◌,
}
use aws_workload_identity_op.Prelude.Maps.{Map, lookup}
use aws_workload_identity_op.Api.Conditions.{StatusConditions}
use aws_workload_identity_op.Api.Types.{Role}
use aws_workload_identity_op.Controller.ReplicaSet.Apply.{apply_cluster}
use aws_workload_identity_op.Controller.ReplicaSet.Counts.{record_summaries}
use aws_workload_identity_op.Controller.ReplicaSet.Plan.{RolloutPlan}
use aws_workload_identity_op.Controller.ReplicaSet.Reconcile.{
  Applying, apply_one, apply_rollout_clusters, summary_or_zero,
}
use aws_workload_identity_op.Controller.ReplicaSet.Server.{Server, has}
use aws_workload_identity_op.Controller.ReplicaSet.Template.{ChildTemplate}
use aws_workload_identity_op.Controller.ReplicaSet.Types.{ReplicaSet, ClusterSummary}

module _ (k : StatusConditions) {S : Type 0} (server : Server S) (rs : ReplicaSet)
    (plan : RolloutPlan) (children : Map Role) (template : ChildTemplate) where
  -- The summary of a cluster: the plan's, or what applying it gives where the rollout has reached it.
  abbrev pub summary_at : String → S → ClusterSummary
  summary_at name s =
      let planned = summary_or_zero (lookup name plan.summaries) in
      (if has name plan.rollout_clusters
        then apply_cluster server rs template s name planned (lookup name children)
        else (record { summary = planned; error = none }, s)).0.summary

  -- The summaries of the clusters in their order, each after the writes of those before it.
  abbrev pub summaries_of : List String → Applying S → List ClusterSummary
  summaries_of [] acc = []
  summaries_of (name ∷ names) acc =
      summary_at name acc.server_state
      ∷ summaries_of names (apply_one k server rs plan children template name acc)

  apply_rollout_clusters-record_summaries :
      (names : List String) (acc : Applying S)
      → (apply_rollout_clusters k server rs plan children template names acc).status
        ≡ record_summaries acc.status (summaries_of names acc)
  unfolding apply_rollout_clusters apply_one record_summaries
  apply_rollout_clusters-record_summaries [] acc = refl
  apply_rollout_clusters-record_summaries (name ∷ names) acc =
      apply_rollout_clusters-record_summaries names
        (apply_one k server rs plan children template name acc)

  length-summaries_of :
      (names : List String) (acc : Applying S) → length (summaries_of names acc) ≡ length names
  length-summaries_of [] acc = refl
  length-summaries_of (name ∷ names) acc =
      ap suc (length-summaries_of names (apply_one k server rs plan children template name acc))

  -- After the loop over the clusters the status counts their summaries exactly, whatever the server
  -- answers: the ready, the conflicting and the failed ones, timed-out ones among the failed, as applied
  -- the ready ones and those that are pending for another reason than the rollout, and as stale those
  -- that are pending for a drift of the service account, if no counter can pass the largest int32.
  pub apply_rollout_clusters-Totals :
      (names : List String) (acc : Applying S)
      → HasRoom (length names) acc.status
      → Totals acc.status
          (summaries_of names acc)
          (apply_rollout_clusters k server rs plan children template names acc).status
  apply_rollout_clusters-Totals names acc room =
      rw (apply_rollout_clusters-record_summaries names acc) (
        record_summaries-Totals acc.status (summaries_of names acc)
          (rw (length-summaries_of names acc) room))
