-- ===== src/Controller/ReplicaSet/Counts.antt =====
-- The derived status of a ReplicaSet: countInt32, resetReplicaSetDerivedStatus,
-- updateReplicaSetCounts and appendReplicaSetSummary.
pub mod Totals
pub mod Reported
use aws_workload_identity_op.Prelude.{
  ℕ, ◌+◌, ◌-◌, ◌%◌, min, String, ◌==◌, Bool, true, false, not, if◌then◌else◌, none, List, [], ◌∷◌,
  ◌++◌, leb, ltb, length, suc,
}
use aws_workload_identity_op.Prelude.Int.{ℤ, pos, negsuc}
use aws_workload_identity_op.Prelude.Int32.{max_int32, modulus32, inc32}
use aws_workload_identity_op.Api.Reasons
use aws_workload_identity_op.Controller.ReplicaSet.Types.{
  ClusterPhase, pending, ready, conflict, failed, timed_out, no_phase, ClusterSummary,
  ClusterFailure, ReplicaSetStatus,
}

abbrev pub max_reported_clusters : ℕ
max_reported_clusters = 100

abbrev pub max_reported_failed_clusters : ℕ
max_reported_failed_clusters = 50

-- countInt32
unfoldable pub count_int32 : ℤ → ℕ
count_int32 (pos n) = if ltb max_int32 n then max_int32 else n
count_int32 (negsuc n) = (modulus32 - suc n % modulus32) % modulus32

-- resetReplicaSetDerivedStatus
unfoldable pub reset_derived_status : ReplicaSetStatus → ReplicaSetStatus
reset_derived_status s = record {
  observed_generation = s.observed_generation;
  selected_cluster_count = 0;
  desired_cluster_count = 0;
  applied_cluster_count = 0;
  ready_cluster_count = 0;
  stale_cluster_count = 0;
  conflict_count = 0;
  failure_count = 0;
  placements = [];
  rollout = none;
  failed_clusters = [];
  clusters = [];
  conditions = s.conditions;
}

count_pending : String → ReplicaSetStatus → ReplicaSetStatus
count_pending reason s = record s {
  applied_cluster_count =
      if reason == Reasons.rollout_pending
      then s.applied_cluster_count
      else inc32 s.applied_cluster_count;
  stale_cluster_count =
      if reason == Reasons.immutable_child_drift
      then inc32 s.stale_cluster_count
      else s.stale_cluster_count;
}

count_phase : ClusterPhase → String → ReplicaSetStatus → ReplicaSetStatus
count_phase ready reason s = record s {
  applied_cluster_count = inc32 s.applied_cluster_count;
  ready_cluster_count = inc32 s.ready_cluster_count;
}
count_phase pending reason s = count_pending reason s
count_phase conflict reason s = record s { conflict_count = inc32 s.conflict_count }
count_phase failed reason s = record s { failure_count = inc32 s.failure_count }
count_phase timed_out reason s = record s { failure_count = inc32 s.failure_count }
count_phase no_phase reason s = s

-- updateReplicaSetCounts
unfoldable pub update_counts : ReplicaSetStatus → ClusterSummary → ReplicaSetStatus
unfolding count_phase count_pending
update_counts s summary = count_phase summary.phase summary.reason s

is_failing_phase : ClusterPhase → Bool
is_failing_phase failed = true
is_failing_phase conflict = true
is_failing_phase timed_out = true
is_failing_phase _ = false

abbrev pub failure_of : ClusterSummary → ClusterFailure
failure_of summary = record {
  cluster_name = summary.cluster_name;
  phase = summary.phase;
  reason = summary.reason;
  message = summary.message;
}

-- appendReplicaSetSummary
unfoldable pub append_summary : ReplicaSetStatus → ClusterSummary → ReplicaSetStatus
unfolding is_failing_phase
append_summary s summary =
    let listed =
      (if ltb (length s.clusters) max_reported_clusters
        then record s { clusters = s.clusters ++ summary ∷ [] }
        else s) in
    if not (is_failing_phase summary.phase)
    then listed
    else if leb max_reported_failed_clusters (length listed.failed_clusters)
    then listed
    else record listed { failed_clusters = listed.failed_clusters ++ failure_of summary ∷ [] }

-- The summaries of the clusters, recorded one after the other.
unfoldable pub record_summaries : ReplicaSetStatus → List ClusterSummary → ReplicaSetStatus
unfolding update_counts append_summary
record_summaries s [] = s
record_summaries s (summary ∷ rest) =
    record_summaries (append_summary (update_counts s summary) summary) rest
