-- ===== src/Controller/ReplicaSet/Counts/Reported.antt =====
-- The lists of reported clusters keep their caps.
use aws_workload_identity_op.Prelude.{
  ℕ, ◌+◌, ◌≤◌, ◌≡◌, List, [], ◌∷◌, length, length-append, arith, min, ap,
}
use aws_workload_identity_op.Controller.ReplicaSet.Types.{ClusterSummary, ReplicaSetStatus}
use aws_workload_identity_op.Controller.ReplicaSet.Counts.{
  update_counts, append_summary, record_summaries, max_reported_clusters,
  max_reported_failed_clusters, failure_of,
}
use aws_workload_identity_op.Controller.ReplicaSet.Counts.Totals.{is_conflict, is_failure, number}

abbrev pub failing : ClusterSummary → ℕ
failing s = is_conflict s + is_failure s

append_summary-lists :
    (s : ReplicaSetStatus) (x : ClusterSummary)
    → length s.clusters ≤ max_reported_clusters
    → length s.failed_clusters ≤ max_reported_failed_clusters
    → (length (append_summary s x).clusters ≡ min max_reported_clusters (length s.clusters + 1))
      × (length (append_summary s x).failed_clusters
          ≡ min max_reported_failed_clusters (length s.failed_clusters + failing x))
unfolding append_summary
append_summary-lists s x h k =
    ground (
      arith,
      length-append s.clusters (x ∷ []),
      length-append s.failed_clusters (failure_of x ∷ []),
    )

update_counts-keeps_lists :
    (s : ReplicaSetStatus) (x : ClusterSummary)
    → ((update_counts s x).clusters ≡ s.clusters)
      × ((update_counts s x).failed_clusters ≡ s.failed_clusters)
unfolding update_counts
update_counts-keeps_lists s x = ground arith

-- After the summaries are recorded the status lists as many more clusters as there are summaries, up to
-- the cap of 100, and as many more failures as summaries are failed, conflicting or timed out, up to the
-- cap of 50.
pub record_summaries-reported :
    (s : ReplicaSetStatus) (xs : List ClusterSummary)
    → length s.clusters ≤ max_reported_clusters
    → length s.failed_clusters ≤ max_reported_failed_clusters
    → (length (record_summaries s xs).clusters
        ≡ min max_reported_clusters (length s.clusters + length xs))
      × (length (record_summaries s xs).failed_clusters
          ≡ min max_reported_failed_clusters (length s.failed_clusters + number failing xs))
unfolding record_summaries
record_summaries-reported s [] h k = omega arith
record_summaries-reported s (x ∷ xs) h k =
    let (same, same_failed) = update_counts-keeps_lists s x in
    let (p, q) =
      append_summary-lists (update_counts s x) x (omega (arith, ap length same))
        (omega (arith, ap length same_failed)) in
    let (r, u) =
      record_summaries-reported (append_summary (update_counts s x) x) xs (omega arith)
        (omega arith) in
    omega (arith, ap length same, ap length same_failed, p, q, r, u)
