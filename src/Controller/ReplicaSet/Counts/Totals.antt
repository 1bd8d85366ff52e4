-- ===== src/Controller/ReplicaSet/Counts/Totals.antt =====
-- The counters and the capped lists after a loop over the clusters.
use aws_workload_identity_op.Api.Reasons
use aws_workload_identity_op.Prelude.{if◌then◌else◌, ◌==◌, ℕ, ◌+◌, ◌≤◌, ◌≡◌, List, [], ◌∷◌, arith}
use aws_workload_identity_op.Prelude.Int32.{max_int32}
use aws_workload_identity_op.Controller.ReplicaSet.Types.{
  ClusterPhase, pending, ready, conflict, failed, timed_out, ClusterSummary, ReplicaSetStatus,
}
use aws_workload_identity_op.Controller.ReplicaSet.Counts.{
  update_counts, record_summaries, append_summary, length,
}

-- What a summary adds to each counter, stated without the controller's branches.
abbrev pub is_ready : ClusterSummary → ℕ
is_ready s = elim s.phase [ ready ↦ 1 | _ ↦ 0 ]

abbrev pub is_conflict : ClusterSummary → ℕ
is_conflict s = elim s.phase [ conflict ↦ 1 | _ ↦ 0 ]

abbrev pub is_failure : ClusterSummary → ℕ
is_failure s = elim s.phase [ failed ↦ 1 | timed_out ↦ 1 | _ ↦ 0 ]

abbrev pub number {ℓ} : {A : Type ℓ} → (A → ℕ) → List A → ℕ
number f [] = 0
number f (x ∷ xs) = f x + number f xs

-- A pending child is applied unless it waits for the rollout, and stale if its service account drifts.
abbrev pub is_applied : ClusterSummary → ℕ
is_applied s = elim s.phase [
  | ready ↦ 1
  | pending ↦ (if s.reason == Reasons.rollout_pending then 0 else 1)
  | _ ↦ 0
]

abbrev pub is_stale : ClusterSummary → ℕ
is_stale s = elim s.phase [
  | pending ↦ (if s.reason == Reasons.immutable_child_drift then 1 else 0)
  | _ ↦ 0
]

-- No counter wraps around within `room` more clusters.
pub record HasRoom (room : ℕ) (s : ReplicaSetStatus) : Type 0 where
  pub applied : s.applied_cluster_count + room ≤ max_int32
  pub ready : s.ready_cluster_count + room ≤ max_int32
  pub stale : s.stale_cluster_count + room ≤ max_int32
  pub conflict : s.conflict_count + room ≤ max_int32
  pub failure : s.failure_count + room ≤ max_int32

pub record StepTotals (s : ReplicaSetStatus) (x : ClusterSummary) (t : ReplicaSetStatus)
    : Type 0 where
  pub ready : t.ready_cluster_count ≡ s.ready_cluster_count + is_ready x
  pub conflict : t.conflict_count ≡ s.conflict_count + is_conflict x
  pub failure : t.failure_count ≡ s.failure_count + is_failure x
  pub applied : t.applied_cluster_count ≡ s.applied_cluster_count + is_applied x
  pub stale : t.stale_cluster_count ≡ s.stale_cluster_count + is_stale x
  pub applied_le : is_applied x ≤ 1
  pub stale_le : is_stale x ≤ 1
  pub ready_le : is_ready x ≤ 1
  pub conflict_le : is_conflict x ≤ 1
  pub failure_le : is_failure x ≤ 1

count_phase-totals :
    (p : ClusterPhase) (x : ClusterSummary) (s : ReplicaSetStatus)
    → HasRoom 1 s
    → StepTotals s (record x { phase = p }) (update_counts s (record x { phase = p }))
unfolding update_counts
count_phase-totals pending x s h = ground arith
count_phase-totals _ x s h = ground arith

update_counts-totals :
    (x : ClusterSummary) (s : ReplicaSetStatus) → HasRoom 1 s → StepTotals s x (update_counts s x)
update_counts-totals x s h = count_phase-totals x.phase x s h

append_summary-keeps_counts :
    (s : ReplicaSetStatus) (x : ClusterSummary)
    → (let t = append_summary s x in
        (t.ready_cluster_count ≡ s.ready_cluster_count)
        × (t.conflict_count ≡ s.conflict_count)
        × (t.failure_count ≡ s.failure_count)
        × (t.applied_cluster_count ≡ s.applied_cluster_count)
        × (t.stale_cluster_count ≡ s.stale_cluster_count))
unfolding append_summary
append_summary-keeps_counts s x = ground arith

pub record Totals (s : ReplicaSetStatus) (xs : List ClusterSummary) (t : ReplicaSetStatus)
    : Type 0 where
  pub ready : t.ready_cluster_count ≡ s.ready_cluster_count + number is_ready xs
  pub conflict : t.conflict_count ≡ s.conflict_count + number is_conflict xs
  pub failure : t.failure_count ≡ s.failure_count + number is_failure xs
  pub applied : t.applied_cluster_count ≡ s.applied_cluster_count + number is_applied xs
  pub stale : t.stale_cluster_count ≡ s.stale_cluster_count + number is_stale xs

-- Recording summaries one after the other adds to each counter what each summary adds.
pub record_summaries-Totals :
    (s : ReplicaSetStatus) (xs : List ClusterSummary)
    → HasRoom (length xs) s
    → Totals s xs (record_summaries s xs)
unfolding record_summaries
record_summaries-Totals s [] h = omega arith
record_summaries-Totals s (x ∷ xs) h =
    let step = update_counts-totals x s (omega arith) in
    let kept = append_summary-keeps_counts (update_counts s x) x in
    let later = record_summaries-Totals (append_summary (update_counts s x) x) xs (omega arith) in
    omega arith
