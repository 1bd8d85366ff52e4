-- ===== src/Controller/ReplicaSet/Types.antt =====
-- api/v1alpha1/awsserviceaccountrolereplicaset_types.go, and the values of the OCM libraries that the
-- controller reads. Counters are int32 bit patterns.
use aws_workload_identity_op.Prelude.{ℕ, String, Option, List}
use aws_workload_identity_op.Prelude.Maps.{Map}
use aws_workload_identity_op.Api.Conditions.{Condition}
use aws_workload_identity_op.Api.Types.{ObjectMeta, RoleSpec}

pub data ClusterPhase : Type 0 where
  pending ready conflict failed timed_out : ClusterPhase
  -- The zero value, "".
  no_phase : ClusterPhase

pub record ClusterSummary : Type 0 where
  pub cluster_name : String
  pub namespace : String
  pub name : String
  pub phase : ClusterPhase
  pub reason : String
  pub message : String

pub record ClusterFailure : Type 0 where
  pub cluster_name : String
  pub phase : ClusterPhase
  pub reason : String
  pub message : String

pub record RolloutSummary : Type 0 where
  pub total : ℕ
  pub updating : ℕ
  pub succeeded : ℕ
  pub failed : ℕ
  pub timed_out : ℕ
  pub conditions : List Condition

pub record PlacementStatus : Type 0 where
  pub name : String
  pub selected_cluster_count : ℕ
  pub available_decision_groups : String
  pub rollout : Option RolloutSummary
  pub conditions : List Condition

pub record ReplicaSetStatus : Type 0 where
  pub observed_generation : ℕ
  pub selected_cluster_count : ℕ
  pub desired_cluster_count : ℕ
  pub applied_cluster_count : ℕ
  pub ready_cluster_count : ℕ
  pub stale_cluster_count : ℕ
  pub conflict_count : ℕ
  pub failure_count : ℕ
  pub placements : List PlacementStatus
  pub rollout : Option RolloutSummary
  pub failed_clusters : List ClusterFailure
  pub clusters : List ClusterSummary
  pub conditions : List Condition

pub record TemplateMetadata : Type 0 where
  pub labels : Map String
  pub annotations : Map String

-- clusterv1alpha1.RolloutStrategy: its type, and the rest, which only the OCM library reads.
pub record RolloutStrategy : Type 0 where
  pub strategy_type : String
  pub details : String

pub record PlacementRef : Type 0 where
  pub name : String
  pub rollout_strategy : RolloutStrategy

pub record ReplicaSet : Type 0 where
  pub meta : ObjectMeta
  pub placement_refs : List PlacementRef
  pub template_metadata : Option TemplateMetadata
  pub template_spec : RoleSpec
  pub status : ReplicaSetStatus

-- clustersdkv1alpha1.RolloutStatus and ClusterRolloutStatus.
pub data RolloutState : Type 0 where
  to_apply progressing succeeded failed time_out skip : RolloutState

pub record ClusterRolloutStatus : Type 0 where
  pub cluster_name : String
  pub state : RolloutState
  pub last_transition_time : Option ℕ
