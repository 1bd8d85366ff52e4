-- ===== src/Controller/ReplicaSet/Server.antt =====
-- What the controller asks of the API server and of the OCM libraries. Their sources are not in the
-- repository: `S` is the state that the controller's client can see, a read is a function of it, and
-- a write gives its answer and the next state.
use aws_workload_identity_op.Prelude.{ℕ, String, ◌==◌, Bool, ◌∷◌, any, if◌then◌else◌, Option, List}
use aws_workload_identity_op.Prelude.Sorting.{sort, str_le}
use aws_workload_identity_op.Api.Types.{Role, NamespacedName}
use aws_workload_identity_op.Api.Semantic.{Semantic, FinalizerLists}
use aws_workload_identity_op.Api.Errors.{Result}
use aws_workload_identity_op.Controller.ReplicaSet.Types.{
  ReplicaSet, ReplicaSetStatus, ClusterRolloutStatus, RolloutStrategy,
}

-- sets.Set[string] as a list without repetition.
abbrev pub Names : Type 0
Names = List String

abbrev pub has : String → Names → Bool
has x names = any (λ y. y == x) names

-- Set.Insert
unfoldable pub insert_name : String → Names → Names
insert_name x names = if has x names then names else x ∷ names

-- sets.List
unfoldable pub names_list : Names → List String
names_list names = sort str_le names

-- What the controller reads of an OCM Placement.
pub record Placement : Type 0 where
  pub name : String
  pub decision_groups : ℕ
  pub number_of_selected_clusters : ℕ

-- clustersdkv1beta1.ClusterGroupsMap: its number of groups and its GetClusters.
pub record ClusterGroups : Type 0 where
  pub group_count : ℕ
  pub clusters : Names

-- clustersdkv1alpha1.RolloutResult
pub record RolloutResult : Type 0 where
  pub clusters_to_rollout : List ClusterRolloutStatus
  pub clusters_time_out : List ClusterRolloutStatus
  pub recheck_after : Option ℕ

pub record Server (S : Type 0) : Type 0 where
  pub semantic : Semantic
  pub finalizer_lists : FinalizerLists
  -- equality.Semantic.DeepEqual of two statuses.
  pub statuses_equal : ReplicaSetStatus → ReplicaSetStatus → Bool
  -- r.Get of a Namespace, of an AWSServiceAccountRole and of a Placement.
  pub get_namespace : S → String → Result (Unit {0})
  pub get_role : S → NamespacedName → Result Role
  pub get_placement : S → NamespacedName → Result Placement
  -- The decision tracker of the OCM SDK, over the PlacementDecisions of the placement.
  pub decision_groups : S → Placement → Result ClusterGroups
  -- GetRolloutCluster of the OCM SDK.
  pub rollout_clusters :
      ClusterGroups → RolloutStrategy → List ClusterRolloutStatus → Result RolloutResult
  -- r.List by the owner-reference index.
  pub list_by_owner_ref : S → NamespacedName → Result (List Role)
  pub create_role : Role → S → Result (Unit {0}) × S
  pub patch_role : Role → Role → S → Result (Unit {0}) × S
  pub delete_role : Role → S → Result (Unit {0}) × S
  -- patchStatusAndObserve, and the patch of removeFinalizer.
  pub patch_status : ReplicaSet → S → Result (Unit {0}) × S
  pub patch_finalizers : ReplicaSet → S → Result (Unit {0}) × S
