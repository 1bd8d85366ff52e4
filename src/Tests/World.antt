-- ===== src/Tests/World.antt =====
-- An API server that keeps its roles in a list, and the ReplicaSet of the examples.
use aws_workload_identity_op.Prelude.{
  ℕ, ◌+◌, String, ◌==◌, true, false, not, if◌then◌else◌, none, List, [], ◌∷◌, select, ◌++◌,
}
use aws_workload_identity_op.Api.Types.{
  RoleSpec, Role, RoleStatus, ObjectMeta, NamespacedName, same_name, object_key, other_delivery,
}
use aws_workload_identity_op.Api.Errors.{Result, ok, err, Failure}
use aws_workload_identity_op.Controller.ReplicaSet.Types.{
  ReplicaSet, ReplicaSetStatus, ClusterRolloutStatus,
}
use aws_workload_identity_op.Controller.ReplicaSet.Server.{Server, ClusterGroups, RolloutResult}
use aws_workload_identity_op.Tests.Fixtures.{text_equality, text_finalizers}

-- The roles, and the numbers of status and finalizer patches.
pub record World : Type 0 where
  pub roles : List Role
  pub status_patches : ℕ
  pub finalizer_patches : ℕ

abbrev pub not_found : Failure
not_found = record {
  not_found = true;
  no_match = false;
  already_exists = false;
  forbidden = false;
  text = "not found";
}

abbrev pub find_role : NamespacedName → List Role → Result Role
find_role n [] = err not_found
find_role n (r ∷ rs) = if same_name (object_key r.meta) n then ok r else find_role n rs

abbrev pub without : NamespacedName → List Role → List Role
without n rs = select (λ r. not (same_name (object_key r.meta) n)) rs

abbrev pub first_wave : ClusterGroups → List ClusterRolloutStatus → RolloutResult
first_wave g statuses = record {
  clusters_to_rollout = statuses;
  clusters_time_out = [];
  recheck_after = none;
}

abbrev pub world_server : Server World
world_server = record {
  semantic = text_equality;
  finalizer_lists = text_finalizers;
  statuses_equal = λ a b. false;
  get_namespace = λ w name. if name == "lost" then err not_found else ok tt;
  get_role = λ w n. find_role n w.roles;
  get_placement =
      λ w n. ok (record { name = n.name; decision_groups = 1; number_of_selected_clusters = 2 });
  decision_groups = λ w p. ok (record { group_count = 1; clusters = "east" ∷ "west" ∷ [] });
  rollout_clusters = λ g strategy statuses. ok (first_wave g statuses);
  list_by_owner_ref = λ w n. ok w.roles;
  create_role = λ r w. (ok tt, record w { roles = w.roles ++ (r ∷ []) });
  patch_role = λ before after w.
      (ok tt, record w { roles = without (object_key before.meta) w.roles ++ (after ∷ []) });
  delete_role = λ r w. (ok tt, record w { roles = without (object_key r.meta) w.roles });
  patch_status = λ r w. (ok tt, record w { status_patches = w.status_patches + 1 });
  patch_finalizers = λ r w. (ok tt, record w { finalizer_patches = w.finalizer_patches + 1 });
}

abbrev pub no_status : ReplicaSetStatus
no_status = record {
  observed_generation = 0;
  selected_cluster_count = 0;
  desired_cluster_count = 0;
  applied_cluster_count = 0;
  ready_cluster_count = 0;
  stale_cluster_count = 0;
  conflict_count = 0;
  failure_count = 0;
  placements = [];
  rollout = none;
  failed_clusters = [];
  clusters = [];
  conditions = [];
}

abbrev pub web_spec : RoleSpec
web_spec = record {
  service_account = record { namespace = "web"; name = "frontend" };
  policy_arns = [];
  policy_document = none;
}

abbrev pub meta_of : String → String → ObjectMeta
meta_of namespace name = record {
  namespace = namespace;
  name = name;
  uid = "uid-1";
  generation = 3;
  labels = [];
  annotations = [];
  finalizers = [];
  deleting = false;
}

abbrev pub web_replica_set : ReplicaSet
web_replica_set = record {
  meta = meta_of "fleet" "web";
  placement_refs =
      record { name = "prod"; rollout_strategy = record { strategy_type = "All"; details = "" } }
      ∷ [];
  template_metadata = none;
  template_spec = web_spec;
  status = no_status;
}

abbrev pub no_role_status : RoleStatus
no_role_status = record {
  observed_generation = 0;
  conditions = [];
  ack_resources = [];
  role_arn = "";
  generated_policy_arn = "";
  delivery_type = other_delivery "";
  resolved_cluster_name = "";
}

abbrev pub web_role : Role
web_role = record { meta = meta_of "east" "web"; spec = web_spec; status = no_role_status }

abbrev pub empty_world : World
empty_world = record { roles = []; status_patches = 0; finalizer_patches = 0 }
