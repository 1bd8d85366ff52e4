-- ===== src/Controller/ReplicaSet/Resolve.antt =====
-- resolveReplicaSetPlacements and resolveOCMPlacement.
pub mod Fresh
use aws_workload_identity_op.Prelude.{
  ℕ, String, Bool, if◌then◌else◌, Option, none, some, List, [], ◌∷◌, ◌++◌, length, cat,
}
use aws_workload_identity_op.Prelude.Maps.{Map, lookup, insert}
use aws_workload_identity_op.Prelude.Int.{pos}
use aws_workload_identity_op.Api.Conditions.{Condition, StatusConditions, status_true, status_false}
use aws_workload_identity_op.Api.ConditionTypes
use aws_workload_identity_op.Api.Reasons
use aws_workload_identity_op.Api.Errors.{Failure, Result, ok, err, wrap}
use aws_workload_identity_op.Api.Types.{NamespacedName, name_text}
use aws_workload_identity_op.Controller.Common.{set_condition}
use aws_workload_identity_op.Controller.ReplicaSet.Types.{ReplicaSet, PlacementStatus, PlacementRef}
use aws_workload_identity_op.Controller.ReplicaSet.Counts.{count_int32}
use aws_workload_identity_op.Controller.ReplicaSet.Server.{
  Server, Names, insert_name, Placement, ClusterGroups,
}

abbrev pub no_groups : ClusterGroups
no_groups = record { group_count = 0; clusters = [] }

-- What resolving one placement returns: the placement if it was read, its groups, and the error.
pub record ResolvedPlacement : Type 0 where
  pub placement : Option Placement
  pub groups : ClusterGroups
  pub error : Option Failure

pub record Resolution : Type 0 where
  pub clusters : Names
  pub by_ref : Map ResolvedPlacement
  pub placement_statuses : List PlacementStatus
  pub errors : List Failure

with_groups : String → Placement → Result ClusterGroups → ResolvedPlacement
with_groups key placement (ok groups) = record {
  placement = some placement;
  groups = groups;
  error = none;
}
with_groups key placement (err e) = record {
  placement = some placement;
  groups = no_groups;
  error = some (wrap (cat ("resolve OCM PlacementDecision groups for " ∷ key ∷ [])) e);
}

with_placement : {S : Type 0} → Server S → S → String → Result Placement → ResolvedPlacement
unfolding with_groups
with_placement server s key (ok placement) =
    with_groups key placement (server.decision_groups s placement)
with_placement server s key (err e) = record {
  placement = none;
  groups = no_groups;
  error = some (wrap (cat ("resolve OCM Placement " ∷ key ∷ [])) e);
}

-- resolveOCMPlacement
unfoldable pub resolve_ocm_placement :
    {S : Type 0} → Server S → S → NamespacedName → ResolvedPlacement
unfolding with_placement
resolve_ocm_placement server s key =
    with_placement server s (name_text key) (server.get_placement s key)

-- The conditions of each placement of the status; a later entry of a name wins.
collect_conditions : Map (List Condition) → List PlacementStatus → Map (List Condition)
collect_conditions m [] = m
collect_conditions m (p ∷ ps) = collect_conditions (insert p.name p.conditions m) ps

conditions_or_nil : Option (List Condition) → List Condition
conditions_or_nil none = []
conditions_or_nil (some cs) = cs

-- The conditions that the status held for a placement before.
previous_conditions : List PlacementStatus → String → List Condition
unfolding collect_conditions conditions_or_nil
previous_conditions statuses name = conditions_or_nil (lookup name (collect_conditions [] statuses))

resolved_conditions : StatusConditions → ℕ → List Condition → Option Failure → List Condition
resolved_conditions k generation cs none =
    set_condition k cs generation ConditionTypes.placement_resolved status_true Reasons.resolved
      "OCM Placement and PlacementDecision objects resolved"
resolved_conditions k generation cs (some e) =
    set_condition k cs generation ConditionTypes.placement_resolved status_false
      Reasons.placement_unavailable e.text

errors_of : Option Failure → List Failure
errors_of none = []
errors_of (some e) = e ∷ []

insert_names : Names → Names → Names
insert_names [] names = names
insert_names (x ∷ xs) names = insert_names xs (insert_name x names)

module _ (k : StatusConditions) {S : Type 0} (server : Server S) (s : S) (rs : ReplicaSet) where
  resolve_ref : PlacementRef → Resolution → Resolution
  unfolding resolve_ocm_placement previous_conditions resolved_conditions errors_of insert_names
      count_int32
  resolve_ref ref acc =
      let resolved =
        resolve_ocm_placement server s
          (record { namespace = rs.meta.namespace; name = ref.name }) in
      record {
        clusters = insert_names resolved.groups.clusters acc.clusters;
        by_ref = insert ref.name resolved acc.by_ref;
        placement_statuses =
            acc.placement_statuses
            ++ record {
              name = ref.name;
              selected_cluster_count = count_int32 (pos (length resolved.groups.clusters));
              available_decision_groups = "";
              rollout = none;
              conditions =
                  resolved_conditions k rs.meta.generation
                    (previous_conditions rs.status.placements ref.name) resolved.error;
            }
              ∷ [];
        errors = acc.errors ++ errors_of resolved.error;
      }

  resolve_refs : List PlacementRef → Resolution → Resolution
  unfolding resolve_ref
  resolve_refs [] acc = acc
  resolve_refs (ref ∷ refs) acc = resolve_refs refs (resolve_ref ref acc)

  -- resolveReplicaSetPlacements
  unfoldable pub resolve_placements : Resolution
  unfolding resolve_refs
  resolve_placements =
      resolve_refs rs.placement_refs
        (record { clusters = []; by_ref = []; placement_statuses = []; errors = [] })
