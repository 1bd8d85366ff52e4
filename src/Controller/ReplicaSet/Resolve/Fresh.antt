-- ===== src/Controller/ReplicaSet/Resolve/Fresh.antt =====
-- What a resolution says of each placement.
use aws_workload_identity_op.Prelude.{
  String, ◌≡◌, refl, none, List, [], ◌∷◌, All, All-append, arith,
}
use aws_workload_identity_op.Api.Conditions.{StatusConditions}
use aws_workload_identity_op.Controller.ReplicaSet.Types.{ReplicaSet, PlacementStatus, PlacementRef}
use aws_workload_identity_op.Controller.ReplicaSet.Server.{Server}
use aws_workload_identity_op.Controller.ReplicaSet.Resolve.{
  Resolution, resolve_placements, resolve_refs, resolve_ref,
}
use aws_workload_identity_op.Controller.ReplicaSet.Rollout.{placement_rollout_conditions}

abbrev pub HasNoRollout : List PlacementStatus → Type 0
HasNoRollout = All (λ p. p.rollout ≡ none)

module _ (k : StatusConditions) {S : Type 0} (server : Server S) (s : S) (rs : ReplicaSet) where
  resolve_refs-HasNoRollout :
      (refs : List PlacementRef) (acc : Resolution)
      → HasNoRollout acc.placement_statuses
      → HasNoRollout (resolve_refs k server s rs refs acc).placement_statuses
  unfolding resolve_refs
  resolve_refs-HasNoRollout [] acc h = h
  resolve_refs-HasNoRollout (ref ∷ refs) acc h =
      resolve_refs-HasNoRollout refs (resolve_ref k server s rs ref acc)
        (All-append (λ p. p.rollout ≡ none) acc.placement_statuses _ h (refl, tt))

placement_rollout_conditions-nil :
    (statuses : List PlacementStatus) (name : String)
    → HasNoRollout statuses
    → placement_rollout_conditions statuses name ≡ []
unfolding placement_rollout_conditions
placement_rollout_conditions-nil [] name h = refl
placement_rollout_conditions-nil (p ∷ ps) name h =
    ground (arith, placement_rollout_conditions-nil ps name h.1)

-- The placement statuses that a resolution builds carry no rollout summary, so the plan never finds
-- previous conditions for a placement's rollout, whatever the status held before.
pub placement_rollout_conditions-resolve_placements :
    (k : StatusConditions) {S : Type 0} (server : Server S) (s : S) (rs : ReplicaSet)
    (name : String)
    → placement_rollout_conditions (resolve_placements k server s rs).placement_statuses name ≡ []
unfolding resolve_placements
placement_rollout_conditions-resolve_placements k server s rs name =
    placement_rollout_conditions-nil _ name
      (resolve_refs-HasNoRollout k server s rs rs.placement_refs _ tt)
