-- ===== src/Controller/Role/Finalize/Guard.antt =====
-- When the deletion of a role gets to the release of the role.
use aws_workload_identity_op.Prelude.{true, ◌⊎◌, is_some, ◌≡◌, none, Option, []}
use aws_workload_identity_op.Api.Conditions.{StatusConditions}
use aws_workload_identity_op.Api.Errors.{Failure, Result, ok, err}
use aws_workload_identity_op.Api.Types.{Role, NamespacedName}
use aws_workload_identity_op.Controller.Role.Server.{AckChild, RoleServer}
use aws_workload_identity_op.Controller.Annotations.{RemoteClient, ServiceAccount}
use aws_workload_identity_op.Controller.Role.Delete.{is_child_owned_by}
use aws_workload_identity_op.Controller.Role.Finalize.{delete_children, children_of}

module _ (k : StatusConditions) {S : Type 0} (server : RoleServer S) (role : Role) where
  -- No child failed to be deleted and none is left.
  unfoldable pub IsAllGone : S → Type 0
  IsAllGone s =
      ((delete_children k server role (children_of k server role) s).error ≡ none)
      × ((delete_children k server role (children_of k server role) s).pending ≡ [])

  unfoldable pub IsCleanedUp : Result (Unit {0}) × S → Type 0
  unfolding IsAllGone
  IsCleanedUp (ok _, s) = IsAllGone s
  IsCleanedUp (err e, s) = ⊥

  module _ (P : S → Type 0) (status : (r : Role) (s : S) → P s → P (server.patch_status r s).1)
      (deletes : (child : AckChild) (s : S)
        → is_child_owned_by role child ≡ true
        → P s
        → P (server.delete_child child s).1)
      (removes : (cluster : NamespacedName) (s : S) (remote : RemoteClient S)
        → server.get_cluster s cluster ≡ ok remote
        → (sa : ServiceAccount) (t : S) → P t
        → P (remote.patch_service_account sa t).1) where
    -- The deletion got as far as its end, or its state satisfies P and it gives an error.
    abbrev pub Guards : Type 0 → Option Failure × S → Type 0
    Guards Done x = Done ⊎ (is_some x.0 ≡ true) × P x.1
