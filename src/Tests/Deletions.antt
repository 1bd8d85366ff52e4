-- ===== src/Tests/Deletions.antt =====
-- A deletion that is forced while a role is left and the remote cluster cannot be reached.
use aws_workload_identity_op.Prelude.{◌≡◌, true, false, some, [], ◌∷◌, refl}
use aws_workload_identity_op.Api.Constants.{config_finalizer, force_delete_annotation}
use aws_workload_identity_op.Api.Errors.{ok, err, failure}
use aws_workload_identity_op.Api.Types.{Config, NamespacedName, is_force_delete}
use aws_workload_identity_op.Controller.Config.Delete.{
  provider_branch, secret_branch, bucket_branch, is_config_child_owned_by,
}
use aws_workload_identity_op.Controller.Config.Delete.Complete.{IsKnown, Succeeds, IsServing}
use aws_workload_identity_op.Controller.Config.Finalize.{reconcile_delete_config}
use aws_workload_identity_op.Controller.Config.Finalize.Forced.{
  IsReleased, reconcile_delete_config-IsReleased,
}
use aws_workload_identity_op.Controller.Config.Issuer.{self_hosted_publisher}
use aws_workload_identity_op.Controller.Config.Server.{
  ConfigChildKind, oidc_provider, signing_secret, bucket, ConfigChild, ConfigServer,
}
use aws_workload_identity_op.Tests.ConfigWorld.{
  ConfigWorld, RemoteWorld, hosted_config, get_child, delete_child, config_server, config_world,
  remote_world,
}
use aws_workload_identity_op.Tests.Fixtures.{list_conditions}
use aws_workload_identity_op.Tests.World.{web_role}
use aws_workload_identity_op.Prelude.{Bool-cases}
use aws_workload_identity_op.Prelude.{inl}
use aws_workload_identity_op.Prelude.{inr}

abbrev forced_config : Config
forced_config = record hosted_config {
  meta = record hosted_config.meta {
    annotations = (force_delete_annotation, "true") ∷ [];
    finalizers = config_finalizer ∷ [];
  };
}

abbrev stuck_server : ConfigServer ConfigWorld RemoteWorld
stuck_server = record config_server {
  list_roles = λ w namespace limit. ok (web_role ∷ []);
  get_cluster = some (λ r cluster. err (failure "unreachable"));
}

abbrev IsReachable : ConfigWorld → Type 0
IsReachable w = Unit {0}

abbrev IsFree : ConfigWorld → Type 0
IsFree w = w.held ≡ false

is_known :
    (kind : ConfigChildKind) (key : NamespacedName) (w : ConfigWorld)
    → IsReachable w
    → IsKnown (get_child w kind key)
is_known oidc_provider key w p = tt
is_known signing_secret key w p = refl
is_known bucket key w p = tt

deletes :
    (child : ConfigChild) (w : ConfigWorld)
    → IsReachable w
    → Succeeds IsReachable (delete_child child w)
deletes child w p = elim (Bool-cases (is_config_child_owned_by hosted_config child)) [
  | inl owned ↦ simp owned tt
  | inr foreign ↦ simp foreign tt
]

serves :
    (w : ConfigWorld)
    → IsReachable w
    → IsServing IsReachable
        (self_hosted_publisher stuck_server.publisher_factory w forced_config.spec.region)
unfolding self_hosted_publisher
serves w p name w' q = tt

is_forced : is_force_delete forced_config ≡ true
unfolding is_force_delete
is_forced = refl

reconcile_delete_config-IsReleased_example : IsReleased IsFree (
    reconcile_delete_config list_conditions stuck_server
      (bucket_branch ∷ provider_branch ∷ secret_branch ∷ [])
      forced_config
      config_world
      remote_world)
reconcile_delete_config-IsReleased_example =
    reconcile_delete_config-IsReleased list_conditions stuck_server forced_config IsReachable IsFree
      refl (λ c w p. tt) (λ c w gone p. gone) is_forced (λ w p. tt) is_known deletes serves
      (bucket_branch ∷ provider_branch ∷ secret_branch ∷ []) config_world remote_world tt
