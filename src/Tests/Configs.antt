-- ===== src/Tests/Configs.antt =====
-- Examples of the theorems on the config controller.
use Prim.Native.String.{◌++◌}
use mathlib.Core.Path.{subst}
use aws_workload_identity_op.Prelude.{
  ◌≡◌, ◌<◌, ◌≤◌, true, false, ◌&&◌, [], ◌∷◌, refl, sym, arith, String,
}
use aws_workload_identity_op.Aws.OidcProvider.{Url, normalize_issuer_url}
use aws_workload_identity_op.Aws.OidcProvider.Normal.{normalize_issuer_url-again}
use aws_workload_identity_op.Api.ConditionTypes
use aws_workload_identity_op.Api.Errors.{ok}
use aws_workload_identity_op.Api.Types.{NamespacedName}
use aws_workload_identity_op.Controller.Common.{transient_requeue}
use aws_workload_identity_op.Controller.Config.Components.{reconcile_self_hosted_components}
use aws_workload_identity_op.Controller.Config.Components.Current.{
  reconcile_self_hosted_components-IsCurrent,
}
use aws_workload_identity_op.Controller.Config.Delete.{
  provider_branch, secret_branch, bucket_branch, delete_config_children, is_config_child_owned_by,
}
use aws_workload_identity_op.Controller.Config.Delete.Owned.{
  IsMarked, is_config_child_owned_by-IsMarked, delete_config_children-keeps,
}
use aws_workload_identity_op.Controller.Config.Finalize.{reconcile_delete_config}
use aws_workload_identity_op.Controller.Config.Finalize.Guarded.{reconcile_delete_config-keeps}
use aws_workload_identity_op.Controller.Config.Issuer.Fresh.{of_issuer}
use aws_workload_identity_op.Controller.Config.Issuer.{self_hosted_publisher}
use aws_workload_identity_op.Controller.Config.Reconcile.{reconcile_config}
use aws_workload_identity_op.Controller.Config.Reconcile.Consistent.{reconcile_config-IsConsistent}
use aws_workload_identity_op.Controller.Config.Runtime.{remote_cluster_targets}
use aws_workload_identity_op.Controller.Config.Secret.{mutate_secret}
use aws_workload_identity_op.Controller.Config.Secret.Keys.{Yields, IsKeyed, mutate_secret-IsKeyed}
use aws_workload_identity_op.Controller.Config.Server.{
  ConfigChild, Publisher, RuntimeClient, SigningKey, bucket,
}
use aws_workload_identity_op.Controller.Config.Status.{
  webhook_runtime_requeue_after, set_config_ready_condition,
}
use aws_workload_identity_op.Controller.Config.Status.Consistent.{IsConsistent}
use aws_workload_identity_op.Controller.Config.Status.Readiness.{
  is_true_of, components_ready, set_config_ready_condition-is_true,
}
use aws_workload_identity_op.Controller.Config.Status.Requeue.{webhook_runtime_requeue_after_bounds}
use aws_workload_identity_op.Prelude.Sorting.{sort}
use aws_workload_identity_op.Controller.Config.Steps.{after}
use aws_workload_identity_op.Controller.Config.Steps.Current.{IsCurrent}
use aws_workload_identity_op.Controller.Role.Cleanup.{recorded_resolution}
use aws_workload_identity_op.Tests.Fixtures.{list_conditions}
use aws_workload_identity_op.Tests.ConfigWorld.{
  ConfigWorld, RemoteWorld, hosted_config, child_of, runtime, east_client, new_key, empty_secret,
  config_server, issuer_urls, issuer_url_parsed, config_world, remote_world,
}

abbrev east_cluster : NamespacedName
east_cluster = record { namespace = "east"; name = "east" }

webhook_runtime_requeue_after_bounds_example :
    (0 < webhook_runtime_requeue_after runtime true)
    × (0 < webhook_runtime_requeue_after runtime false)
    × (webhook_runtime_requeue_after runtime false ≤ transient_requeue)
    × (0 < runtime.cert_renewal_after
        → (webhook_runtime_requeue_after runtime true ≡ runtime.cert_renewal_after)
          × (webhook_runtime_requeue_after runtime false ≤ runtime.cert_renewal_after))
webhook_runtime_requeue_after_bounds_example = webhook_runtime_requeue_after_bounds runtime

set_config_ready_condition-is_true_example :
    is_true_of list_conditions
      (set_config_ready_condition list_conditions hosted_config (recorded_resolution east_cluster))
      ConditionTypes.ready
    ≡ (true && components_ready list_conditions hosted_config)
unfolding recorded_resolution
set_config_ready_condition-is_true_example =
    set_config_ready_condition-is_true list_conditions hosted_config
      (recorded_resolution east_cluster)

reconcile_config-IsConsistent_example :
    IsConsistent list_conditions
      (reconcile_config list_conditions config_server hosted_config config_world remote_world).1
reconcile_config-IsConsistent_example =
    reconcile_config-IsConsistent list_conditions config_server hosted_config config_world
      remote_world

-- This reconcile ends with a ready config.
reconciled :
    is_true_of list_conditions
      (reconcile_config list_conditions config_server hosted_config config_world remote_world).1
      ConditionTypes.ready
    ≡ true
unfolding reconcile_config after
reconciled = refl

reconcile_self_hosted_components-IsCurrent_example :
    IsCurrent list_conditions hosted_config.meta.generation of_issuer
      (reconcile_self_hosted_components list_conditions config_server
        (record { permissions_boundary_arn = ""; webhook_namespace = "" })
        (recorded_resolution east_cluster)
        hosted_config
        config_world
        remote_world).1
reconcile_self_hosted_components-IsCurrent_example =
    reconcile_self_hosted_components-IsCurrent list_conditions config_server
      (record { permissions_boundary_arn = ""; webhook_namespace = "" })
      (recorded_resolution east_cluster) hosted_config config_world remote_world

generates :
    (w : ConfigWorld) (key : SigningKey)
    → config_server.generate_key w ≡ ok key
    → config_server.key_id_of key.public_key ≡ ok key.key_id
generates w key h =
    let same : new_key ≡ key = cc in
    subst (λ x. config_server.key_id_of x.public_key ≡ ok x.key_id) same refl

mutate_secret-IsKeyed_example :
    Yields
      (IsKeyed config_server generates empty_secret)
      (mutate_secret config_server hosted_config east_cluster config_world empty_secret)
mutate_secret-IsKeyed_example =
    mutate_secret-IsKeyed config_server generates hosted_config east_cluster config_world
      empty_secret

-- The API server deletes an owned child, and the issuer objects of the foreign bucket stay.
HasOthers : ConfigWorld → Type 0
HasOthers w = (w.foreign && w.objects) ≡ true

delete_keeps :
    (child : ConfigChild) (w : ConfigWorld)
    → IsMarked hosted_config child
    → HasOthers w
    → HasOthers (config_server.delete_child child w).1
unfolding HasOthers
delete_keeps child w marked p =
    simp ((is_config_child_owned_by-IsMarked hosted_config child).1 marked) p

objects_keep :
    (name : String) (child : ConfigChild) (p : Publisher ConfigWorld) (w : ConfigWorld)
    → config_server.get_child w bucket (record { namespace = "east"; name = name }) ≡ ok child
    → IsMarked hosted_config child
    → self_hosted_publisher config_server.publisher_factory w hosted_config.spec.region ≡ ok p
    → HasOthers w
    → HasOthers (p.delete_issuer name w).1
unfolding is_config_child_owned_by
objects_keep name child p w h marked found others =
    let same : child_of bucket (record { namespace = "east"; name = name }) "uid-2" ≡ child = cc in
    let foreign : is_config_child_owned_by hosted_config
          (child_of bucket (record { namespace = "east"; name = name }) "uid-2")
        ≡ true =
      subst (λ c. is_config_child_owned_by hosted_config c ≡ true) (sym same)
        ((is_config_child_owned_by-IsMarked hosted_config child).1 marked) in
    ground (arith, foreign)

delete_config_children-keeps_example :
    HasOthers
      (delete_config_children config_server
        (bucket_branch ∷ provider_branch ∷ secret_branch ∷ [])
        hosted_config
        config_world).1
unfolding HasOthers
delete_config_children-keeps_example =
    delete_config_children-keeps config_server hosted_config HasOthers delete_keeps objects_keep
      (bucket_branch ∷ provider_branch ∷ secret_branch ∷ []) config_world refl

HasWest : RemoteWorld → Type 0
HasWest r = r.west ≡ true

keeps_west :
    (client : RuntimeClient RemoteWorld) (namespace : String) (cluster : NamespacedName)
    (r : RemoteWorld)
    → remote_cluster_targets config_server.get_cluster r cluster ≡ ok client
    → HasWest r
    → HasWest (client.delete namespace r).1
unfolding HasWest remote_cluster_targets
keeps_west client namespace cluster r h p =
    let same : east_client ≡ client = cc in subst (λ x. HasWest (x.delete namespace r).1) same p

reconcile_delete_config-keeps_example :
    HasWest
      (reconcile_delete_config list_conditions config_server
        (bucket_branch ∷ [])
        hosted_config
        config_world
        remote_world).2
unfolding HasWest
reconcile_delete_config-keeps_example =
    reconcile_delete_config-keeps list_conditions config_server HasWest hosted_config config_world
      (λ cluster client namespace r free unshared found p.
        keeps_west client namespace cluster r found p)
      (bucket_branch ∷ []) remote_world refl

-- This deletion deletes the runtime of the config's own cluster.
deleted :
    (reconcile_delete_config list_conditions config_server
      (bucket_branch ∷ [])
      hosted_config
      config_world
      remote_world).2.east
    ≡ false
unfolding reconcile_delete_config sort
deleted = refl

reads_https :
    (h : String) (u : Url)
    → issuer_urls.has_query_or_fragment h ≡ false
    → issuer_urls.parse ("https://" ++ h) ≡ ok u
    → (u.scheme ≡ "https") × (u.raw_query ≡ "") × (u.fragment ≡ "")
reads_https h u plain parsed =
    let same : issuer_url_parsed ≡ u = cc in
    subst (λ x. (x.scheme ≡ "https") × (x.raw_query ≡ "") × (x.fragment ≡ "")) same
      (refl, refl, refl)

normalize_issuer_url-again_example :
    normalize_issuer_url issuer_urls ("https://" ++ "issuer.example.com") ≡ ok "issuer.example.com"
unfolding normalize_issuer_url
normalize_issuer_url-again_example =
    normalize_issuer_url-again issuer_urls reads_https "https://issuer.example.com"
      "issuer.example.com" refl
