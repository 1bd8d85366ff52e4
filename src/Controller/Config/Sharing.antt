-- ===== src/Controller/Config/Sharing.antt =====
-- The remote webhook runtime of a config that is deleted: deleteRemoteWebhookRuntime of
-- internal/controller/config_controller.go, which leaves a runtime that another config shares.
pub mod Forced
pub mod Unshared
use aws_workload_identity_op.Prelude.{
  String, ◌==◌, Bool, true, false, not, ◌&&◌, any, if◌then◌else◌, some, List, [], ◌∷◌, cat, quote,
}
use aws_workload_identity_op.Api.Errors.{failure, wrap, Result, ok, err}
use aws_workload_identity_op.Api.OperatorConfig.{OperatorConfig, load_operator_config}
use aws_workload_identity_op.Api.Types.{
  Config, NamespacedName, name_text, same_name, object_key, is_force_delete,
}
use aws_workload_identity_op.Controller.Config.Runtime.{remote_cluster_targets}
use aws_workload_identity_op.Controller.Config.Server.{RuntimeClient, ConfigServer}
use aws_workload_identity_op.Controller.Config.Status.{is_self_hosted}
use aws_workload_identity_op.Inventory.{Resolution, resolve_inventory}

-- isLiveSelfHostedSiblingConfig
unfoldable pub is_live_sibling : Config → Config → Bool
is_live_sibling config other =
    not (
      if config.meta.uid == ""
      then (other.meta.namespace == config.meta.namespace) && (other.meta.name == config.meta.name)
      else other.meta.uid == config.meta.uid)
    && (is_self_hosted other.spec.delivery_type && not other.meta.deleting)

sibling_text : Config → String
sibling_text other =
    cat ("sibling AWSWorkloadIdentityConfig " ∷ name_text (object_key other.meta) ∷ [])

module _ {S R : Type 0} (server : ConfigServer S R) where
  unfoldable pub resolve_at : S → String → Result Resolution
  unfolding resolve_inventory
  resolve_at s namespace = resolve_inventory (some (server.list_profiles s)) namespace

  -- Whether a sibling's inventory puts it on the cluster, or what the rest answers.
  on_cluster : Config → NamespacedName → Result Resolution → Result Bool → Result Bool
  unfolding sibling_text
  on_cluster other cluster (err e) rest =
      err (wrap (cat ("resolve " ∷ sibling_text other ∷ " during remote runtime cleanup" ∷ [])) e)
  on_cluster other cluster (ok resolved) rest =
      if not resolved.ready
      then err (
          failure (
            cat (
              sibling_text other
              ∷ " inventory is not ready during remote runtime cleanup: "
              ∷ resolved.reason
              ∷ ": "
              ∷ resolved.message
              ∷ [])))
      else if same_name resolved.cluster_name cluster
      then ok true
      else rest

  -- The loop over every config.
  shared_by : Config → NamespacedName → S → List Config → Result Bool
  unfolding is_live_sibling on_cluster resolve_at
  shared_by config cluster s [] = ok false
  shared_by config cluster s (other ∷ others) =
      let rest = shared_by config cluster s others in
      if not (is_live_sibling config other)
      then rest
      else if other.status.resolved_cluster_name == name_text cluster
      then ok true
      else on_cluster other cluster (resolve_at s other.meta.namespace) rest

  by_list : Config → NamespacedName → S → Result (List Config) → Result Bool
  unfolding shared_by
  by_list config cluster s (ok others) = shared_by config cluster s others
  by_list config cluster s (err e) =
      err (wrap "list AWSWorkloadIdentityConfigs for conservative remote runtime cleanup check" e)

  by_index : Config → NamespacedName → S → Result (List Config) → Result Bool
  unfolding is_live_sibling by_list
  by_index config cluster s (ok indexed) =
      if any (is_live_sibling config) indexed
      then ok true
      else by_list config cluster s (server.list_configs s)
  by_index config cluster s (err e) = err (
      wrap
        (cat (
          "list AWSWorkloadIdentityConfigs by resolved cluster "
          ∷ quote (name_text cluster)
          ∷ " for remote runtime cleanup"
          ∷ []))
        e)

  -- remoteRuntimeSharedByOtherConfig
  unfoldable pub remote_runtime_shared_by_other_config : Config → NamespacedName → S → Result Bool
  unfolding by_index
  remote_runtime_shared_by_other_config config cluster s =
      by_index config cluster s (server.list_configs_by_cluster s (name_text cluster))

  configured_namespace : Result OperatorConfig → Result String
  configured_namespace (ok operator_config) = ok operator_config.webhook_namespace
  configured_namespace (err e) = err (wrap "resolve webhook namespace for cleanup" e)

  -- webhookRuntimeNamespaceForDeletion
  unfoldable pub webhook_runtime_namespace_for_deletion : Config → S → Result String
  unfolding configured_namespace load_operator_config
  webhook_runtime_namespace_for_deletion config s =
      if config.status.webhook_runtime_namespace == ""
      then configured_namespace (load_operator_config (server.get_operator_config s))
      else ok config.status.webhook_runtime_namespace

  delete_in : RuntimeClient R → R → Result String → Result (Unit {0}) × R
  delete_in client r (err e) = (err e, r)
  delete_in client r (ok namespace) = client.delete namespace r

  delete_on : Config → S → R → Result (RuntimeClient R) → Result (Unit {0}) × R
  unfolding delete_in webhook_runtime_namespace_for_deletion
  delete_on config s r (err e) =
      (err (wrap "resolve remote cluster for webhook runtime cleanup" e), r)
  delete_on config s r (ok client) =
      delete_in client r (webhook_runtime_namespace_for_deletion config s)

  unless_shared : Config → NamespacedName → S → R → Result Bool → Result (Unit {0}) × R
  unfolding delete_on remote_cluster_targets
  unless_shared config cluster s r (err e) = (err e, r)
  unless_shared config cluster s r (ok shared) =
      if shared
      then (ok tt, r)
      else delete_on config s r (remote_cluster_targets server.get_cluster r cluster)

  delete_resolved : Config → S → R → Result Resolution → Result (Unit {0}) × R
  unfolding unless_shared remote_runtime_shared_by_other_config
  delete_resolved config s r (err e) =
      (err (wrap "resolve inventory for remote webhook runtime cleanup" e), r)
  delete_resolved config s r (ok resolved) =
      if not resolved.ready
      then (err (failure (cat (resolved.reason ∷ ": " ∷ resolved.message ∷ []))), r)
      else unless_shared config resolved.cluster_name s r
          (remote_runtime_shared_by_other_config config resolved.cluster_name s)

  -- deleteRemoteWebhookRuntimeStrict
  unfoldable pub delete_remote_webhook_runtime_strict : Config → S → R → Result (Unit {0}) × R
  unfolding delete_resolved resolve_at
  delete_remote_webhook_runtime_strict config s r =
      delete_resolved config s r (resolve_at s config.meta.namespace)

  forced : Config → Result (Unit {0}) × R → Result (Unit {0}) × R
  unfolding is_force_delete
  forced config (ok _, r) = (ok tt, r)
  forced config (err e, r) = if is_force_delete config then (ok tt, r) else (err e, r)

  -- deleteRemoteWebhookRuntime
  unfoldable pub delete_remote_webhook_runtime : Config → S → R → Result (Unit {0}) × R
  unfolding forced delete_remote_webhook_runtime_strict
  delete_remote_webhook_runtime config s r =
      if not (is_self_hosted config.spec.delivery_type)
      then (ok tt, r)
      else forced config (delete_remote_webhook_runtime_strict config s r)
