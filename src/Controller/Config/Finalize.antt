-- ===== src/Controller/Config/Finalize.antt =====
-- reconcileDelete and Reconcile of internal/controller/config_controller.go.
pub mod Forced
pub mod Guarded
use aws_workload_identity_op.Prelude.{
  String, Bool, not, ◌&&◌, if◌then◌else◌, List, [], ◌∷◌, cat, quote, false, true,
}
use aws_workload_identity_op.Api.ConditionTypes
use aws_workload_identity_op.Api.Reasons
use aws_workload_identity_op.Api.Constants
use aws_workload_identity_op.Api.Conditions.{
  ConditionStatus, StatusConditions, status_true, status_false,
}
use aws_workload_identity_op.Api.Errors.{wrap, Result, ok, err}
use aws_workload_identity_op.Api.Types.{
  Role, Config, ObjectMeta, NamespacedName, name_text, is_force_delete,
}
use aws_workload_identity_op.Controller.Common.{transient_requeue, RequeueAfter}
use aws_workload_identity_op.Controller.Common.Finalizers.{ensure_finalizer, remove_finalizer}
use aws_workload_identity_op.Controller.Config.Components.{Outcome}
use aws_workload_identity_op.Controller.Config.Delete.{Branch, delete_config_children}
use aws_workload_identity_op.Controller.Config.Reconcile.{patch_config_status, reconcile_config}
use aws_workload_identity_op.Controller.Config.Server.{ConfigServer}
use aws_workload_identity_op.Controller.Config.Sharing.{delete_remote_webhook_runtime}
use aws_workload_identity_op.Controller.Config.Steps.{set_on, with_status}

-- The result and the states of the hub and of the remote clusters.
abbrev pub Deleted : Type 0 → Type 0 → Type 0
Deleted S R = Result RequeueAfter × S × R

module _ (k : StatusConditions) {S R : Type 0} (server : ConfigServer S R) where
  with_blocked : Config → ConditionStatus → String → String → Config
  unfolding set_on
  with_blocked c status reason message =
      set_on k (with_status (λ st. record st { observed_generation = c.meta.generation }) c)
        ConditionTypes.deletion_blocked status reason message

  -- markDeletionBlocked
  unfoldable pub mark_deletion_blocked : Config → String → String → S → Result (Unit {0}) × S
  unfolding with_blocked patch_config_status
  mark_deletion_blocked c reason message s =
      patch_config_status k server (with_blocked c status_true reason message) c.status s

  -- clearDeletionBlocked: the config that is left and the answer.
  unfoldable pub clear_deletion_blocked : Config → S → Config × (Result (Unit {0}) × S)
  unfolding with_blocked patch_config_status
  clear_deletion_blocked c s =
      let cleared =
        with_blocked c status_false Reasons.deletion_unblocked "deletion is no longer blocked" in
      if not (k.is_true c.status.conditions ConditionTypes.deletion_blocked)
      then (c, (ok tt, s))
      else (cleared, patch_config_status k server cleared c.status s)

  patch_meta : Config → ObjectMeta → S → Result (Unit {0}) × S
  patch_meta c m s = server.patch_finalizers (record c { meta = m }) s

  released : R → Result (Unit {0}) × S → Deleted S R
  released r (ok _, s) = (ok 0, s, r)
  released r (err e, s) = (err e, s, r)

  release : R → Config × (Result (Unit {0}) × S) → Deleted S R
  unfolding remove_finalizer patch_meta released
  release r (c, (err e, s)) = (err e, s, r)
  release r (c, (ok _, s)) =
      released r
        (remove_finalizer server.finalizer_lists (patch_meta c) c.meta Constants.config_finalizer s)

  after_children : Config → R → Result (Unit {0}) × S → Deleted S R
  unfolding clear_deletion_blocked release
  after_children c r (err e, s) = (err (wrap "delete config children" e), s, r)
  after_children c r (ok _, s) = release r (clear_deletion_blocked c s)

  blocked : R → Result (Unit {0}) × S → Deleted S R
  blocked r (ok _, s) = (ok transient_requeue, s, r)
  blocked r (err e, s) = (err e, s, r)

  after_runtime : List Branch → Config → S → Result (Unit {0}) × R → Deleted S R
  unfolding after_children delete_config_children mark_deletion_blocked blocked
  after_runtime order c s (ok _, r) = after_children c r (delete_config_children server order c s)
  after_runtime order c s (err e, r) = blocked r (
      mark_deletion_blocked c
        (if server.is_unmanaged_runtime e
          then Reasons.remote_runtime_unmanaged
          else Reasons.remote_cluster_unavailable)
        e.text s)

  has_roles : List Role → Bool
  has_roles [] = false
  has_roles (r ∷ rs) = true

  after_roles : List Branch → Config → S → R → Result (List Role) → Deleted S R
  unfolding has_roles is_force_delete mark_deletion_blocked blocked after_runtime
      delete_remote_webhook_runtime
  after_roles order c s r (err e) = (
    err (wrap (cat ("list AWSServiceAccountRoles in namespace " ∷ quote c.meta.namespace ∷ [])) e),
    s,
    r,
  )
  after_roles order c s r (ok roles) =
      if has_roles roles && not (is_force_delete c)
      then blocked r (
          mark_deletion_blocked c Reasons.roles_remain
            "AWSServiceAccountRole objects remain in namespace" s)
      else after_runtime order c s (delete_remote_webhook_runtime server c s r)

  -- reconcileDelete, with the order in which the goroutines of deleteSelfHostedChildren run.
  unfoldable pub reconcile_delete_config : List Branch → Config → S → R → Deleted S R
  unfolding after_roles
  reconcile_delete_config order c s r =
      after_roles order c s r (server.list_roles s c.meta.namespace 1)

  of_outcome : Outcome S R → Deleted S R
  of_outcome (result, c, s, r) = (result, s, r)

  with_finalizer : List Branch → Config → R → Result Bool × S → Deleted S R
  unfolding reconcile_delete_config of_outcome reconcile_config
  with_finalizer order c r (err e, s) = (err e, s, r)
  with_finalizer order c r (ok added, s) =
      if added
      then (ok 0, s, r)
      else if c.meta.deleting
      then reconcile_delete_config order c s r
      else of_outcome (reconcile_config k server c s r)

  with_found : List Branch → NamespacedName → S → R → Result Config → Deleted S R
  unfolding with_finalizer ensure_finalizer patch_meta
  with_found order key s r (err e) =
      if e.not_found
      then (ok 0, s, r)
      else (err (wrap (cat ("get AWSWorkloadIdentityConfig " ∷ name_text key ∷ [])) e), s, r)
  with_found order key s r (ok c) =
      with_finalizer order c r
        (ensure_finalizer server.finalizer_lists (patch_meta c) c.meta Constants.config_finalizer s)

  -- Reconcile
  unfoldable pub reconcile_config_request : List Branch → NamespacedName → S → R → Deleted S R
  unfolding with_found
  reconcile_config_request order key s r = with_found order key s r (server.get_config s key)
