-- ===== src/Controller/Role/Reconcile.antt =====
-- Reconcile and reconcileNormal of internal/controller/role_controller.go.
pub mod Keeps
pub mod Persisted
use aws_workload_identity_op.Prelude.{
  String, Bool, not, if◌then◌else◌, Option, none, some, List, [], ◌∷◌, cat,
}
use aws_workload_identity_op.Api.ConditionTypes
use aws_workload_identity_op.Api.Reasons
use aws_workload_identity_op.Api.Constants.{service_account_role_finalizer}
use aws_workload_identity_op.Api.Conditions.{StatusConditions, status_false}
use aws_workload_identity_op.Api.Errors.{Failure, wrap, Result, ok, err}
use aws_workload_identity_op.Api.Types.{Role, RoleStatus, NamespacedName, name_text, DeliveryType}
use aws_workload_identity_op.Controller.Bindings.{
  ConflictOutcome, reconcile_duplicate_binding_conflict,
}
use aws_workload_identity_op.Controller.Common.{RequeueAfter}
use aws_workload_identity_op.Controller.Common.Finalizers.{ensure_finalizer}
use aws_workload_identity_op.Controller.Role.Apply.{reconcile_generated_policy, reconcile_iam_role}
use aws_workload_identity_op.Controller.Role.Deliver.{set_delivery_conditions}
use aws_workload_identity_op.Controller.Role.Finalize.{patch_role_status, reconcile_delete}
use aws_workload_identity_op.Controller.Role.Flow.{
  M, Flow, Reached, ◌>>=◌, continue, stop, fail, pure, abort, change, change_conditions, mark,
  mark_not_ready, ◌>>◌,
}
use aws_workload_identity_op.Controller.Role.Prepare.{
  Inputs, prepare_role_inputs, patch_status, halt_after,
}
use aws_workload_identity_op.Controller.Role.Server.{RoleServer}
use aws_workload_identity_op.Controller.Role.Status.{
  prune_stale_ack_resources, set_resolved_delivery_status, should_persist_before_remote_patch,
  set_hub_ready_conditions, role_result_with_safety_requeue,
}
use aws_workload_identity_op.Inventory.{Resolution}

abbrev persist_message : String
persist_message =
    "waiting to retry remote ServiceAccount annotation delivery after persisting role status"

unfoldable pub ended : RequeueAfter → Option Failure → Flow (Unit {0})
ended t none = stop t
ended t (some e) = fail e

module _ (k : StatusConditions) {S : Type 0} (server : RoleServer S) (before : RoleStatus) where
  -- returnWithRoleStatusPatch, of a step that failed: the error of the patch is logged only.
  unfoldable pub patch_on_failure : {A : Type 0} → Reached S A → Reached S A
  unfolding patch_role_status
  patch_on_failure (continue a, r, s) = (continue a, r, s)
  patch_on_failure (stop t, r, s) = (stop t, r, s)
  patch_on_failure (fail e, r, s) = (fail e, r, (patch_role_status k server r before s).1)

  unfoldable pub settled : ConflictOutcome × S → Reached S (Unit {0})
  unfolding ended
  settled (o, s) =
      if not o.handled then (continue tt, o.role, s) else (ended o.requeue_after o.error, o.role, s)

  -- reconcileDuplicateBindingConflict
  unfoldable pub conflict_step : M S (Unit {0})
  unfolding settled reconcile_duplicate_binding_conflict
  conflict_step r s = settled (
      reconcile_duplicate_binding_conflict k server r before
        (server.list_bindings s r.meta.namespace r.spec.service_account) s)

  unfoldable pub persist : M S (Unit {0})
  unfolding halt_after
  persist = do
    mark k ConditionTypes.service_account_annotation_ready status_false
        Reasons.remote_delivery_pending persist_message
    mark_not_ready k ConditionTypes.delivery_ready Reasons.remote_delivery_pending persist_message
    answer ← patch_status k server before
    halt_after k server before answer

  -- The status is persisted before the remote service account is written.
  unfoldable pub persist_first : DeliveryType → M S (Unit {0})
  unfolding persist should_persist_before_remote_patch
  persist_first delivery r s =
      if should_persist_before_remote_patch r.status before delivery
      then persist r s
      else pure tt r s

  unfoldable pub observe : M S (Unit {0})
  observe r s = change (λ status. record status { observed_generation = r.meta.generation }) r s

  unfoldable pub record_delivery : DeliveryType → Resolution → M S (Unit {0})
  unfolding set_resolved_delivery_status prune_stale_ack_resources
  record_delivery delivery resolved = change (λ status.
      let recorded = set_resolved_delivery_status status delivery resolved in
      record recorded { ack_resources = prune_stale_ack_resources recorded.ack_resources delivery })

  unfoldable pub apply_policy : Inputs → M S (List String)
  unfolding patch_on_failure reconcile_generated_policy
  apply_policy inputs r s =
      patch_on_failure (
        reconcile_generated_policy k server inputs.config.spec.delivery_type r.spec.policy_arns r s)

  unfoldable pub apply_role : Inputs → List String → M S (Unit {0})
  unfolding patch_on_failure reconcile_iam_role
  apply_role inputs arns r s = patch_on_failure (reconcile_iam_role k server inputs arns r s)

  deliver_role : Inputs → M S RequeueAfter
  unfolding patch_on_failure set_delivery_conditions
  deliver_role inputs r s =
      patch_on_failure (
        set_delivery_conditions k server before inputs.config.spec.delivery_type inputs.resolved r
          s)

  unfoldable pub mark_hub : Inputs → M S (Unit {0})
  unfolding set_hub_ready_conditions
  mark_hub inputs =
      change_conditions
        λ cs g. set_hub_ready_conditions k cs g inputs.config.spec.delivery_type inputs.config

  unfoldable pub finished : Inputs → RequeueAfter → Result (Unit {0}) → M S RequeueAfter
  unfolding role_result_with_safety_requeue
  finished inputs requeue (err e) r s = abort e r s
  finished inputs requeue (ok _) r s =
      pure
        (role_result_with_safety_requeue k inputs.config.spec.delivery_type r.status.conditions
          requeue)
        r s

  unfoldable pub finish : Inputs → RequeueAfter → M S RequeueAfter
  unfolding finished patch_role_status
  finish inputs requeue r s =
      let (answer, s') = patch_role_status k server r before s in
      finished inputs requeue answer r s'

  apply_steps : Inputs → M S (Unit {0})
  unfolding record_delivery apply_policy apply_role persist_first
  apply_steps inputs = do
    record_delivery inputs.config.spec.delivery_type inputs.resolved
    arns ← apply_policy inputs
    apply_role inputs arns
    persist_first inputs.config.spec.delivery_type

  deliver_steps : Inputs → M S RequeueAfter
  unfolding deliver_role mark_hub finish
  deliver_steps inputs = do requeue ← deliver_role inputs; mark_hub inputs; finish inputs requeue

  -- reconcileNormal, of a role whose status is `before`.
  unfoldable pub reconcile_steps : M S RequeueAfter
  unfolding observe conflict_step prepare_role_inputs apply_steps deliver_steps
  reconcile_steps = do
    observe
    conflict_step
    inputs ← prepare_role_inputs k server before
    apply_steps inputs
    deliver_steps inputs

module _ (k : StatusConditions) {S : Type 0} (server : RoleServer S) where
  -- reconcileNormal
  unfoldable pub reconcile_normal : Role → S → Reached S RequeueAfter
  unfolding reconcile_steps
  reconcile_normal role s = reconcile_steps k server role.status role s

  result_of : Reached S RequeueAfter → Result RequeueAfter × S
  result_of (continue t, r, s) = (ok t, s)
  result_of (stop t, r, s) = (ok t, s)
  result_of (fail e, r, s) = (err e, s)

  deleted : Option Failure × S → Result RequeueAfter × S
  deleted (none, s) = (ok 0, s)
  deleted (some e, s) = (err e, s)

  with_finalizer : Role → Result Bool × S → Result RequeueAfter × S
  unfolding result_of deleted reconcile_normal reconcile_delete
  with_finalizer role (err e, s) = (err e, s)
  with_finalizer role (ok added, s) =
      if added
      then (ok 0, s)
      else if role.meta.deleting
      then deleted (reconcile_delete k server role s)
      else result_of (reconcile_normal role s)

  with_found : NamespacedName → S → Result Role → Result RequeueAfter × S
  unfolding with_finalizer ensure_finalizer
  with_found key s (err e) =
      if e.not_found
      then (ok 0, s)
      else (err (wrap (cat ("get AWSServiceAccountRole " ∷ name_text key ∷ [])) e), s)
  with_found key s (ok role) = with_finalizer role (
      ensure_finalizer server.finalizer_lists
        (λ m t. server.patch_finalizers (record role { meta = m }) t) role.meta
        service_account_role_finalizer s)

  -- Reconcile
  unfoldable pub reconcile : NamespacedName → S → Result RequeueAfter × S
  unfolding with_found
  reconcile key s = with_found key s (server.get_role s key)
