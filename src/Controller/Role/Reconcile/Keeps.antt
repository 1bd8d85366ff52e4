-- ===== src/Controller/Role/Reconcile/Keeps.antt =====
-- The steps of a reconcile that write to the hub only.
use aws_workload_identity_op.Api.Errors.{Result, ok, err, Failure}
use aws_workload_identity_op.Controller.Role.Reconcile.{
  mark_hub, finished, finish, patch_on_failure, settled, conflict_step, persist, persist_first,
  observe, record_delivery, apply_policy, apply_role, ended,
}
use aws_workload_identity_op.Controller.Bindings.{
  reconcile_duplicate_binding_conflict, ConflictOutcome,
}
use aws_workload_identity_op.Prelude.{
  Option, none, some, ◌≡◌, String, ◌&&◌, false, refl, not, if◌then◌else◌, List,
}
use aws_workload_identity_op.Api.Conditions.{StatusConditions}
use aws_workload_identity_op.Api.Delivery.{uses_annotation_based_irsa}
use aws_workload_identity_op.Api.Types.{Role, RoleStatus, name_text}
use aws_workload_identity_op.Controller.Bindings.Conflict.{
  reconcile_duplicate_binding_conflict-keeps,
}
use aws_workload_identity_op.Controller.Common.{RequeueAfter}
use aws_workload_identity_op.Controller.Role.Apply.Keeps.{
  DeliversTo, reconcile_generated_policy-Ensures, reconcile_iam_role-Ensures,
}
use aws_workload_identity_op.Controller.Role.Flow.{Reached, continue, stop, fail, after}
use aws_workload_identity_op.Controller.Role.Flow.Rules.{Ensures, if-Ensures}
use aws_workload_identity_op.Controller.Role.Prepare.{Inputs}
use aws_workload_identity_op.Controller.Role.Prepare.Keeps.{
  patch_role_status-keeps, halt_after-Ensures,
}
use aws_workload_identity_op.Controller.Role.Server.{RoleServer}
use aws_workload_identity_op.Controller.Role.Server.Keeps.{HubKeeps}
use aws_workload_identity_op.Controller.Role.Status.{should_persist_before_remote_patch}

-- The cluster that setRoleResolvedDeliveryStatus records.
abbrev pub recorded_cluster : Inputs → String
recorded_cluster inputs =
    if uses_annotation_based_irsa inputs.config.spec.delivery_type && inputs.resolved.ready
    then name_text inputs.resolved.cluster_name
    else ""

abbrev pub Delivers : Inputs → Role → Type 0
Delivers inputs r = DeliversTo inputs.config.spec.delivery_type (recorded_cluster inputs) r

module _ (k : StatusConditions) {S : Type 0} (server : RoleServer S) (before : RoleStatus)
    (Q : S → Type 0) (hub : HubKeeps server Q) where
  pub patch_on_failure-Ensures :
      {A : Type 0} (P : A → Role → Type 0) (x : Reached S A)
      → Ensures Q P x
      → Ensures Q P (patch_on_failure k server before x)
  unfolding Ensures patch_on_failure
  patch_on_failure-Ensures P (continue a, r, s) h = h
  patch_on_failure-Ensures P (stop t, r, s) h = h
  patch_on_failure-Ensures P (fail e, r, s) h = patch_role_status-keeps k server before Q hub r s h

  ended-Ensures :
      (requeue : RequeueAfter) (error : Option Failure) (r : Role) (s : S)
      → Q s
      → Ensures Q (λ _ _. Unit) (ended requeue error, r, s)
  unfolding Ensures ended
  ended-Ensures requeue none r s q = q
  ended-Ensures requeue (some e) r s q = q

  settled-Ensures :
      (x : ConflictOutcome × S) → Q x.1 → Ensures Q (λ _ _. Unit) (settled k server before x)
  unfolding Ensures settled
  settled-Ensures (o, s) q =
      if-Ensures Q (λ _ _. Unit) (not o.handled) _ _ (λ _. (q, tt))
        (λ _. ended-Ensures o.requeue_after o.error o.role s q)

  pub conflict_step-Ensures :
      (r : Role) (s : S) → Q s → Ensures Q (λ _ _. Unit) (conflict_step k server before r s)
  unfolding conflict_step
  conflict_step-Ensures r s q =
      let roles = server.list_bindings s r.meta.namespace r.spec.service_account in
      settled-Ensures (reconcile_duplicate_binding_conflict k server r before roles s)
        (reconcile_duplicate_binding_conflict-keeps k server r before Q hub roles s q)

  pub observe-Ensures :
      (r : Role) (s : S) → Q s → Ensures Q (λ _ _. Unit) (observe k server before r s)
  unfolding Ensures observe
  observe-Ensures r s q = (q, tt)

  pub record_delivery-Ensures :
      (inputs : Inputs) (r : Role) (s : S)
      → Q s
      → Ensures Q
          (λ _ r'. Delivers inputs r')
          (record_delivery k server before inputs.config.spec.delivery_type inputs.resolved r s)
  unfolding Ensures record_delivery
  record_delivery-Ensures inputs r s q = (q, (refl, refl))

  pub apply_policy-Ensures :
      (inputs : Inputs) (r : Role) (s : S)
      → Q s
      → Delivers inputs r
      → Ensures Q (λ _ r'. Delivers inputs r') (apply_policy k server before inputs r s)
  unfolding apply_policy
  apply_policy-Ensures inputs r s q d =
      patch_on_failure-Ensures (λ _ r'. Delivers inputs r') _
        (reconcile_generated_policy-Ensures k server Q hub inputs.config.spec.delivery_type
          (recorded_cluster inputs) inputs.config.spec.delivery_type r.spec.policy_arns r s q d)

  pub apply_role-Ensures :
      (inputs : Inputs) (arns : List String) (r : Role) (s : S)
      → Q s
      → Delivers inputs r
      → Ensures Q (λ _ r'. Delivers inputs r') (apply_role k server before inputs arns r s)
  unfolding apply_role
  apply_role-Ensures inputs arns r s q d =
      patch_on_failure-Ensures (λ _ r'. Delivers inputs r') _
        (reconcile_iam_role-Ensures k server Q hub inputs.config.spec.delivery_type
          (recorded_cluster inputs) inputs arns r s q d)

  persist-Ensures :
      (P : Unit {0} → Role → Type 0) (r : Role) (s : S)
      → Q s
      → Ensures Q P (persist k server before r s)
  unfolding Ensures after persist
  persist-Ensures P r s q =
      halt_after-Ensures k server before Q hub P _ _ _
        (patch_role_status-keeps k server before Q hub _ s q)

  -- What is left after the status was not persisted anew: it records the delivery.
  abbrev pub IsPersisted : Inputs → Role → Type 0
  IsPersisted inputs r =
      Delivers inputs r
      × (should_persist_before_remote_patch r.status before inputs.config.spec.delivery_type
          ≡ false)

  pub persist_first-Ensures :
      (inputs : Inputs) (r : Role) (s : S)
      → Q s
      → Delivers inputs r
      → Ensures Q
          (λ _ r'. IsPersisted inputs r')
          (persist_first k server before inputs.config.spec.delivery_type r s)
  unfolding Ensures persist_first
  persist_first-Ensures inputs r s q d =
      if-Ensures Q (λ _ r'. IsPersisted inputs r')
        (should_persist_before_remote_patch r.status before inputs.config.spec.delivery_type)
        (persist k server before r s) _ (λ _. persist-Ensures (λ _ r'. IsPersisted inputs r') r s q)
        (λ same. (q, (d, same)))

  pub mark_hub-Ensures :
      (inputs : Inputs) (r : Role) (s : S)
      → Q s
      → Ensures Q (λ _ _. Unit) (mark_hub k server before inputs r s)
  unfolding Ensures mark_hub
  mark_hub-Ensures inputs r s q = (q, tt)

  finished-Ensures :
      (inputs : Inputs) (requeue : RequeueAfter) (answer : Result (Unit {0})) (r : Role) (s : S)
      → Q s
      → Ensures Q (λ _ _. Unit) (finished k server before inputs requeue answer r s)
  unfolding Ensures finished
  finished-Ensures inputs requeue (ok _) r s q = (q, tt)
  finished-Ensures inputs requeue (err e) r s q = q

  pub finish-Ensures :
      (inputs : Inputs) (requeue : RequeueAfter) (r : Role) (s : S)
      → Q s
      → Ensures Q (λ _ _. Unit) (finish k server before inputs requeue r s)
  unfolding finish
  finish-Ensures inputs requeue r s q =
      finished-Ensures inputs requeue _ r _ (patch_role_status-keeps k server before Q hub r s q)
