-- ===== src/Controller/Role/Reconcile/Persisted.antt =====
-- A reconcile writes a remote service account only with what the role's status already records.
use mathlib.Core.Path.{subst}
use aws_workload_identity_op.Api.Types.{NamespacedName, Role, RoleStatus, name_text}
use aws_workload_identity_op.Controller.Annotations.{RemoteClient}
use aws_workload_identity_op.Controller.Annotations.Keeps.{RemoteKeeps}
use aws_workload_identity_op.Controller.Role.Deliver.Keeps.{
  set_delivery_conditions-Ensures, IsRecorded,
}
use aws_workload_identity_op.Controller.Role.Flow.Rules.{after-Ensures, Ensures}
use aws_workload_identity_op.Controller.Role.Prepare.Keeps.{
  prepare_role_inputs-Ensures, IsDeliverable,
}
use aws_workload_identity_op.Controller.Role.Reconcile.{
  deliver_role, reconcile_steps, apply_steps, deliver_steps, reconcile_normal,
}
use aws_workload_identity_op.Prelude.{
  ◌∙◌, ◌≡◌, String, ◌==◌, ◌&&◌, ◌||◌, Bool, true, false, arith, sym, not, eq_iff,
}
use aws_workload_identity_op.Api.Conditions.{StatusConditions}
use aws_workload_identity_op.Api.Delivery.{uses_annotation_based_irsa}
use aws_workload_identity_op.Controller.Role.Flow.{Reached, continue, stop, fail}
use aws_workload_identity_op.Controller.Role.Prepare.{Inputs}
use aws_workload_identity_op.Controller.Role.Server.{RoleServer}
use aws_workload_identity_op.Controller.Role.Server.Keeps.{HubKeeps}
use aws_workload_identity_op.Controller.Role.Status.{should_persist_before_remote_patch}
use aws_workload_identity_op.Api.Errors.{ok}
use aws_workload_identity_op.Controller.Role.Reconcile.Keeps.{
  Delivers, recorded_cluster, IsPersisted, patch_on_failure-Ensures, conflict_step-Ensures,
  observe-Ensures, record_delivery-Ensures, apply_policy-Ensures, apply_role-Ensures,
  persist_first-Ensures, mark_hub-Ensures, finish-Ensures,
}

nothing_differs :
    (uses unnamed arn delivery cluster : Bool)
    → uses ≡ true
    → unnamed ≡ false
    → (uses && (not unnamed && (not arn || (not delivery || not cluster)))) ≡ false
    → (arn ≡ true) × (delivery ≡ true) × (cluster ≡ true)
nothing_differs uses unnamed arn delivery cluster h g same = ground arith

module _ (k : StatusConditions) {S : Type 0} (server : RoleServer S) (before : RoleStatus)
    (Q : S → Type 0) (hub : HubKeeps server Q) where
  recorded_cluster-ready :
      (inputs : Inputs)
      → uses_annotation_based_irsa inputs.config.spec.delivery_type ≡ true
      → inputs.resolved.ready ≡ true
      → recorded_cluster inputs ≡ name_text inputs.resolved.cluster_name
  recorded_cluster-ready inputs uses ready = ground (arith, uses, ready)

  IsPersisted-IsRecorded :
      (inputs : Inputs) (r : Role)
      → IsDeliverable inputs
      → IsPersisted k server before Q hub inputs r
      → uses_annotation_based_irsa inputs.config.spec.delivery_type ≡ true
      → (r.status.role_arn == "") ≡ false
      → IsRecorded before inputs.resolved.cluster_name × (before.role_arn ≡ r.status.role_arn)
  unfolding should_persist_before_remote_patch
  IsPersisted-IsRecorded inputs r usable persisted uses named =
      let (same_arn, same_type, same_cluster) =
        nothing_differs _ (r.status.role_arn == "") (before.role_arn == r.status.role_arn) _
          (before.resolved_cluster_name == r.status.resolved_cluster_name) uses named persisted.1 in
      let arn = (eq_iff before.role_arn r.status.role_arn).0 same_arn in
      let cluster =
        (eq_iff before.resolved_cluster_name r.status.resolved_cluster_name).0 same_cluster in
      (
        record {
          named = subst (λ (x : String). (x == "") ≡ false) (sym arn) named;
          cluster_recorded =
              cluster ∙ (persisted.0.1 ∙ recorded_cluster-ready inputs uses usable.0);
        },
        arn,
      )

  module _
      (delivers : (cluster : NamespacedName) (s : S) (remote : RemoteClient S)
        → IsRecorded before cluster
        → server.get_cluster s cluster ≡ ok remote
        → RemoteKeeps Q remote before.role_arn) where
    deliver_role-Ensures :
        (inputs : Inputs) (r : Role) (s : S)
        → IsDeliverable inputs
        → IsPersisted k server before Q hub inputs r
        → Q s
        → Ensures Q (λ _ _. Unit) (deliver_role k server before inputs r s)
    unfolding deliver_role
    deliver_role-Ensures inputs r s usable persisted q =
        patch_on_failure-Ensures k server before Q hub (λ _ _. Unit) _
          (set_delivery_conditions-Ensures k server before Q hub delivers
            inputs.config.spec.delivery_type inputs.resolved r s usable.1
            (IsPersisted-IsRecorded inputs r usable persisted) q)

    deliver_steps-Ensures :
        (inputs : Inputs) (r : Role) (s : S)
        → IsDeliverable inputs
        → IsPersisted k server before Q hub inputs r
        → Q s
        → Ensures Q (λ _ _. Unit) (deliver_steps k server before inputs r s)
    unfolding deliver_steps
    deliver_steps-Ensures inputs r s usable persisted q =
        after-Ensures Q (λ _ _. Unit) (λ _ _. Unit) _ _
          (deliver_role-Ensures inputs r s usable persisted q)
          λ requeue r1 s1 q1 _.
            after-Ensures Q (λ _ _. Unit) (λ _ _. Unit) _ _
              (mark_hub-Ensures k server before Q hub inputs r1 s1 q1)
              λ _ r2 s2 q2 _. finish-Ensures k server before Q hub inputs requeue r2 s2 q2

    apply_steps-Ensures :
        (inputs : Inputs) (r : Role) (s : S)
        → Q s
        → Ensures Q
            (λ _ r'. IsPersisted k server before Q hub inputs r')
            (apply_steps k server before inputs r s)
    unfolding apply_steps
    apply_steps-Ensures inputs r s q =
        after-Ensures Q (λ _ r'. Delivers inputs r')
          (λ _ r'. IsPersisted k server before Q hub inputs r') _ _
          (record_delivery-Ensures k server before Q hub inputs r s q)
          λ _ r1 s1 q1 d1.
            after-Ensures Q (λ _ r'. Delivers inputs r')
              (λ _ r'. IsPersisted k server before Q hub inputs r') _ _
              (apply_policy-Ensures k server before Q hub inputs r1 s1 q1 d1)
              λ arns r2 s2 q2 d2.
                after-Ensures Q (λ _ r'. Delivers inputs r')
                  (λ _ r'. IsPersisted k server before Q hub inputs r') _ _
                  (apply_role-Ensures k server before Q hub inputs arns r2 s2 q2 d2)
                  λ _ r3 s3 q3 d3. persist_first-Ensures k server before Q hub inputs r3 s3 q3 d3

    reconcile_steps-Ensures :
        (r : Role) (s : S) → Q s → Ensures Q (λ _ _. Unit) (reconcile_steps k server before r s)
    unfolding reconcile_steps
    reconcile_steps-Ensures r s q =
        after-Ensures Q (λ _ _. Unit) (λ _ _. Unit) _ _
          (observe-Ensures k server before Q hub r s q)
          λ _ r1 s1 q1 _.
            after-Ensures Q (λ _ _. Unit) (λ _ _. Unit) _ _
              (conflict_step-Ensures k server before Q hub r1 s1 q1)
              λ _ r2 s2 q2 _.
                after-Ensures Q (λ inputs _. IsDeliverable inputs) (λ _ _. Unit) _ _
                  (prepare_role_inputs-Ensures k server before Q hub r2 s2 q2)
                  λ inputs r3 s3 q3 usable.
                    after-Ensures Q (λ _ r'. IsPersisted k server before Q hub inputs r')
                      (λ _ _. Unit) _ _ (apply_steps-Ensures inputs r3 s3 q3)
                      λ _ r4 s4 q4 persisted. deliver_steps-Ensures inputs r4 s4 usable persisted q4

Ensures-state :
    {S A : Type 0} (Q : S → Type 0) (x : Reached S A) → Ensures Q (λ _ _. Unit) x → Q x.2
unfolding Ensures
Ensures-state Q (continue a, r, s) h = h.0
Ensures-state Q (stop t, r, s) h = h
Ensures-state Q (fail e, r, s) h = h

module _ (k : StatusConditions) {S : Type 0} (server : RoleServer S) (role : Role) (Q : S → Type 0)
    (hub : HubKeeps server Q)
    (delivers : (cluster : NamespacedName) (s : S) (remote : RemoteClient S)
      → IsRecorded role.status cluster
      → server.get_cluster s cluster ≡ ok remote
      → RemoteKeeps Q remote role.status.role_arn) where
  -- A reconcile of a role writes to remote clusters only the annotations for the ARN that the status it
  -- starts from records already, and only on the cluster that this status records: a fact that no write
  -- of the hub changes and no such delivery changes holds after the reconcile, however it ends.
  pub reconcile_normal-keeps : (s : S) → Q s → Q (reconcile_normal k server role s).2
  unfolding reconcile_normal
  reconcile_normal-keeps s q =
      Ensures-state Q _ (reconcile_steps-Ensures k server role.status Q hub delivers role s q)
