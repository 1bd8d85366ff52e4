-- ===== src/Controller/Role/Finalize.antt =====
-- reconcileDelete of a role, with the DeletionBlocked condition. An error that is logged only is dropped.
pub mod Guard
use aws_workload_identity_op.Prelude.{
  ℕ, String, ◌==◌, Bool, true, false, not, if◌then◌else◌, Option, none, some, List, [], ◌∷◌, ◌++◌,
  cat, join,
}
use aws_workload_identity_op.Api.ConditionTypes
use aws_workload_identity_op.Api.Reasons
use aws_workload_identity_op.Api.Constants
use aws_workload_identity_op.Api.Conditions.{
  StatusConditions, status_true, status_false, ConditionStatus,
}
use aws_workload_identity_op.Api.Errors.{Failure, failure, Result, ok, err}
use aws_workload_identity_op.Api.Types.{Role, RoleStatus, ObjectMeta, NamespacedName, name_text}
use aws_workload_identity_op.Controller.Common.{set_condition}
use aws_workload_identity_op.Controller.Common.Finalizers.{remove_finalizer}
use aws_workload_identity_op.Aws.Names.{role_name, policy_name, pod_identity_association_name}
use aws_workload_identity_op.Controller.Role.Server.{
  ChildKind, pod_identity_association, iam_role, iam_policy, RoleServer,
}
use aws_workload_identity_op.Controller.Role.Delete.{kind_text, delete_child_if_owned}
use aws_workload_identity_op.Controller.Role.Cleanup.{clean_up_annotations}

-- The loop over the children: the first error ends it, with the texts of those still present.
pub record Deletions (S : Type 0) : Type 0 where
  pub pending : List String
  pub error : Option Failure
  pub server_state : S

module _ (k : StatusConditions) {S : Type 0} (server : RoleServer S) where
  -- patchRoleStatus
  unfoldable pub patch_role_status : Role → RoleStatus → S → Result (Unit {0}) × S
  patch_role_status role before s =
      if server.statuses_equal before role.status then (ok tt, s) else server.patch_status role s

  with_blocked : Role → ConditionStatus → String → String → Role
  unfolding set_condition
  with_blocked role status reason message = record role {
    status = record role.status {
      observed_generation = role.meta.generation;
      conditions =
          set_condition k role.status.conditions role.meta.generation
            ConditionTypes.deletion_blocked status reason message;
    };
  }

  -- markRoleDeletionBlocked
  unfoldable pub mark_deletion_blocked : Role → String → String → S → Result (Unit {0}) × S
  unfolding patch_role_status with_blocked
  mark_deletion_blocked role reason message s =
      patch_role_status (with_blocked role status_true reason message) role.status s

  -- clearRoleDeletionBlocked: the role that is left and the answer.
  unfoldable pub clear_deletion_blocked : Role → S → Role × (Result (Unit {0}) × S)
  unfolding patch_role_status with_blocked
  clear_deletion_blocked role s =
      let cleared =
        with_blocked role status_false Reasons.deletion_unblocked "deletion is no longer blocked" in
      if not (k.is_true role.status.conditions ConditionTypes.deletion_blocked)
      then (role, (ok tt, s))
      else (cleared, patch_role_status cleared role.status s)

  -- The children in the order of their deletion.
  unfoldable pub children_of : Role → List (ChildKind × NamespacedName)
  unfolding pod_identity_association_name role_name policy_name
  children_of role =
      (
        pod_identity_association,
        record { namespace = role.meta.namespace; name = pod_identity_association_name role },
      )
      ∷ (iam_role, record { namespace = role.meta.namespace; name = role_name server.digest role })
      ∷ (
        iam_policy,
        record { namespace = role.meta.namespace; name = policy_name server.digest role },
      )
      ∷ []

  pending_text : ChildKind → NamespacedName → Bool → List String
  pending_text kind key true = cat (kind_text kind ∷ " " ∷ name_text key ∷ []) ∷ []
  pending_text kind key false = []

  prepend : List String → Deletions S → Deletions S
  prepend texts d = record d { pending = texts ++ d.pending }

  after_child : ChildKind → NamespacedName → S → Result Bool → Deletions S → Deletions S
  unfolding pending_text prepend
  after_child kind key s (err e) rest = record { pending = []; error = some e; server_state = s }
  after_child kind key s (ok present) rest = prepend (pending_text kind key present) rest

  unfoldable pub delete_children : Role → List (ChildKind × NamespacedName) → S → Deletions S
  unfolding after_child delete_child_if_owned
  delete_children role [] s = record { pending = []; error = none; server_state = s }
  delete_children role ((kind, key) ∷ rest) s =
      let (answer, s') = delete_child_if_owned server role kind key s in
      let later = delete_children role rest s' in after_child kind key s' answer later

  -- The result of reconcileDelete: `none` is a nil error.
  error_of : Result (Unit {0}) → Option Failure
  error_of (ok _) = none
  error_of (err e) = some e

  patch_meta : Role → ObjectMeta → S → Result (Unit {0}) × S
  patch_meta role m s = server.patch_finalizers (record role { meta = m }) s

  release : Role × (Result (Unit {0}) × S) → Option Failure × S
  unfolding remove_finalizer patch_meta error_of
  release (role, (err e, s)) = (some e, s)
  release (role, (ok _, s)) =
      let (answer, s') =
        remove_finalizer server.finalizer_lists (patch_meta role) role.meta
          Constants.service_account_role_finalizer s in
      (error_of answer, s')

  after_deletions : Role → List String → Option Failure → S → Option Failure × S
  unfolding mark_deletion_blocked clear_deletion_blocked release
  after_deletions role pending (some e) s =
      (some e, (mark_deletion_blocked role Reasons.child_apply_failed e.text s).1)
  after_deletions role [] none s = release (clear_deletion_blocked role s)
  after_deletions role (p ∷ ps) none s =
      let message =
        cat ("waiting for ACK child resources to finish deletion: " ∷ join ", " (p ∷ ps) ∷ []) in
      (some (failure message), (mark_deletion_blocked role Reasons.children_pending message s).1)

  after_clean_up : Role → Result (Unit {0}) × S → Option Failure × S
  unfolding mark_deletion_blocked delete_children children_of after_deletions
  after_clean_up role (err e, s) =
      (some e, (mark_deletion_blocked role Reasons.remote_cluster_unavailable e.text s).1)
  after_clean_up role (ok _, s) =
      let d = delete_children role (children_of role) s in
      after_deletions role d.pending d.error d.server_state

  -- reconcileDelete
  unfoldable pub reconcile_delete : Role → S → Option Failure × S
  unfolding after_clean_up clean_up_annotations
  reconcile_delete role s = after_clean_up role (clean_up_annotations server role s)
