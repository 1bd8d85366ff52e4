-- ===== src/Controller/ReplicaSet/Delete.antt =====
-- reconcileReplicaSetDelete and Reconcile.
pub mod Finalization
use aws_workload_identity_op.Prelude.{
  ℕ, ◌+◌, String, Bool, not, if◌then◌else◌, ltb, Option, none, some, List, [], ◌∷◌, cat, decimal,
  length,
}
use aws_workload_identity_op.Api.Conditions.{Condition, StatusConditions, status_true, status_false}
use aws_workload_identity_op.Api.ConditionTypes
use aws_workload_identity_op.Api.Constants
use aws_workload_identity_op.Api.Reasons
use aws_workload_identity_op.Api.Errors.{Failure, Result, ok, err, wrap}
use aws_workload_identity_op.Api.Types.{Role, ObjectMeta, NamespacedName, name_text, object_key}
use aws_workload_identity_op.Controller.Common.{set_condition, transient_requeue}
use aws_workload_identity_op.Controller.Common.Finalizers.{ensure_finalizer, remove_finalizer}
use aws_workload_identity_op.Controller.ReplicaSet.Types.{ReplicaSet, ReplicaSetStatus}
use aws_workload_identity_op.Controller.ReplicaSet.Server.{Server}
use aws_workload_identity_op.Controller.ReplicaSet.Apply.{ignore_not_found, list_owned_children}
use aws_workload_identity_op.Controller.ReplicaSet.Reconcile.{
  Outcome, requeue, failed, outcome_of, patch_replica_set_status, reconcile_normal, with_status,
}

module _ (k : StatusConditions) {S : Type 0} (server : Server S) where
  -- An error of one deletion ends the loop.
  keep_going : Role → S → Option Failure → Option Failure × S → Option Failure × S
  keep_going child s none rest = rest
  keep_going child s (some e) rest = (
    some (wrap (cat ("delete AWSServiceAccountRole " ∷ name_text (object_key child.meta) ∷ [])) e),
    s,
  )

  -- The loop over the children: the first error ends it.
  delete_children : List Role → S → Option Failure × S
  unfolding keep_going
  delete_children [] s = (none, s)
  delete_children (child ∷ children) s =
      let skipped = delete_children children s in
      let (answer, s') = server.delete_role child s in
      let rest = delete_children children s' in
      if child.meta.deleting then skipped else keep_going child s' (ignore_not_found answer) rest

  blocked : ReplicaSet → String → String → ReplicaSet
  unfolding set_condition
  blocked rs reason message =
      let first =
        set_condition k rs.status.conditions rs.meta.generation ConditionTypes.cleanup_blocked
          status_true reason message in
      with_status rs (record rs.status {
        observed_generation = rs.meta.generation;
        conditions =
            set_condition k first rs.meta.generation ConditionTypes.ready status_false reason
              message;
      })

  unblocked : ReplicaSet → ReplicaSet
  unfolding set_condition
  unblocked rs = with_status rs (record rs.status {
    observed_generation = rs.meta.generation;
    conditions =
        set_condition k rs.status.conditions rs.meta.generation ConditionTypes.cleanup_blocked
          status_false Reasons.deletion_unblocked
          "all generated AWSServiceAccountRole children have been deleted";
  })

  patch_meta : ReplicaSet → ObjectMeta → S → Result (Unit {0}) × S
  patch_meta rs m s = server.patch_finalizers (record rs { meta = m }) s

  release : ReplicaSet → Result (Unit {0}) → S → Outcome × S
  unfolding remove_finalizer patch_meta
  release rs (ok _) s =
      let (answer, s') =
        remove_finalizer server.finalizer_lists (patch_meta rs) rs.meta
          Constants.service_account_role_replica_set_finalizer s in
      (outcome_of 0 answer, s')
  release rs (err e) s = (failed (e ∷ []), s)

  -- No child is left.
  finish_delete : ReplicaSet → S → Outcome × S
  unfolding release unblocked patch_replica_set_status
  finish_delete rs s =
      if k.is_true rs.status.conditions ConditionTypes.cleanup_blocked
      then (let (answer, s') = patch_replica_set_status k server (unblocked rs) rs.status s in
          release (unblocked rs) answer s')
      else release rs (ok tt) s

  wait_for_children : ReplicaSet → ℕ → S → Outcome × S
  unfolding blocked patch_replica_set_status
  wait_for_children rs remaining s =
      let (answer, s') =
        patch_replica_set_status k server
          (blocked rs Reasons.deletion_blocked (
            cat (
              "waiting for "
              ∷ decimal remaining
              ∷ " generated AWSServiceAccountRole children to be deleted"
              ∷ [])))
          rs.status s in
      (outcome_of transient_requeue answer, s')

  after_deletes : ReplicaSet → ℕ → Option Failure × S → Outcome × S
  unfolding blocked patch_replica_set_status wait_for_children finish_delete
  after_deletes rs remaining (some e, s) =
      let (answer, s') =
        patch_replica_set_status k server (blocked rs Reasons.child_apply_failed e.text) rs.status
          s in
      (failed (e ∷ []), s')
  after_deletes rs remaining (none, s) =
      if ltb 0 remaining then wait_for_children rs remaining s else finish_delete rs s

  with_listed : ReplicaSet → S → Result (List Role) → Outcome × S
  unfolding delete_children after_deletes
  with_listed rs s (ok children) = after_deletes rs (length children) (delete_children children s)
  with_listed rs s (err e) = (failed (e ∷ []), s)

  -- reconcileReplicaSetDelete
  unfoldable pub reconcile_delete : ReplicaSet → S → Outcome × S
  unfolding with_listed list_owned_children
  reconcile_delete rs s = with_listed rs s (list_owned_children server s rs)

  after_finalizer : ReplicaSet → Result Bool × S → Outcome × S
  unfolding reconcile_delete reconcile_normal
  after_finalizer rs (err e, s) = (failed (e ∷ []), s)
  after_finalizer rs (ok added, s) =
      if added
      then (requeue 0, s)
      else if rs.meta.deleting
      then reconcile_delete rs s
      else reconcile_normal k server rs s

  -- Reconcile, once the ReplicaSet has been read.
  unfoldable pub reconcile : ReplicaSet → S → Outcome × S
  unfolding after_finalizer ensure_finalizer patch_meta
  reconcile rs s = after_finalizer rs (
      ensure_finalizer server.finalizer_lists (patch_meta rs) rs.meta
        Constants.service_account_role_replica_set_finalizer s)
