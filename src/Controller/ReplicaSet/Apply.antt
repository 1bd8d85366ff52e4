-- ===== src/Controller/ReplicaSet/Apply.antt =====
-- applyReplicaSetCluster, pruneReplicaSetChildren and listOwnedReplicaSetChildren.
pub mod Safety
pub mod Pruning
use aws_workload_identity_op.Prelude.{
  ℕ, suc, String, Bool, true, false, not, if◌then◌else◌, Option, none, some, List, [], ◌∷◌, ◌++◌,
  cat, select, quote, ◌+◌,
}
use aws_workload_identity_op.Api.Reasons
use aws_workload_identity_op.Api.Errors.{Failure, Result, ok, err, wrap, ◌>>=◌, wrap_result}
use aws_workload_identity_op.Api.Types.{Role, NamespacedName, name_text, object_key}
use aws_workload_identity_op.Controller.ReplicaSet.Types
use aws_workload_identity_op.Controller.ReplicaSet.Types.{
  ClusterSummary, ClusterPhase, ReplicaSet, pending,
}
use aws_workload_identity_op.Controller.ReplicaSet.Template.{
  ChildTemplate, drifts, same_service_account_subject, owns_child, materialize, apply_template,
}
use aws_workload_identity_op.Controller.ReplicaSet.Server.{Server, Names, has}
use aws_workload_identity_op.Controller.ReplicaSet.Rollout.{message_waiting_for_child_readiness}
use aws_workload_identity_op.Controller.ReplicaSet.Cluster.{is_pending}

-- The summary and the error that applying one cluster returns; `none` is a nil error.
pub record Applied : Type 0 where
  pub summary : ClusterSummary
  pub error : Option Failure

abbrev pub done : ClusterSummary → Applied
done summary = record { summary = summary; error = none }

-- The errors that errors.Join adds.
abbrev pub errors_of_apply : Applied → List Failure
errors_of_apply applied = elim applied.error [ none ↦ [] | some e ↦ e ∷ [] ]

-- client.IgnoreNotFound
abbrev pub ignore_not_found : Result (Unit {0}) → Option Failure
ignore_not_found (ok _) = none
ignore_not_found (err e) = if e.not_found then none else some e

failed_apply : ClusterSummary → String → String → Failure → Applied
failed_apply summary verb prefix e = record {
  summary = record summary {
    phase = Types.failed;
    reason = Reasons.child_apply_failed;
    message = cat (verb ∷ ": " ∷ e.text ∷ []);
  };
  error = some (wrap prefix e);
}

waiting : ClusterSummary → ClusterSummary
waiting plan = record plan {
  reason = Reasons.children_pending;
  message = message_waiting_for_child_readiness;
}

immutable_drift : ClusterSummary → ClusterSummary
immutable_drift summary = record summary {
  reason = Reasons.immutable_child_drift;
  message = "waiting for stale child role with immutable serviceAccount drift to be deleted";
}

after_create : String → ClusterSummary → Result (Unit {0}) → Applied
unfolding failed_apply
after_create key summary (ok _) = done summary
after_create key summary (err e) =
    if e.already_exists
    then done (record summary {
      message = "AWSServiceAccountRole child exists but is not yet observed by the cache";
    })
    else failed_apply summary "create child role" (cat ("create AWSServiceAccountRole " ∷ key ∷ []))
        e

after_delete : String → ClusterSummary → Option Failure → Applied
unfolding failed_apply immutable_drift
after_delete key summary none = done (immutable_drift summary)
after_delete key summary (some e) =
    failed_apply summary "delete stale immutable child role"
      (cat ("delete stale AWSServiceAccountRole " ∷ key ∷ [])) e

after_patch : String → ClusterSummary → Result (Unit {0}) → Applied
unfolding failed_apply
after_patch key summary (ok _) = done summary
after_patch key summary (err e) =
    failed_apply summary "patch child role" (cat ("patch AWSServiceAccountRole " ∷ key ∷ [])) e

key_text : ReplicaSet → String → String
key_text rs cluster_name = name_text (record { namespace = cluster_name; name = rs.meta.name })

module _ {S : Type 0} (server : Server S) (rs : ReplicaSet) (template : ChildTemplate) where
  apply_to_child : S → String → ClusterSummary → Role → Applied × S
  unfolding after_delete after_patch key_text immutable_drift
  apply_to_child s cluster_name summary child =
      if not
        (same_service_account_subject child.spec.service_account rs.template_spec.service_account)
      then (if not child.meta.deleting
          then (let (answer, s') = server.delete_role child s in
              (after_delete (key_text rs cluster_name) summary (ignore_not_found answer), s'))
          else (done (immutable_drift summary), s))
      else if drifts server.semantic template child
      then (let (answer, s') = server.patch_role child (apply_template template child) s in
          (after_patch (key_text rs cluster_name) summary answer, s'))
      else (done summary, s)

  apply_pending : S → String → ClusterSummary → Option Role → Applied × S
  unfolding apply_to_child after_create key_text
  apply_pending s cluster_name summary none =
      let (answer, s') = server.create_role (materialize template cluster_name) s in
      (after_create (key_text rs cluster_name) summary answer, s')
  apply_pending s cluster_name summary (some child) = apply_to_child s cluster_name summary child

  -- applyReplicaSetCluster
  unfoldable pub apply_cluster : S → String → ClusterSummary → Option Role → Applied × S
  unfolding apply_pending is_pending waiting
  apply_cluster s cluster_name plan child =
      if not (is_pending plan.phase)
      then (done plan, s)
      else apply_pending s cluster_name (waiting plan) child

module _ {S : Type 0} (server : Server S) where
  unfoldable pub prune_child : Role → Names → S → (ℕ × List Failure) × S
  prune_child child selected s =
      if has child.meta.namespace selected
      then ((0, []), s)
      else if child.meta.deleting
      then ((1, []), s)
      else let (answer, s') = server.delete_role child s in
        (
          elim (ignore_not_found answer) [
            | none ↦ (1, [])
            | some e ↦ (
              0,
              wrap
                    (cat (
                      "delete stale AWSServiceAccountRole "
                      ∷ name_text (object_key child.meta)
                      ∷ []))
                    e
                  ∷ [],
            )
          ],
          s',
        )

  -- pruneReplicaSetChildren: the number pruned, and the errors that it joins.
  unfoldable pub prune_children : List Role → Names → S → (ℕ × List Failure) × S
  unfolding prune_child
  prune_children [] selected s = ((0, []), s)
  prune_children (child ∷ children) selected s =
      let (here, s') = prune_child child selected s in
      let (later, s'') = prune_children children selected s' in
      ((here.0 + later.0, here.1 ++ later.1), s'')

-- listOwnedReplicaSetChildren
unfoldable pub list_owned_children : {S : Type 0} → Server S → S → ReplicaSet → Result (List Role)
unfolding owns_child
list_owned_children server s rs =
    wrap_result
      (cat (
        "list AWSServiceAccountRoles by ReplicaSet owner-ref "
        ∷ quote (name_text (object_key rs.meta))
        ∷ []))
      (server.list_by_owner_ref s (object_key rs.meta))
    >>= λ items. ok (select (owns_child rs) items)
