-- ===== src/Controller/ReplicaSet/Delete/Finalization.antt =====
-- A ReplicaSet keeps its finalizer until no child is left.
use aws_workload_identity_op.Prelude.{
  ℕ, ◌≡◌, true, Option, none, some, List, [], ◌∷◌, All, Bool-cases, inl, inr, arith, length, ◌<◌,
  lt→ltb,
}
use aws_workload_identity_op.Api.Conditions.{StatusConditions}
use aws_workload_identity_op.Api.Errors.{Failure, ok}
use aws_workload_identity_op.Api.Types.{Role}
use aws_workload_identity_op.Controller.ReplicaSet.Types.{ReplicaSet, ReplicaSetStatus}
use aws_workload_identity_op.Controller.ReplicaSet.Template.{owns_child}
use aws_workload_identity_op.Controller.ReplicaSet.Server.{Server}
use aws_workload_identity_op.Controller.ReplicaSet.Apply.{list_owned_children, ignore_not_found}
use aws_workload_identity_op.Controller.ReplicaSet.Apply.Pruning.{list_owned_children-owned}
use aws_workload_identity_op.Controller.ReplicaSet.Reconcile.{patch_replica_set_status}
use aws_workload_identity_op.Controller.ReplicaSet.Delete.{
  keep_going, delete_children, after_deletes, with_listed, reconcile_delete, wait_for_children,
}

module _ (k : StatusConditions) {S : Type 0} (server : Server S) (rs : ReplicaSet) (P : S → Type 0)
    (delete_keeps : (c : Role) (s : S)
      → owns_child rs c ≡ true
      → P s
      → P (server.delete_role c s).1)
    (status_keeps : (r : ReplicaSet) (s : S) → P s → P (server.patch_status r s).1) where
  keep_going-keeps :
      (c : Role) (s : S) (o : Option Failure) (rest : Option Failure × S)
      → P rest.1
      → P s
      → P (keep_going k server c s o rest).1
  unfolding keep_going
  keep_going-keeps c s none rest q p = q
  keep_going-keeps c s (some e) rest q p = p

  delete_children-keeps :
      (children : List Role) (s : S)
      → All (λ c. owns_child rs c ≡ true) children
      → P s
      → P (delete_children k server children s).1
  unfolding delete_children
  delete_children-keeps [] s h p = p
  delete_children-keeps (c ∷ cs) s h p = elim (Bool-cases c.meta.deleting) [
    | inl gone ↦ simp gone (delete_children-keeps cs s h.1 p)
    | inr live ↦ simp live (
        keep_going-keeps c (server.delete_role c s).1 (ignore_not_found (server.delete_role c s).0)
          (delete_children k server cs (server.delete_role c s).1)
          (delete_children-keeps cs (server.delete_role c s).1 h.1 (delete_keeps c s h.0 p))
          (delete_keeps c s h.0 p))
  ]

  patch_replica_set_status-keeps :
      (r : ReplicaSet) (before : ReplicaSetStatus) (s : S)
      → P s
      → P (patch_replica_set_status k server r before s).1
  unfolding patch_replica_set_status
  patch_replica_set_status-keeps r before s p =
      elim (Bool-cases (server.statuses_equal before r.status)) [
        | inl same ↦ simp same p
        | inr differs ↦ simp differs (status_keeps r s p)
      ]

  after_deletes-keeps :
      (remaining : ℕ) (r : Option Failure × S)
      → 0 < remaining
      → P r.1
      → P (after_deletes k server rs remaining r).1
  unfolding after_deletes wait_for_children
  after_deletes-keeps remaining (some e, s) h p = patch_replica_set_status-keeps _ rs.status s p
  after_deletes-keeps remaining (none, s) h p =
      rw (lt→ltb 0 remaining h) (patch_replica_set_status-keeps _ rs.status s p)

  with_listed-keeps :
      (s : S) (c : Role) (cs : List Role)
      → All (λ x. owns_child rs x ≡ true) (c ∷ cs)
      → P s
      → P (with_listed k server rs s (ok (c ∷ cs))).1
  unfolding with_listed
  with_listed-keeps s c cs h p =
      after_deletes-keeps (length (c ∷ cs)) (delete_children k server (c ∷ cs) s) (omega arith)
        (delete_children-keeps (c ∷ cs) s h p)

  -- While the server lists an owned child, even one that is already being deleted, finalization does
  -- nothing but delete owned children and patch the status: what survives these two survives it, so the
  -- finalizer is not removed.
  pub reconcile_delete-keeps :
      (s : S) (c : Role) (cs : List Role)
      → list_owned_children server s rs ≡ ok (c ∷ cs)
      → P s
      → P (reconcile_delete k server rs s).1
  unfolding reconcile_delete
  reconcile_delete-keeps s c cs h p =
      let owned = list_owned_children-owned server s rs (c ∷ cs) h in
      rw (h, reconcile_delete) (with_listed-keeps s c cs owned p)
