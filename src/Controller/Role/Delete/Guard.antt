-- ===== src/Controller/Role/Delete/Guard.antt =====
-- The deletion of a role's child deletes only what the role controls.
use aws_workload_identity_op.Prelude.{◌≡◌, true, refl, Bool-cases, inl, inr}
use aws_workload_identity_op.Api.Errors.{Result, ok, err}
use aws_workload_identity_op.Api.Types.{Role, NamespacedName}
use aws_workload_identity_op.Controller.Role.Server.{ChildKind, AckChild, RoleServer}
use aws_workload_identity_op.Controller.Role.Delete.{
  delete_child_if_owned, delete_found, after_child_delete, recheck, is_child_owned_by,
}

module _ {S : Type 0} (server : RoleServer S) (role : Role) (P : S → Type 0)
    (delete_keeps : (child : AckChild) (s : S)
      → is_child_owned_by role child ≡ true
      → P s
      → P (server.delete_child child s).1) where
  recheck-state :
      (s : S) (kind : ChildKind) (key : NamespacedName) (answer : Result AckChild)
      → (recheck server s kind key answer).1 ≡ s
  unfolding recheck
  recheck-state s kind key (ok child) = refl
  recheck-state s kind key (err e) = refl

  after_child_delete-keeps :
      (kind : ChildKind) (key : NamespacedName) (answer : Result (Unit {0})) (s : S)
      → P s
      → P (after_child_delete server kind key (answer, s)).1
  unfolding after_child_delete
  after_child_delete-keeps kind key (ok _) s p = rw recheck-state p
  after_child_delete-keeps kind key (err e) s p = elim (Bool-cases e.not_found) [
    | inl gone ↦ simp gone p
    | inr fails ↦ simp fails p
  ]

  delete_found-keeps :
      (s : S) (kind : ChildKind) (key : NamespacedName) (answer : Result AckChild)
      → P s
      → P (delete_found server role s kind key answer).1
  unfolding delete_found
  delete_found-keeps s kind key (err e) p = p
  delete_found-keeps s kind key (ok child) p = elim (Bool-cases (is_child_owned_by role child)) [
    | inl owned ↦ simp owned (
        after_child_delete-keeps kind key (server.delete_child child s).0
          (server.delete_child child s).1 (delete_keeps child s owned p))
    | inr foreign ↦ simp foreign p
  ]

  -- Deleting a child by its generated name deletes only a child that the role controls: what survives
  -- the deletion of such children survives the call.
  pub delete_child_if_owned-keeps :
      (kind : ChildKind) (key : NamespacedName) (s : S)
      → P s
      → P (delete_child_if_owned server role kind key s).1
  unfolding delete_child_if_owned
  delete_child_if_owned-keeps kind key s p = delete_found-keeps s kind key _ p
