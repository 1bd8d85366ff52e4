-- ===== src/Controller/ReplicaSet/Template/Ownership.antt =====
-- A child built from the template is owned by its ReplicaSet, and by no other.
use text.Mathlib.TextPositions.{eq_refl}
use aws_workload_identity_op.Prelude.{◌≡◌, ◌==◌, ◌&&◌, eq_iff, Bool, true, arith, ◌↔◌}
use aws_workload_identity_op.Prelude.Maps.{lookup-insert}
use aws_workload_identity_op.Api.Types.{Role, object_key, name_text}
use aws_workload_identity_op.Controller.ReplicaSet.Types.{ReplicaSet}
use aws_workload_identity_op.Controller.ReplicaSet.Template.{
  new_child_template, apply_template, owns_child, drifts, same_service_account_subject, Semantic,
  false,
}

abbrev pub same_owner : ReplicaSet → ReplicaSet → Bool
same_owner rs other =
    (rs.meta.uid == other.meta.uid)
    && (name_text (object_key rs.meta) == name_text (object_key other.meta))

owns_child-template :
    (rs other : ReplicaSet) (child : Role)
    → owns_child other (apply_template (new_child_template rs) child) ≡ same_owner rs other
unfolding owns_child apply_template new_child_template
owns_child-template rs other child = simp lookup-insert (ground arith)

-- Whatever labels and annotations the user's template sets, the child that is created or patched
-- from it is one that the ReplicaSet owns; another ReplicaSet owns it only if it has the same UID and
-- the same namespaced name.
pub owns_child-apply_template :
    (rs other : ReplicaSet) (child : Role)
    → (owns_child rs (apply_template (new_child_template rs) child) ≡ true)
      × ((owns_child other (apply_template (new_child_template rs) child) ≡ true)
          ↔ (rs.meta.uid ≡ other.meta.uid)
            × (name_text (object_key rs.meta) ≡ name_text (object_key other.meta)))
owns_child-apply_template rs other child = simp owns_child-template (
  simp eq_refl,
  (
    λ e. (
      (eq_iff rs.meta.uid other.meta.uid).0 (ground arith),
      (eq_iff (name_text (object_key rs.meta)) (name_text (object_key other.meta))).0
          (ground arith),
    ),
    λ (p, q). rw (p, q) (simp eq_refl),
  ),
)

-- A child that was created or patched from the template does not drift from it, so the next
-- reconcile neither patches nor replaces it.
pub drifts-apply_template :
    (q : Semantic) (rs : ReplicaSet) (child : Role)
    → (drifts q (new_child_template rs) (apply_template (new_child_template rs) child) ≡ false)
      × (same_service_account_subject
            (apply_template (new_child_template rs) child).spec.service_account
            rs.template_spec.service_account
          ≡ true)
unfolding drifts apply_template new_child_template same_service_account_subject
drifts-apply_template q rs child = (simp (q.maps_equal_refl, q.specs_equal_refl), simp eq_refl)
