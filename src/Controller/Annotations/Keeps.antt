-- ===== src/Controller/Annotations/Keeps.antt =====
-- Which facts of the server's state the delivery of annotations keeps.
use aws_workload_identity_op.Prelude.{◌==◌, String, Bool-cases, inl, inr}
use aws_workload_identity_op.Prelude.Maps.{copy_into}
use aws_workload_identity_op.Api.Errors.{Result, ok, err}
use aws_workload_identity_op.Api.Types.{ServiceAccountSubject}
use aws_workload_identity_op.Controller.Annotations.{
  RemoteClient, ServiceAccount, patched, patch_object_annotations, patch_found, patch_annotations,
  render_annotations, changed,
}

-- A write of the annotations for an ARN, and of nothing else, keeps a fact.
abbrev pub RemoteKeeps : {S : Type 0} → (S → Type 0) → RemoteClient S → String → Type 0
RemoteKeeps Q remote arn =
    (sa : ServiceAccount) (s : _)
    → Q s
    → Q
        (remote.patch_service_account
          (record sa { annotations = copy_into sa.annotations (render_annotations arn) }) s).1

module _ {S : Type 0} (Q : S → Type 0) (remote : RemoteClient S) (arn : String)
    (keeps : RemoteKeeps Q remote arn) where
  patched-keeps :
      (sa : ServiceAccount) (answer : Result (Unit {0})) (s : S)
      → Q s
      → Q (patched remote sa (answer, s)).1
  unfolding patched
  patched-keeps sa (ok _) s q = q
  patched-keeps sa (err e) s q = q

  patch_object_annotations-keeps :
      (sa : ServiceAccount) (s : S) → Q s → Q (patch_object_annotations remote sa arn s).1
  unfolding patch_object_annotations
  patch_object_annotations-keeps sa s q =
      elim (Bool-cases (changed sa.annotations (render_annotations arn))) [
        | inl differs ↦ simp differs (patched-keeps sa _ _ (keeps sa s q))
        | inr same ↦ simp same q
      ]

  patch_found-keeps :
      (subject : ServiceAccountSubject) (answer : Result ServiceAccount) (s : S)
      → Q s
      → Q (patch_found remote subject arn s answer).1
  unfolding patch_found
  patch_found-keeps subject (ok sa) s q = patch_object_annotations-keeps sa s q
  patch_found-keeps subject (err e) s q = q

  pub patch_annotations-keeps :
      (subject : ServiceAccountSubject) (s : S) → Q s → Q (patch_annotations remote subject arn s).1
  unfolding patch_annotations
  patch_annotations-keeps subject s q = elim (Bool-cases (arn == "")) [
    | inl empty ↦ simp empty q
    | inr named ↦ simp named (patch_found-keeps subject _ s q)
  ]
