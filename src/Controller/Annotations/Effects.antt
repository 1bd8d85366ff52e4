-- ===== src/Controller/Annotations/Effects.antt =====
-- What patching and removing the annotations does to a service account.
use text.Mathlib.TextEquality.{eq_iff}
use aws_workload_identity_op.Prelude.{
  ◌↔◌, ◌≡◌, String, ◌==◌, Bool-cases, inl, inr, ◌⊎◌, eq_refl, true, false, some, arith, List, [],
  ◌∷◌, refl, any, none, if◌then◌else◌,
}
use aws_workload_identity_op.Prelude.Maps.{
  Map, lookup, lookup_text, remove, copy_into, lookup-remove, lookup-insert,
}
use aws_workload_identity_op.Api.Errors.{Result, ok, err}
use aws_workload_identity_op.Api.Types.{ServiceAccountSubject}
use aws_workload_identity_op.RemoteIrsa.Options.{sts_audience}
use aws_workload_identity_op.Controller.Annotations.{
  remove_keys, changed, RemoteClient, patch_object_annotations, render_annotations, ServiceAccount,
  remove_annotations, remove_found, role_arn_annotation, result_none, annotation_keys,
  token_expiration_annotation, patched, regional_sts_annotation, audience_annotation,
}

lookup-remove_keys :
    (keys : List String) (m : Map String) (key : String)
    → lookup key (remove_keys keys m) ≡ (if any (λ k. k == key) keys then none else lookup key m)
unfolding remove_keys
lookup-remove_keys [] m key = refl
lookup-remove_keys (k ∷ ks) m key =
    ground (arith, lookup-remove_keys ks (remove k m) key, lookup-remove k key m)

lookup-rendered :
    (m : Map String) (arn key : String)
    → (arn == "") ≡ false
    → lookup key (copy_into m (render_annotations arn)) ≡ (
        if token_expiration_annotation == key
        then some "86400"
        else if regional_sts_annotation == key
        then some "true"
        else if audience_annotation == key
        then some sts_audience
        else if role_arn_annotation == key
        then some arn
        else lookup key m)
unfolding copy_into render_annotations
lookup-rendered m arn key h = simp (h, lookup-insert) refl

changed-rendered :
    (m : Map String) (arn : String)
    → changed (copy_into m (render_annotations arn)) (render_annotations arn) ≡ false
unfolding changed lookup_text render_annotations copy_into
changed-rendered m arn = elim (Bool-cases (arn == "")) [
  | inl empty ↦ simp empty refl
  | inr named ↦ simp (named, lookup-insert, eq_refl) refl
]

-- The annotations already say what is rendered for the ARN.
abbrev pub Carries : String → Map String → Type 0
Carries arn m =
    (lookup_text role_arn_annotation m ≡ arn)
    × (lookup_text audience_annotation m ≡ sts_audience)
    × (lookup_text regional_sts_annotation m ≡ "true")
    × (lookup_text token_expiration_annotation m ≡ "86400")

changed-Carries :
    (arn : String) (m : Map String)
    → (arn == "") ≡ false
    → (changed m (render_annotations arn) ≡ false) ↔ Carries arn m
unfolding changed render_annotations
changed-Carries arn m named = simp named (
    ground (
      arith,
      eq_iff (lookup_text role_arn_annotation m) arn,
      eq_iff (lookup_text audience_annotation m) sts_audience,
      eq_iff (lookup_text regional_sts_annotation m) "true",
      eq_iff (lookup_text token_expiration_annotation m) "86400",
    ))

module _ {S : Type 0} (remote : RemoteClient S) where
  patched-state :
      (sa : ServiceAccount) (answer : Result (Unit {0}) × S)
      → (patched remote sa answer).1 ≡ answer.1
  unfolding patched
  patched-state sa (ok _, t) = refl
  patched-state sa (err e, t) = refl

  -- What is written for a service account and an ARN.
  pub record IsPatched (arn : String) (sa written : ServiceAccount) : Type 0 where
    pub same_namespace : written.namespace ≡ sa.namespace
    pub same_name : written.name ≡ sa.name
    pub left :
        (key : String)
        → lookup key written.annotations ≡ (
            if token_expiration_annotation == key
            then some "86400"
            else if regional_sts_annotation == key
            then some "true"
            else if audience_annotation == key
            then some sts_audience
            else if role_arn_annotation == key
            then some arn
            else lookup key sa.annotations)
    pub again : (t : S) → patch_object_annotations remote written arn t ≡ (ok result_none, t)

  written-IsPatched :
      (arn : String) (sa : ServiceAccount)
      → (arn == "") ≡ false
      → IsPatched arn sa
          (record sa { annotations = copy_into sa.annotations (render_annotations arn) })
  unfolding patch_object_annotations
  written-IsPatched arn sa named = record {
    same_namespace = refl;
    same_name = refl;
    left = λ key. lookup-rendered sa.annotations arn key named;
    again = λ t. simp (changed-rendered sa.annotations arn) refl;
  }

  -- For an ARN, a service account that carries the four annotations of the webhook is not written. Any
  -- other is written once: with the four annotations and every other one as before, so that patching
  -- what was written does nothing.
  pub patch_object_annotations-rendered :
      (sa : ServiceAccount) (arn : String) (s : S)
      → (arn == "") ≡ false
      → (let (answer, s') = patch_object_annotations remote sa arn s in
          Carries arn sa.annotations × (answer ≡ ok result_none) × (s' ≡ s)
          ⊎ ((Carries arn sa.annotations → ⊥)
              × ((written : ServiceAccount) × IsPatched arn sa written
                  × (s' ≡ (remote.patch_service_account written s).1))))
  unfolding patch_object_annotations
  patch_object_annotations-rendered sa arn s named =
      elim (Bool-cases (changed sa.annotations (render_annotations arn))) [
        | inl differs ↦ simp differs (
            inr (
              λ carries.
                  ground (arith, (changed-Carries arn sa.annotations named).1 carries, differs),
              (
                record sa { annotations = copy_into sa.annotations (render_annotations arn) },
                written-IsPatched arn sa named,
                patched-state sa _,
              ),
            ))
        | inr same ↦ simp same (inl ((changed-Carries arn sa.annotations named).0 same, refl, refl))
      ]

module _ {S : Type 0} (remote : RemoteClient S) (subject : ServiceAccountSubject) (arn key : String)
    (s : S) where
  -- The write of a removal: the service account that was read has the role ARN, and the one that is
  -- written has none of the four annotations and every other one as before.
  pub record IsRemoval (sa written : ServiceAccount) (s' : S) : Type 0 where
    pub read :
        remote.get_service_account s (record { namespace = subject.namespace; name = subject.name })
        ≡ ok sa
    pub same_arn : (lookup_text role_arn_annotation sa.annotations == arn) ≡ true
    pub wrote : s' ≡ (remote.patch_service_account written s).1
    pub left :
        lookup key written.annotations
        ≡ (if any (λ k. k == key) annotation_keys then none else lookup key sa.annotations)

  remove_found-IsRemoval :
      (answer : Result ServiceAccount)
      → remote.get_service_account s (record { namespace = subject.namespace; name = subject.name })
        ≡ answer
      → (let s' = (remove_found remote subject arn s answer).1 in
          (s' ≡ s) ⊎ ((sa : ServiceAccount) × (written : ServiceAccount) × IsRemoval sa written s'))
  unfolding remove_found
  remove_found-IsRemoval (err e) h = ground arith
  remove_found-IsRemoval (ok sa) h =
      elim (Bool-cases (lookup_text role_arn_annotation sa.annotations == arn)) [
        | inl same ↦ simp same (
            inr (
              sa,
              record sa { annotations = remove_keys annotation_keys sa.annotations },
              record {
                read = h;
                same_arn = same;
                wrote = patched-state remote sa _;
                left = lookup-remove_keys annotation_keys sa.annotations key;
              },
            ))
        | inr differs ↦ simp differs (inl refl)
      ]

  pub remove_annotations-IsRemoval :
      (let s' = (remove_annotations remote subject arn s).1 in
        (s' ≡ s) ⊎ ((sa : ServiceAccount) × (written : ServiceAccount) × IsRemoval sa written s'))
  unfolding remove_annotations
  remove_annotations-IsRemoval = elim (Bool-cases (arn == "")) [
    | inl empty ↦ simp empty (inl refl)
    | inr named ↦ simp named (remove_found-IsRemoval _ refl)
  ]
