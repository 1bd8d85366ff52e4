-- ===== src/Controller/Annotations.antt =====
-- The annotations of remote service accounts: selfhosted_annotations.go, and the functions of
-- selfhosted_serviceaccount_controller.go that patch and remove them.
pub mod Effects
pub mod Keeps
use aws_workload_identity_op.Prelude.{
  ℕ, String, ◌==◌, Bool, true, false, not, ◌&&◌, ◌||◌, if◌then◌else◌, Option, none, some, List, [],
  ◌∷◌, any, cat, decimal,
}
use aws_workload_identity_op.Prelude.Maps.{Map, lookup_text, remove, copy_into}
use aws_workload_identity_op.Api.Errors.{Failure, wrap, Result, ok, err, wrap_result}
use aws_workload_identity_op.Api.Types.{NamespacedName, ServiceAccountSubject}
use aws_workload_identity_op.RemoteIrsa.Options.{sts_audience}

-- controllerutil.OperationResult
pub data OperationResult : Type 0 where
  result_none result_updated : OperationResult

-- What the controllers read and write of a remote ServiceAccount.
pub record ServiceAccount : Type 0 where
  pub namespace : String
  pub name : String
  pub annotations : Map String

-- client.Client of a remote cluster at service accounts.
pub record RemoteClient (S : Type 0) : Type 0 where
  pub get_service_account : S → NamespacedName → Result ServiceAccount
  pub patch_service_account : ServiceAccount → S → Result (Unit {0}) × S

abbrev pub role_arn_annotation : String
role_arn_annotation = "eks.amazonaws.com/role-arn"

abbrev pub audience_annotation : String
audience_annotation = "eks.amazonaws.com/audience"

abbrev pub regional_sts_annotation : String
regional_sts_annotation = "eks.amazonaws.com/sts-regional-endpoints"

abbrev pub token_expiration_annotation : String
token_expiration_annotation = "eks.amazonaws.com/token-expiration"

-- renderSelfHostedServiceAccountAnnotations
unfoldable pub render_annotations : String → Map String
render_annotations role_arn =
    if role_arn == ""
    then []
    else (role_arn_annotation, role_arn)
      ∷ (audience_annotation, sts_audience)
      ∷ (regional_sts_annotation, "true")
      ∷ (token_expiration_annotation, "86400")
      ∷ []

-- selfHostedServiceAccountAnnotationKeys
abbrev pub annotation_keys : List String
annotation_keys =
    role_arn_annotation ∷ audience_annotation ∷ regional_sts_annotation
    ∷ token_expiration_annotation ∷ []

-- Whether some desired annotation differs.
unfoldable pub changed : Map String → Map String → Bool
unfolding lookup_text
changed current [] = false
changed current ((key, value) ∷ rest) =
    not (lookup_text key current == value) || changed current rest

unfoldable pub remove_keys : List String → Map String → Map String
unfolding remove
remove_keys [] m = m
remove_keys (key ∷ keys) m = remove_keys keys (remove key m)

subject_text : String → String → String → String
subject_text what namespace name =
    cat (what ∷ " remote ServiceAccount " ∷ namespace ∷ "/" ∷ name ∷ [])

module _ {S : Type 0} (remote : RemoteClient S) where
  patched : ServiceAccount → Result (Unit {0}) × S → Result OperationResult × S
  unfolding subject_text
  patched sa (ok _, s) = (ok result_updated, s)
  patched sa (err e, s) = (err (wrap (subject_text "patch" sa.namespace sa.name) e), s)

  -- patchRemoteServiceAccountObjectAnnotations
  unfoldable pub patch_object_annotations : ServiceAccount → String → S → Result OperationResult × S
  unfolding patched render_annotations changed copy_into
  patch_object_annotations sa role_arn s =
      if not (changed sa.annotations (render_annotations role_arn))
      then (ok result_none, s)
      else patched sa (
          remote.patch_service_account
            (record sa { annotations = copy_into sa.annotations (render_annotations role_arn) }) s)

  patch_found :
      ServiceAccountSubject → String → S → Result ServiceAccount → Result OperationResult × S
  unfolding patch_object_annotations subject_text
  patch_found subject role_arn s (ok sa) = patch_object_annotations sa role_arn s
  patch_found subject role_arn s (err e) =
      (err (wrap (subject_text "get" subject.namespace subject.name) e), s)

  -- patchRemoteServiceAccountAnnotations
  unfoldable pub patch_annotations : ServiceAccountSubject → String → S → Result OperationResult × S
  unfolding patch_found
  patch_annotations subject role_arn s =
      if role_arn == ""
      then (ok result_none, s)
      else patch_found subject role_arn s (
          remote.get_service_account s
            (record { namespace = subject.namespace; name = subject.name }))

  remove_found :
      ServiceAccountSubject → String → S → Result ServiceAccount → Result OperationResult × S
  unfolding patched remove_keys subject_text lookup_text
  remove_found subject role_arn s (err e) =
      if e.not_found
      then (ok result_none, s)
      else (err (wrap (subject_text "get" subject.namespace subject.name) e), s)
  remove_found subject role_arn s (ok sa) =
      if not (lookup_text role_arn_annotation sa.annotations == role_arn)
      then (ok result_none, s)
      else patched sa (
          remote.patch_service_account
            (record sa { annotations = remove_keys annotation_keys sa.annotations }) s)

  -- removeRemoteServiceAccountAnnotations
  unfoldable pub remove_annotations :
      ServiceAccountSubject → String → S → Result OperationResult × S
  unfolding remove_found
  remove_annotations subject role_arn s =
      if role_arn == ""
      then (ok result_none, s)
      else remove_found subject role_arn s (
          remote.get_service_account s
            (record { namespace = subject.namespace; name = subject.name }))
