-- ===== src/Controller/Role/Cleanup/Keeps.antt =====
-- The clean-up of a deleted role's annotations writes service accounts of remote clusters and nothing else.
use mathlib.Core.Path.{subst}
use aws_workload_identity_op.Prelude.{
  String, ◌==◌, ◌≡◌, sym, refl, Bool-cases, inl, inr, Option, none, some,
}
use aws_workload_identity_op.Api.Delivery.{delivery_text, uses_annotation_based_irsa}
use aws_workload_identity_op.Api.Errors.{Result, ok, err, wrap_result}
use aws_workload_identity_op.Api.Types.{
  Role, Config, NamespacedName, DeliveryType, self_hosted_irsa, eks_pod_identity, eks_irsa,
  other_delivery,
}
use aws_workload_identity_op.Controller.Annotations.{
  RemoteClient, ServiceAccount, OperationResult, remove_annotations,
}
use aws_workload_identity_op.Controller.Annotations.Effects.{remove_annotations-IsRemoval}
use aws_workload_identity_op.Controller.Role.Cleanup.{
  recorded_resolution, role_arn_for_deletion, remote_client_of, removed, remove_with_client,
  clean_up_arn, clean_up_recorded, clean_up_recorded_cluster, clean_up_from_status,
  clean_up_resolved, clean_up_observed, clean_up_by_config, clean_up_annotations,
}
use aws_workload_identity_op.Controller.Role.Server.{RoleServer}
use aws_workload_identity_op.Inventory.{Resolution, resolve_inventory}
use aws_workload_identity_op.Controller.Common.Names.{namespaced_name_from_string}
use aws_workload_identity_op.Api.Constants.{default_name}

module _ {S : Type 0} (server : RoleServer S) (role : Role) (P : S → Type 0)
    (removes : (cluster : NamespacedName) (s : S) (remote : RemoteClient S)
      → server.get_cluster s cluster ≡ ok remote
      → (sa : ServiceAccount) (t : S) → P t
      → P (remote.patch_service_account sa t).1) where
  remove_annotations-keeps :
      (remote : RemoteClient S)
      → ((sa : ServiceAccount) (t : S) → P t → P (remote.patch_service_account sa t).1)
      → (arn : String) (s : S) → P s
      → P (remove_annotations remote role.spec.service_account arn s).1
  remove_annotations-keeps remote writes arn s p =
      elim (remove_annotations-IsRemoval remote role.spec.service_account arn "" s) [
        | inl same ↦ subst P (sym same) p
        | inr (sa, written, removal) ↦ subst P (sym removal.wrote) (writes written s p)
      ]

  removed-keeps :
      (answer : Result OperationResult × S) → P answer.1 → P (removed server role answer).1
  unfolding removed
  removed-keeps (ok _, s) p = p
  removed-keeps (err e, s) p = p

  remove_with_client-keeps :
      (arn : String) (s : S) (prefix : String) (answer : Result (RemoteClient S))
      → ((remote : RemoteClient S)
          → answer ≡ ok remote
          → (sa : ServiceAccount) (t : S) → P t
          → P (remote.patch_service_account sa t).1)
      → P s
      → P (remove_with_client server role arn s (wrap_result prefix answer)).1
  unfolding remove_with_client
  remove_with_client-keeps arn s prefix (err e) writes p = p
  remove_with_client-keeps arn s prefix (ok remote) writes p =
      removed-keeps (remove_annotations remote role.spec.service_account arn s)
        (remove_annotations-keeps remote (writes remote refl) arn s p)

  clean_up_arn-keeps :
      (resolved : Resolution) (s : S) (arn : String)
      → P s
      → P (clean_up_arn server role resolved s arn).1
  unfolding clean_up_arn remote_client_of
  clean_up_arn-keeps resolved s arn p = elim (Bool-cases (arn == "")) [
    | inl empty ↦ simp empty p
    | inr named ↦ simp named (
        remove_with_client-keeps arn s _ (server.get_cluster s resolved.cluster_name)
          (removes resolved.cluster_name s) p)
  ]

  clean_up_recorded-keeps :
      (resolved : Resolution) (s : S) (arn : Result String)
      → P s
      → P (clean_up_recorded server role resolved s arn).1
  unfolding clean_up_recorded
  clean_up_recorded-keeps resolved s (err e) p = p
  clean_up_recorded-keeps resolved s (ok arn) p = clean_up_arn-keeps resolved s arn p

  clean_up_recorded_cluster-keeps :
      (s : S) (cluster : Option NamespacedName)
      → P s
      → P (clean_up_recorded_cluster server role s cluster).1
  unfolding clean_up_recorded_cluster
  clean_up_recorded_cluster-keeps s none p = p
  clean_up_recorded_cluster-keeps s (some cluster) p =
      clean_up_recorded-keeps (recorded_resolution cluster) s (role_arn_for_deletion server role s)
        p

  clean_up_from_status-keeps :
      (delivery : DeliveryType) (s : S) → P s → P (clean_up_from_status server delivery role s).1
  unfolding clean_up_from_status
  clean_up_from_status-keeps eks_pod_identity s p = p
  clean_up_from_status-keeps self_hosted_irsa s p =
      clean_up_recorded_cluster-keeps s
        (namespaced_name_from_string role.status.resolved_cluster_name) p
  clean_up_from_status-keeps eks_irsa s p =
      clean_up_recorded_cluster-keeps s
        (namespaced_name_from_string role.status.resolved_cluster_name) p
  clean_up_from_status-keeps (other_delivery t) s p = elim (Bool-cases (t == "")) [
    | inl empty ↦ simp empty p
    | inr named ↦ simp named p
  ]

  clean_up_resolved-keeps :
      (arn : String) (s : S) (resolved : Result Resolution)
      → P s
      → P (clean_up_resolved server role arn s resolved).1
  unfolding clean_up_resolved
  clean_up_resolved-keeps arn s (err e) p = p
  clean_up_resolved-keeps arn s (ok resolved) p = elim (Bool-cases resolved.ready) [
    | inl ready ↦ simp ready (clean_up_arn-keeps resolved s arn p)
    | inr waits ↦ simp waits p
  ]

  clean_up_observed-keeps :
      (s : S) (arn : Result String) → P s → P (clean_up_observed server role s arn).1
  unfolding clean_up_observed
  clean_up_observed-keeps s (err e) p = p
  clean_up_observed-keeps s (ok arn) p = elim (Bool-cases (arn == "")) [
    | inl empty ↦ simp empty p
    | inr named ↦ simp named (
        clean_up_resolved-keeps arn s
          (resolve_inventory (some (server.list_profiles s)) role.meta.namespace) p)
  ]

  clean_up_by_config-keeps :
      (s : S) (config : Result Config) → P s → P (clean_up_by_config server role s config).1
  unfolding clean_up_by_config
  clean_up_by_config-keeps s (err e) p = elim (Bool-cases e.not_found) [
    | inl gone ↦ simp gone (clean_up_from_status-keeps role.status.delivery_type s p)
    | inr fails ↦ simp fails p
  ]
  clean_up_by_config-keeps s (ok config) p =
      elim (Bool-cases (uses_annotation_based_irsa config.spec.delivery_type)) [
        | inl annotates ↦
            simp annotates (clean_up_observed-keeps s (role_arn_for_deletion server role s) p)
        | inr other ↦ simp other p
      ]

  pub clean_up_annotations-keeps : (s : S) → P s → P (clean_up_annotations server role s).1
  unfolding clean_up_annotations
  clean_up_annotations-keeps s p =
      elim (Bool-cases (delivery_text role.status.delivery_type == "")) [
        | inl unknown ↦ simp unknown (
            clean_up_by_config-keeps s
              (server.get_config s
                (record { namespace = role.meta.namespace; name = default_name }))
              p)
        | inr recorded ↦ simp recorded (clean_up_from_status-keeps role.status.delivery_type s p)
      ]
