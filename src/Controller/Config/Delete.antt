-- ===== src/Controller/Config/Delete.antt =====
-- The children of a config that is deleted: deleteConfigChildren of
-- internal/controller/config_controller.go, with usesManagedConfigOIDCProvider of delivery.go.
pub mod Complete
pub mod Owned
use aws_workload_identity_op.Prelude.{
  String, ◌==◌, Bool, true, false, not, ◌||◌, if◌then◌else◌, Option, some, List, [], ◌∷◌, cat,
}
use aws_workload_identity_op.Prelude.Maps.{lookup_text}
use aws_workload_identity_op.Api.Constants.{label_config_uid}
use aws_workload_identity_op.Api.Errors.{Failure, wrap, wrap_result, Result, ok, err}
use aws_workload_identity_op.Api.Types.{
  Config, NamespacedName, name_text, DeliveryType, self_hosted_irsa, eks_pod_identity, eks_irsa,
  other_delivery, EksIrsaConfig, OidcProviderManagement, managed, external, other_management,
}
use aws_workload_identity_op.Aws.Ack.{self_hosted_issuer_bucket_name}
use aws_workload_identity_op.Aws.Names.{oidc_provider_name, signing_key_secret_name}
use aws_workload_identity_op.Controller.Config.Issuer.{self_hosted_publisher}
use aws_workload_identity_op.Controller.Config.Server.{
  ConfigChildKind, oidc_provider, signing_secret, bucket, ConfigChild, Publisher, ConfigServer,
}
use aws_workload_identity_op.Controller.Role.Delete.{same_uid}

-- `%T` of a child.
abbrev pub child_kind_text : ConfigChildKind → String
child_kind_text oidc_provider = "*v1alpha1.OpenIDConnectProvider"
child_kind_text signing_secret = "*v1.Secret"
child_kind_text bucket = "*v1alpha1.Bucket"

child_text : ConfigChildKind → NamespacedName → String
child_text kind key = cat (child_kind_text kind ∷ " " ∷ name_text key ∷ [])

-- isConfigChildOwnedBy
unfoldable pub is_config_child_owned_by : Config → ConfigChild → Bool
unfolding same_uid lookup_text
is_config_child_owned_by config child =
    if config.meta.uid == ""
    then false
    else same_uid config.meta.uid child.controller_uid
      || (lookup_text label_config_uid child.labels == config.meta.uid)

is_managed_by : OidcProviderManagement → Bool
is_managed_by managed = true
is_managed_by external = false
is_managed_by (other_management _) = false

is_managed : DeliveryType → Option EksIrsaConfig → Bool
unfolding is_managed_by
is_managed eks_irsa (some spec) = is_managed_by spec.oidc_provider.management
is_managed _ _ = false

-- usesManagedConfigOIDCProvider
unfoldable pub uses_managed_oidc_provider : Config → Bool
unfolding is_managed
uses_managed_oidc_provider config = is_managed config.spec.delivery_type config.spec.eks_irsa

-- The goroutines of deleteSelfHostedChildren.
pub data Branch : Type 0 where
  provider_branch secret_branch bucket_branch : Branch

module _ {S R : Type 0} (server : ConfigServer S R) where
  missing_or_error : ConfigChildKind → NamespacedName → Failure → Result (Unit {0})
  unfolding child_text
  missing_or_error kind key e =
      if e.not_found || e.no_match
      then ok tt
      else err (wrap (cat ("get " ∷ child_text kind key ∷ [])) e)

  child_deleted : ConfigChildKind → NamespacedName → Result (Unit {0}) × S → Result (Unit {0}) × S
  unfolding child_text
  child_deleted kind key (ok _, s) = (ok tt, s)
  child_deleted kind key (err e, s) =
      if e.not_found
      then (ok tt, s)
      else (err (wrap (cat ("delete " ∷ child_text kind key ∷ [])) e), s)

  delete_found :
      Config → ConfigChildKind → NamespacedName → S → Result ConfigChild → Result (Unit {0}) × S
  unfolding is_config_child_owned_by missing_or_error child_deleted
  delete_found config kind key s (err e) = (missing_or_error kind key e, s)
  delete_found config kind key s (ok child) =
      if not (is_config_child_owned_by config child)
      then (ok tt, s)
      else child_deleted kind key (server.delete_child child s)

  -- deleteConfigChildIfOwned
  unfoldable pub delete_config_child_if_owned :
      Config → ConfigChildKind → String → S → Result (Unit {0}) × S
  unfolding delete_found
  delete_config_child_if_owned config kind name s =
      let key : NamespacedName = record { namespace = config.meta.namespace; name = name } in
      delete_found config kind key s (server.get_child s kind key)

  delete_with : String → S → Result (Publisher S) → Result (Unit {0}) × S
  delete_with name s (err e) = (err e, s)
  delete_with name s (ok publisher) =
      let (answer, s') = publisher.delete_issuer name s in
      (wrap_result "delete self-hosted OIDC issuer objects" answer, s')

  delete_objects_of :
      Config → String → NamespacedName → S → Result ConfigChild → Result (Unit {0}) × S
  unfolding is_config_child_owned_by missing_or_error delete_with self_hosted_publisher
  delete_objects_of config name key s (err e) = (missing_or_error bucket key e, s)
  delete_objects_of config name key s (ok child) =
      if not (is_config_child_owned_by config child)
      then (ok tt, s)
      else delete_with name s (self_hosted_publisher server.publisher_factory s config.spec.region)

  -- deleteSelfHostedOIDCObjects
  unfoldable pub delete_self_hosted_oidc_objects : Config → String → S → Result (Unit {0}) × S
  unfolding delete_objects_of
  delete_self_hosted_oidc_objects config name s =
      let key : NamespacedName = record { namespace = config.meta.namespace; name = name } in
      delete_objects_of config name key s (server.get_child s bucket key)

  then_bucket : Config → String → Result (Unit {0}) × S → Result (Unit {0}) × S
  unfolding delete_config_child_if_owned
  then_bucket config name (err e, s) = (err (wrap "delete OIDC issuer objects" e), s)
  then_bucket config name (ok _, s) = delete_config_child_if_owned config bucket name s

  run_branch : Config → String → Branch → S → Result (Unit {0}) × S
  unfolding delete_config_child_if_owned oidc_provider_name signing_key_secret_name then_bucket
      delete_self_hosted_oidc_objects
  run_branch config name provider_branch s =
      delete_config_child_if_owned config oidc_provider (oidc_provider_name config) s
  run_branch config name secret_branch s =
      delete_config_child_if_owned config signing_secret (signing_key_secret_name config) s
  run_branch config name bucket_branch s =
      then_bucket config name (delete_self_hosted_oidc_objects config name s)

  unless_failed : Result (Unit {0}) → S → Result (Unit {0}) × S → Result (Unit {0}) × S
  unless_failed (ok _) s rest = rest
  unless_failed (err e) s rest = (err e, s)

  -- The goroutines of an errgroup in the order in which they run. They share no object. The first error
  -- cancels those that come later.
  unfoldable pub run_branches : Config → String → List Branch → S → Result (Unit {0}) × S
  unfolding run_branch unless_failed
  run_branches config name [] s = (ok tt, s)
  run_branches config name (b ∷ bs) s =
      let (answer, s') = run_branch config name b s in
      let rest = run_branches config name bs s' in unless_failed answer s' rest

  -- deleteSelfHostedChildren
  unfoldable pub delete_self_hosted_children : List Branch → Config → S → Result (Unit {0}) × S
  unfolding run_branches self_hosted_issuer_bucket_name
  delete_self_hosted_children order config s =
      let (answer, s') =
        run_branches config (self_hosted_issuer_bucket_name server.digest config) order s in
      (wrap_result "delete self-hosted children" answer, s')

  -- deleteEKSIRSAChildren
  unfoldable pub delete_eks_irsa_children : Config → S → Result (Unit {0}) × S
  unfolding uses_managed_oidc_provider delete_config_child_if_owned oidc_provider_name
  delete_eks_irsa_children config s =
      if not (uses_managed_oidc_provider config)
      then (ok tt, s)
      else delete_config_child_if_owned config oidc_provider (oidc_provider_name config) s

  children_of : DeliveryType → List Branch → Config → S → Result (Unit {0}) × S
  unfolding delete_self_hosted_children delete_eks_irsa_children
  children_of self_hosted_irsa order config s = delete_self_hosted_children order config s
  children_of eks_irsa order config s = delete_eks_irsa_children config s
  children_of eks_pod_identity order config s = (ok tt, s)
  children_of (other_delivery _) order config s = (ok tt, s)

  -- deleteConfigChildren
  unfoldable pub delete_config_children : List Branch → Config → S → Result (Unit {0}) × S
  unfolding children_of
  delete_config_children order config s = children_of config.spec.delivery_type order config s
