-- ===== src/Controller/Config/Delete/Owned.antt =====
-- The deletion of a config's children deletes only what the config controls, or what has its label.
use text.Mathlib.TextEquality.{eq_iff}
use aws_workload_identity_op.Prelude.Maps.{lookup_text}
use aws_workload_identity_op.Api.Constants.{label_config_uid}
use aws_workload_identity_op.Controller.Role.Delete.{same_uid}
use aws_workload_identity_op.Prelude.{
  ◌==◌, false, Option, none, some, ◌⊎◌, ◌↔◌, arith, String, ◌≡◌, true, List, [], ◌∷◌, Bool-cases,
  inl, inr, refl,
}
use aws_workload_identity_op.Api.Errors.{Result, ok, err}
use aws_workload_identity_op.Api.Types.{
  Config, NamespacedName, DeliveryType, self_hosted_irsa, eks_pod_identity, eks_irsa,
  other_delivery,
}
use aws_workload_identity_op.Controller.Config.Delete.{
  is_config_child_owned_by, uses_managed_oidc_provider, Branch, provider_branch, secret_branch,
  bucket_branch, child_deleted, delete_found, delete_config_child_if_owned, delete_with,
  delete_objects_of, delete_self_hosted_oidc_objects, then_bucket, run_branch, unless_failed,
  run_branches, delete_self_hosted_children, delete_eks_irsa_children, children_of,
  delete_config_children,
}
use aws_workload_identity_op.Controller.Config.Issuer.{self_hosted_publisher}
use aws_workload_identity_op.Controller.Config.Server.{
  ConfigChildKind, oidc_provider, signing_secret, bucket, ConfigChild, Publisher, ConfigServer,
}

-- The controller of the child is the config, or the child has the label of its UID, whatever its
-- controller is.
abbrev pub IsMarked : Config → ConfigChild → Type 0
IsMarked config child =
    ((config.meta.uid == "") ≡ false)
    × ((child.controller_uid ≡ some config.meta.uid)
        ⊎ (lookup_text label_config_uid child.labels ≡ config.meta.uid))

same_uid-some :
    (uid : String) (owner : Option String) → (same_uid uid owner ≡ true) ↔ (owner ≡ some uid)
unfolding same_uid
same_uid-some uid none = ground arith
same_uid-some uid (some owner) = ground (arith, eq_iff owner uid)

pub is_config_child_owned_by-IsMarked :
    (config : Config) (child : ConfigChild)
    → (is_config_child_owned_by config child ≡ true) ↔ IsMarked config child
unfolding is_config_child_owned_by
is_config_child_owned_by-IsMarked config child = ground (
  arith,
  same_uid-some config.meta.uid child.controller_uid,
  eq_iff (lookup_text label_config_uid child.labels) config.meta.uid,
)

module _ {S R : Type 0} (server : ConfigServer S R) (config : Config) (P : S → Type 0)
    (delete_keeps : (child : ConfigChild) (s : S)
      → IsMarked config child
      → P s
      → P (server.delete_child child s).1)
    (objects_keep : (name : String) (child : ConfigChild) (publisher : Publisher S) (s : S)
      → server.get_child s bucket (record { namespace = config.meta.namespace; name = name })
        ≡ ok child
      → IsMarked config child
      → self_hosted_publisher server.publisher_factory s config.spec.region ≡ ok publisher
      → P s
      → P (publisher.delete_issuer name s).1) where
  child_deleted-keeps :
      (kind : ConfigChildKind) (key : NamespacedName) (x : Result (Unit {0}) × S)
      → P x.1
      → P (child_deleted server kind key x).1
  unfolding child_deleted
  child_deleted-keeps kind key (ok _, s) p = p
  child_deleted-keeps kind key (err e, s) p = elim (Bool-cases e.not_found) [
    | inl gone ↦ simp gone p
    | inr fails ↦ simp fails p
  ]

  delete_found-keeps :
      (kind : ConfigChildKind) (key : NamespacedName) (s : S) (found : Result ConfigChild)
      → P s
      → P (delete_found server config kind key s found).1
  unfolding delete_found
  delete_found-keeps kind key s (err e) p = p
  delete_found-keeps kind key s (ok child) p =
      elim (Bool-cases (is_config_child_owned_by config child)) [
        | inl owned ↦ simp owned (
            child_deleted-keeps kind key (server.delete_child child s)
              (delete_keeps child s ((is_config_child_owned_by-IsMarked config child).0 owned) p))
        | inr foreign ↦ simp foreign p
      ]

  delete_config_child_if_owned-keeps :
      (kind : ConfigChildKind) (name : String) (s : S)
      → P s
      → P (delete_config_child_if_owned server config kind name s).1
  unfolding delete_config_child_if_owned
  delete_config_child_if_owned-keeps kind name s p = delete_found-keeps kind _ s _ p

  delete_with-keeps :
      (name : String) (s : S) (x : Result (Publisher S))
      → ((publisher : Publisher S) → x ≡ ok publisher → P (publisher.delete_issuer name s).1)
      → P s
      → P (delete_with server name s x).1
  unfolding delete_with
  delete_with-keeps name s (err e) h p = p
  delete_with-keeps name s (ok publisher) h p = h publisher refl

  delete_objects_of-keeps :
      (name : String) (s : S) (found : Result ConfigChild)
      → server.get_child s bucket (record { namespace = config.meta.namespace; name = name })
        ≡ found
      → P s
      → P
          (delete_objects_of server config name
            (record { namespace = config.meta.namespace; name = name })
            s
            found).1
  unfolding delete_objects_of
  delete_objects_of-keeps name s (err e) h p = p
  delete_objects_of-keeps name s (ok child) h p =
      elim (Bool-cases (is_config_child_owned_by config child)) [
        | inl owned ↦ simp owned (
            delete_with-keeps name s
              (self_hosted_publisher server.publisher_factory s config.spec.region)
              (λ publisher found.
                objects_keep name child publisher s h
                  ((is_config_child_owned_by-IsMarked config child).0 owned) found p)
              p)
        | inr foreign ↦ simp foreign p
      ]

  then_bucket-keeps :
      (name : String) (x : Result (Unit {0}) × S) → P x.1 → P (then_bucket server config name x).1
  unfolding then_bucket
  then_bucket-keeps name (err e, s) p = p
  then_bucket-keeps name (ok _, s) p = delete_config_child_if_owned-keeps bucket name s p

  run_branch-keeps :
      (name : String) (b : Branch) (s : S) → P s → P (run_branch server config name b s).1
  unfolding run_branch delete_self_hosted_oidc_objects
  run_branch-keeps name provider_branch s p = delete_config_child_if_owned-keeps oidc_provider _ s p
  run_branch-keeps name secret_branch s p = delete_config_child_if_owned-keeps signing_secret _ s p
  run_branch-keeps name bucket_branch s p =
      then_bucket-keeps name _ (delete_objects_of-keeps name s _ refl p)

  unless_failed-keeps :
      (answer : Result (Unit {0})) (s : S) (rest : Result (Unit {0}) × S)
      → P s
      → P rest.1
      → P (unless_failed server answer s rest).1
  unfolding unless_failed
  unless_failed-keeps (ok _) s rest p q = q
  unless_failed-keeps (err e) s rest p q = p

  run_branches-keeps :
      (name : String) (bs : List Branch) (s : S) → P s → P (run_branches server config name bs s).1
  unfolding run_branches
  run_branches-keeps name [] s p = p
  run_branches-keeps name (b ∷ bs) s p =
      let after = run_branch-keeps name b s p in
      unless_failed-keeps _ _ _ after (run_branches-keeps name bs _ after)

  children_of-keeps :
      (delivery : DeliveryType) (order : List Branch) (s : S)
      → P s
      → P (children_of server delivery order config s).1
  unfolding children_of delete_self_hosted_children delete_eks_irsa_children
  children_of-keeps self_hosted_irsa order s p = run_branches-keeps _ order s p
  children_of-keeps eks_irsa order s p = elim (Bool-cases (uses_managed_oidc_provider config)) [
    | inl managed_one ↦ simp managed_one (delete_config_child_if_owned-keeps oidc_provider _ s p)
    | inr other ↦ simp other p
  ]
  children_of-keeps eks_pod_identity order s p = p
  children_of-keeps (other_delivery _) order s p = p

  -- The deletion of a config's children, in any order of its goroutines, deletes only children whose
  -- controller is the config or that have the label of its UID, whatever their controller is, and the
  -- issuer objects only of such a bucket: what survives these deletions survives the call.
  pub delete_config_children-keeps :
      (order : List Branch) (s : S) → P s → P (delete_config_children server order config s).1
  unfolding delete_config_children
  delete_config_children-keeps order s p = children_of-keeps config.spec.delivery_type order s p
