-- ===== src/Controller/Config/Delete/Complete.antt =====
-- The deletion of a config's children where the API server and S3 answer.
use aws_workload_identity_op.Prelude.{String, ◌≡◌, true, ◌||◌, List, [], ◌∷◌, Bool-cases, inl, inr}
use aws_workload_identity_op.Api.Errors.{Result, ok, err, wrap_result}
use aws_workload_identity_op.Api.Types.{
  Config, NamespacedName, DeliveryType, self_hosted_irsa, eks_pod_identity, eks_irsa,
  other_delivery,
}
use aws_workload_identity_op.Controller.Config.Delete.{
  is_config_child_owned_by, uses_managed_oidc_provider, Branch, provider_branch, secret_branch,
  bucket_branch, missing_or_error, child_deleted, delete_found, delete_config_child_if_owned,
  delete_with, delete_objects_of, delete_self_hosted_oidc_objects, then_bucket, run_branch,
  unless_failed, run_branches, delete_self_hosted_children, delete_eks_irsa_children, children_of,
  delete_config_children,
}
use aws_workload_identity_op.Controller.Config.Issuer.{self_hosted_publisher}
use aws_workload_identity_op.Controller.Config.Server.{
  ConfigChildKind, oidc_provider, signing_secret, bucket, ConfigChild, Publisher, ConfigServer,
}

-- A child is read, or the server knows that there is none.
abbrev pub IsKnown : Result ConfigChild → Type 0
IsKnown (ok child) = Unit {0}
IsKnown (err e) = (e.not_found || e.no_match) ≡ true

-- The answer is no error, and the state that is left satisfies P.
abbrev pub Succeeds : {S : Type 0} → (S → Type 0) → Result (Unit {0}) × S → Type 0
Succeeds P (ok _, s) = P s
Succeeds P (err e, s) = ⊥

-- There is a publisher, and it deletes.
abbrev pub IsServing : {S : Type 0} → (S → Type 0) → Result (Publisher S) → Type 0
IsServing {S} P (ok publisher) =
    (name : String) (s : S) → P s → Succeeds P (publisher.delete_issuer name s)
IsServing P (err e) = ⊥

module _ {S : Type 0} (P : S → Type 0) where
  left : (x : Result (Unit {0}) × S) → Succeeds P x → P x.1
  left (ok _, s) p = p
  left (err _, s) p = elim p [ ]

  wrap_result-Succeeds :
      (prefix : String) (x : Result (Unit {0}) × S)
      → Succeeds P x
      → Succeeds P (wrap_result prefix x.0, x.1)
  wrap_result-Succeeds prefix (ok _, s) p = p
  wrap_result-Succeeds prefix (err _, s) p = elim p [ ]

module _ {S R : Type 0} (server : ConfigServer S R) (config : Config) (P : S → Type 0)
    (known : (kind : ConfigChildKind) (key : NamespacedName) (s : S)
      → P s
      → IsKnown (server.get_child s kind key))
    (deletes : (child : ConfigChild) (s : S) → P s → Succeeds P (server.delete_child child s))
    (serves : (s : S)
      → P s
      → IsServing P (self_hosted_publisher server.publisher_factory s config.spec.region)) where
  child_deleted-Succeeds :
      (kind : ConfigChildKind) (key : NamespacedName) (x : Result (Unit {0}) × S)
      → Succeeds P x
      → Succeeds P (child_deleted server kind key x)
  unfolding child_deleted
  child_deleted-Succeeds kind key (ok _, s) p = p
  child_deleted-Succeeds kind key (err _, s) p = elim p [ ]

  delete_found-Succeeds :
      (kind : ConfigChildKind) (key : NamespacedName) (s : S) (found : Result ConfigChild)
      → IsKnown found
      → P s
      → Succeeds P (delete_found server config kind key s found)
  unfolding delete_found missing_or_error
  delete_found-Succeeds kind key s (err e) gone p = simp gone p
  delete_found-Succeeds kind key s (ok child) _ p =
      elim (Bool-cases (is_config_child_owned_by config child)) [
        | inl owned ↦
            simp owned
              (child_deleted-Succeeds kind key (server.delete_child child s) (deletes child s p))
        | inr foreign ↦ simp foreign p
      ]

  delete_config_child_if_owned-Succeeds :
      (kind : ConfigChildKind) (name : String) (s : S)
      → P s
      → Succeeds P (delete_config_child_if_owned server config kind name s)
  unfolding delete_config_child_if_owned
  delete_config_child_if_owned-Succeeds kind name s p =
      delete_found-Succeeds kind _ s _ (known kind _ s p) p

  delete_with-Succeeds :
      (name : String) (s : S) (x : Result (Publisher S))
      → IsServing P x
      → P s
      → Succeeds P (delete_with server name s x)
  unfolding delete_with
  delete_with-Succeeds name s (err _) serving p = elim serving [ ]
  delete_with-Succeeds name s (ok publisher) serving p =
      wrap_result-Succeeds P "delete self-hosted OIDC issuer objects"
        (publisher.delete_issuer name s) (serving name s p)

  delete_objects_of-Succeeds :
      (name : String) (key : NamespacedName) (s : S) (found : Result ConfigChild)
      → IsKnown found
      → P s
      → Succeeds P (delete_objects_of server config name key s found)
  unfolding delete_objects_of missing_or_error
  delete_objects_of-Succeeds name key s (err e) gone p = simp gone p
  delete_objects_of-Succeeds name key s (ok child) _ p =
      elim (Bool-cases (is_config_child_owned_by config child)) [
        | inl owned ↦ simp owned (
            delete_with-Succeeds name s
              (self_hosted_publisher server.publisher_factory s config.spec.region) (serves s p) p)
        | inr foreign ↦ simp foreign p
      ]

  then_bucket-Succeeds :
      (name : String) (x : Result (Unit {0}) × S)
      → Succeeds P x
      → Succeeds P (then_bucket server config name x)
  unfolding then_bucket
  then_bucket-Succeeds name (err _, s) p = elim p [ ]
  then_bucket-Succeeds name (ok _, s) p = delete_config_child_if_owned-Succeeds bucket name s p

  run_branch-Succeeds :
      (name : String) (b : Branch) (s : S) → P s → Succeeds P (run_branch server config name b s)
  unfolding run_branch delete_self_hosted_oidc_objects
  run_branch-Succeeds name provider_branch s p =
      delete_config_child_if_owned-Succeeds oidc_provider _ s p
  run_branch-Succeeds name secret_branch s p =
      delete_config_child_if_owned-Succeeds signing_secret _ s p
  run_branch-Succeeds name bucket_branch s p =
      then_bucket-Succeeds name _ (delete_objects_of-Succeeds name _ s _ (known bucket _ s p) p)

  unless_failed-Succeeds :
      (x rest : Result (Unit {0}) × S)
      → Succeeds P x
      → Succeeds P rest
      → Succeeds P (unless_failed server x.0 x.1 rest)
  unfolding unless_failed
  unless_failed-Succeeds (ok _, s) rest p q = q
  unless_failed-Succeeds (err _, s) rest p q = elim p [ ]

  run_branches-Succeeds :
      (name : String) (bs : List Branch) (s : S)
      → P s
      → Succeeds P (run_branches server config name bs s)
  unfolding run_branches
  run_branches-Succeeds name [] s p = p
  run_branches-Succeeds name (b ∷ bs) s p =
      let first = run_branch-Succeeds name b s p in
      unless_failed-Succeeds (run_branch server config name b s) _ first
        (run_branches-Succeeds name bs _ (left P (run_branch server config name b s) first))

  children_of-Succeeds :
      (delivery : DeliveryType) (order : List Branch) (s : S)
      → P s
      → Succeeds P (children_of server delivery order config s)
  unfolding children_of delete_self_hosted_children delete_eks_irsa_children
  children_of-Succeeds self_hosted_irsa order s p =
      wrap_result-Succeeds P "delete self-hosted children" (run_branches server config _ order s)
        (run_branches-Succeeds _ order s p)
  children_of-Succeeds eks_irsa order s p = elim (Bool-cases (uses_managed_oidc_provider config)) [
    | inl managed_one ↦ simp managed_one (delete_config_child_if_owned-Succeeds oidc_provider _ s p)
    | inr other ↦ simp other p
  ]
  children_of-Succeeds eks_pod_identity order s p = p
  children_of-Succeeds (other_delivery _) order s p = p

  pub delete_config_children-Succeeds :
      (order : List Branch) (s : S)
      → P s
      → Succeeds P (delete_config_children server order config s)
  unfolding delete_config_children
  delete_config_children-Succeeds order s p =
      children_of-Succeeds config.spec.delivery_type order s p
