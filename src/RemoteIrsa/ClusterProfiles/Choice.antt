-- ===== src/RemoteIrsa/ClusterProfiles/Choice.antt =====
-- The ClusterProfile that remote credentials are routed at.
use aws_workload_identity_op.Prelude.{
  ◌≡◌, ◌≤◌, String, true, false, some, arith, List, [], ◌∷◌, All, length, select, ◌⊎◌, inl, inr,
  refl, Bool, sym, Bool-cases,
}
use aws_workload_identity_op.Prelude.Sorting.{sort, All-sort, length-select-sort}
use aws_workload_identity_op.Api.Errors.{ok}
use aws_workload_identity_op.RemoteIrsa.Errors
use aws_workload_identity_op.RemoteIrsa.Errors.{Attempt, success, failed, IrsaError, reason_of}
use aws_workload_identity_op.RemoteIrsa.Options.{HubReader, ClusterProfile}
use aws_workload_identity_op.RemoteIrsa.ClusterProfiles.{
  has_access_provider, resolve_cluster_profile, list_cluster_profiles, choose_profile, only_ready,
  partition_cluster_profiles_by_access, profile_le,
}

-- The profiles of the list that have access providers.
abbrev pub ready_of : List ClusterProfile → List ClusterProfile
ready_of items = select has_access_provider items

module _ {ℓ} {A : Type ℓ} (p : A → Bool) where
  select-none :
      (y : A) (xs : List A) → length (select p xs) ≡ 0 → All (λ x. (p x ≡ false) ⊎ (x ≡ y)) xs
  select-none y [] h = tt
  select-none y (x ∷ xs) h = elim (Bool-cases (p x)) [
    | inl e ↦ ground arith
    | inr e ↦ (inl e, select-none y xs (simp e at h))
  ]

  pub select-one :
      (y : A) (xs : List A)
      → select p xs ≡ y ∷ []
      → (p y ≡ true) × All (λ x. (p x ≡ false) ⊎ (x ≡ y)) xs
  select-one y [] h = ground arith
  select-one y (x ∷ xs) h = elim (Bool-cases (p x)) [
    | inl e ↦
        (let h' : x ∷ select p xs ≡ y ∷ [] = simp e at h in
          let same : x ≡ y = cc in
          let none_left : select p xs ≡ [] = cc in
          (rw (← same) e, (inr same, select-none y xs (rw none_left refl))))
    | inr e ↦ (let (yes_y, rest) = select-one y xs (simp e at h) in (yes_y, (inl e, rest)))
  ]

abbrev pub FailsWith {ℓ} : {A : Type ℓ} → Errors.ErrorReason → Attempt A → Type 0
FailsWith reason (success a) = ⊥
FailsWith reason (failed e) = reason_of e ≡ some reason

-- The possible outcomes of the choice among the profiles that were listed.
abbrev pub IsChoice : List ClusterProfile → Attempt ClusterProfile → Type 0
IsChoice items answer =
    (length (ready_of items) ≡ 0) × FailsWith Errors.missing_inventory_access answer
    ⊎ (length (ready_of items) ≡ 1)
      × ((p : ClusterProfile) × (answer ≡ success p)
          × (has_access_provider p ≡ true)
          × All (λ x. (has_access_provider x ≡ false) ⊎ (x ≡ p)) items)
    ⊎ (2 ≤ length (ready_of items)) × FailsWith Errors.multiple_cluster_profiles answer

only_ready-IsChoice :
    (workload_namespace : String) (items sorted ready : List ClusterProfile)
    → ready ≡ partition_cluster_profiles_by_access items
    → IsChoice items (only_ready workload_namespace sorted ready)
unfolding only_ready partition_cluster_profiles_by_access reason_of
only_ready-IsChoice workload_namespace items sorted [] h =
    inl (rw (← length-select-sort has_access_provider profile_le items) (rw (← h) refl), refl)
only_ready-IsChoice workload_namespace items sorted (p ∷ []) h =
    let (ready, others) = select-one has_access_provider p (sort profile_le items) (sym h) in
    inr (
      inl (
        rw (← length-select-sort has_access_provider profile_le items) (rw (← h) refl),
        (
          p,
          refl,
          ready,
          (All-sort (λ x. (has_access_provider x ≡ false) ⊎ (x ≡ p)) profile_le items).0 others,
        ),
      ))
only_ready-IsChoice workload_namespace items sorted (p ∷ q ∷ rest) h = inr (
    inr (
      rw (← length-select-sort has_access_provider profile_le items) (rw (← h) (omega arith)),
      refl,
    ))

choose_profile-IsChoice :
    (workload_namespace : String) (items : List ClusterProfile)
    → IsChoice items (choose_profile workload_namespace (ok items))
unfolding choose_profile reason_of
choose_profile-IsChoice workload_namespace [] = inl (refl, refl)
choose_profile-IsChoice workload_namespace (p ∷ ps) =
    only_ready-IsChoice workload_namespace (p ∷ ps) (sort profile_le (p ∷ ps)) _ refl

-- Where the ClusterProfiles can be listed, the resolver returns the one that has access providers if
-- exactly one of those listed has them, and fails otherwise: as missing access if none has, and as
-- multiple ClusterProfiles if two or more have.
pub resolve_cluster_profile-IsChoice :
    (reader : HubReader) (namespaces : List String) (workload_namespace : String)
    (items : List ClusterProfile)
    → list_cluster_profiles reader namespaces workload_namespace ≡ ok items
    → IsChoice items (resolve_cluster_profile reader namespaces workload_namespace)
unfolding resolve_cluster_profile
resolve_cluster_profile-IsChoice reader namespaces workload_namespace items h =
    rw (h, resolve_cluster_profile) (choose_profile-IsChoice workload_namespace items)
