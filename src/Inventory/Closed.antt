-- ===== src/Inventory/Closed.antt =====
-- The inventory fails closed, and its answer on a collision agrees with that of the remote resolver.
use aws_workload_identity_op.Prelude.{
  ◌≡◌, ◌≤◌, String, true, false, some, arith, List, [], ◌∷◌, All, length, ◌⊎◌, inl, inr, refl, sym,
}
use aws_workload_identity_op.Prelude.Sorting.{All-sort, length-select-sort, sort}
use aws_workload_identity_op.Api.Reasons
use aws_workload_identity_op.Api.Errors.{ok, err, Result}
use aws_workload_identity_op.RemoteIrsa.Options.{ClusterProfile}
use aws_workload_identity_op.RemoteIrsa.ClusterProfiles.{
  has_access_provider, partition_cluster_profiles_by_access, profile_labels, profile_le,
}
use aws_workload_identity_op.RemoteIrsa.ClusterProfiles.Choice.{ready_of, select-one}
use aws_workload_identity_op.Inventory.{
  ProfileLister, Resolution, resolve_inventory, resolution_of, lookup_in, choose,
  resolution_for_profile, find_ocm_cluster_profile,
}

-- The answers that a list of ClusterProfiles allows: not ready for the reason that the count of those
-- with access providers gives, or the identity of the only one that has them.
abbrev pub IsClosed : List ClusterProfile → Result Resolution → Type 0
IsClosed items (err e) = ⊥
IsClosed items (ok r) =
    (length (ready_of items) ≡ 0)
      × (r.ready ≡ false)
      × (r.reason ≡ (elim items [
        | [] ↦ Reasons.cluster_profile_not_found
        | _ ∷ _ ↦ Reasons.inventory_unavailable
      ]))
    ⊎ (length (ready_of items) ≡ 1)
      × (r.ready ≡ true)
      × ((p : ClusterProfile) × (r ≡ resolution_for_profile p)
          × (has_access_provider p ≡ true)
          × All (λ x. (has_access_provider x ≡ false) ⊎ (x ≡ p)) items)
    ⊎ (2 ≤ length (ready_of items)) × (r.ready ≡ false) × (r.reason ≡ Reasons.inventory_ambiguous)

choose-IsClosed :
    (namespace : String) (q : ClusterProfile) (qs ready : List ClusterProfile)
    → ready ≡ partition_cluster_profiles_by_access (q ∷ qs)
    → IsClosed (q ∷ qs) (resolution_of namespace (choose namespace ready))
unfolding resolution_of choose partition_cluster_profiles_by_access resolution_for_profile
choose-IsClosed namespace q qs [] h =
    inl (
      rw (← length-select-sort has_access_provider profile_le (q ∷ qs)) (rw (← h) refl),
      refl,
      refl,
    )
choose-IsClosed namespace q qs (p ∷ []) h =
    let (ready, others) = select-one has_access_provider p (sort profile_le (q ∷ qs)) (sym h) in
    simp ready (
      inr (
        inl (
          rw (← length-select-sort has_access_provider profile_le (q ∷ qs)) (rw (← h) refl),
          refl,
          (
            p,
            refl,
            ready,
            (All-sort (λ x. (has_access_provider x ≡ false) ⊎ (x ≡ p)) profile_le (q ∷ qs)).0
                others,
          ),
        )))
choose-IsClosed namespace q qs (p ∷ r ∷ rest) h = inr (
    inr (
      rw (← length-select-sort has_access_provider profile_le (q ∷ qs)) (rw (← h) (omega arith)),
      refl,
      refl,
    ))

lookup_in-IsClosed :
    (namespace : String) (items : List ClusterProfile)
    → IsClosed items (resolution_of namespace (lookup_in namespace (ok items)))
unfolding lookup_in resolution_of
lookup_in-IsClosed namespace [] = inl (refl, refl, refl)
lookup_in-IsClosed namespace (p ∷ ps) = choose-IsClosed namespace p ps _ refl

-- Where the ClusterProfiles can be listed, the resolution is ready exactly when a single one of them has access
-- providers, and then carries the identity of that one. With none it is not found or unavailable, and
-- with two or more it is ambiguous: no credentials are routed at an arbitrary winner.
pub resolve_inventory-IsClosed :
    (list : ProfileLister) (namespace : String) (items : List ClusterProfile)
    → list (profile_labels namespace) ≡ ok items
    → IsClosed items (resolve_inventory (some list) namespace)
unfolding resolve_inventory find_ocm_cluster_profile
resolve_inventory-IsClosed list namespace items h =
    rw (h, resolve_inventory) (lookup_in-IsClosed namespace items)
