-- ===== src/Controller/Config/Sharing/Unshared.antt =====
-- The remote webhook runtime is deleted only where no other config shares it.
use aws_workload_identity_op.Prelude.{
  String, ◌==◌, ◌≡◌, Bool, true, false, not, any, if◌then◌else◌, List, [], ◌∷◌, All, Bool-cases,
  inl, inr, arith, refl, ◌⊎◌,
}
use aws_workload_identity_op.Api.Errors.{Result, ok, err}
use aws_workload_identity_op.Api.Types.{
  Config, NamespacedName, name_text, same_name, is_force_delete,
}
use aws_workload_identity_op.Controller.Config.Runtime.{remote_cluster_targets}
use aws_workload_identity_op.Controller.Config.Server.{RuntimeClient, ConfigServer}
use aws_workload_identity_op.Controller.Config.Sharing.{
  is_live_sibling, resolve_at, on_cluster, shared_by, by_list, by_index,
  remote_runtime_shared_by_other_config, delete_in, delete_on, unless_shared, delete_resolved,
  delete_remote_webhook_runtime_strict, forced, delete_remote_webhook_runtime,
}
use aws_workload_identity_op.Controller.Config.Status.{is_self_hosted}
use aws_workload_identity_op.Inventory.{Resolution}

not_shared :
    (live recorded : Bool) (rest x : Result Bool)
    → (if not live then rest else if recorded then ok true else x) ≡ ok false
    → ((live ≡ false) × (rest ≡ ok false)) ⊎ ((recorded ≡ false) × (x ≡ ok false))
not_shared false recorded rest x h = inl (refl, h)
not_shared true true rest x h = ground (arith, h)
not_shared true false rest x h = inr (refl, h)

not_indexed :
    (found : Bool) (x : Result Bool) → (if found then ok true else x) ≡ ok false → x ≡ ok false
not_indexed true x h = ground (arith, h)
not_indexed false x h = h

module _ {S R : Type 0} (server : ConfigServer S R) (config : Config) (s : S) where
  -- A config that its inventory puts on another cluster, and that does not record the cluster.
  pub record IsElsewhere (cluster : NamespacedName) (other : Config) : Type 0 where
    pub resolution : Resolution
    pub resolved : resolve_at server s other.meta.namespace ≡ ok resolution
    pub ready : resolution.ready ≡ true
    pub elsewhere : same_name resolution.cluster_name cluster ≡ false
    pub unrecorded : (other.status.resolved_cluster_name == name_text cluster) ≡ false

  abbrev pub IsSeparate : NamespacedName → Config → Type 0
  IsSeparate cluster other = is_live_sibling config other ≡ true → IsElsewhere cluster other

  on_cluster-IsElsewhere :
      (cluster : NamespacedName) (other : Config) (rest : Result Bool) (found : Result Resolution)
      → resolve_at server s other.meta.namespace ≡ found
      → (other.status.resolved_cluster_name == name_text cluster) ≡ false
      → on_cluster server other cluster found rest ≡ ok false
      → IsElsewhere cluster other × (rest ≡ ok false)
  unfolding on_cluster
  on_cluster-IsElsewhere cluster other rest (err e) h u f = ground (arith, f)
  on_cluster-IsElsewhere cluster other rest (ok resolution) h u f =
      let ready : resolution.ready ≡ true = ground (arith, f) in
      let elsewhere : same_name resolution.cluster_name cluster ≡ false = ground (arith, f) in
      (
        record {
          resolution = resolution;
          resolved = h;
          ready = ready;
          elsewhere = elsewhere;
          unrecorded = u;
        },
        ground (arith, f),
      )

  shared_by-IsSeparate :
      (cluster : NamespacedName) (others : List Config)
      → shared_by server config cluster s others ≡ ok false
      → All (IsSeparate cluster) others
  unfolding shared_by
  shared_by-IsSeparate cluster [] h = tt
  shared_by-IsSeparate cluster (other ∷ others) h =
      let rest = shared_by server config cluster s others in
      let resolved = resolve_at server s other.meta.namespace in
      elim (not_shared (is_live_sibling config other)
        (other.status.resolved_cluster_name == name_text cluster) rest
        (on_cluster server other cluster resolved rest) h) [
          | inl gone ↦
              ((λ live. ground (arith, live, gone.0)), shared_by-IsSeparate cluster others gone.1)
          | inr live ↦
              let found = on_cluster-IsElsewhere cluster other rest resolved refl live.0 live.1 in
              ((λ _. found.0), shared_by-IsSeparate cluster others found.1)
        ]

  -- The cluster is that of the config, and no live self-hosted config beside it is on it.
  pub record IsUnshared (cluster : NamespacedName) : Type 0 where
    pub resolution : Resolution
    pub resolved : resolve_at server s config.meta.namespace ≡ ok resolution
    pub own : resolution.cluster_name ≡ cluster
    pub others : List Config
    pub listed : server.list_configs s ≡ ok others
    pub separate : All (IsSeparate cluster) others

  by_list-IsSeparate :
      (cluster : NamespacedName) (answer : Result (List Config))
      → server.list_configs s ≡ answer
      → by_list server config cluster s answer ≡ ok false
      → (others : List Config) × (server.list_configs s ≡ ok others)
        × All (IsSeparate cluster) others
  unfolding by_list
  by_list-IsSeparate cluster (ok others) h f = (others, h, shared_by-IsSeparate cluster others f)
  by_list-IsSeparate cluster (err e) h f = ground (arith, f)

  by_index-IsSeparate :
      (cluster : NamespacedName) (answer : Result (List Config))
      → by_index server config cluster s answer ≡ ok false
      → (others : List Config) × (server.list_configs s ≡ ok others)
        × All (IsSeparate cluster) others
  unfolding by_index
  by_index-IsSeparate cluster (err e) f = ground (arith, f)
  by_index-IsSeparate cluster (ok indexed) f =
      by_list-IsSeparate cluster (server.list_configs s) refl (
        not_indexed (any (is_live_sibling config) indexed)
          (by_list server config cluster s (server.list_configs s)) f)

  -- The remote runtime is deleted only on a cluster that is not shared.
  module _ (Q : R → Type 0)
      (deletes : (cluster : NamespacedName) (client : RuntimeClient R) (namespace : String) (r : R)
        → IsUnshared cluster
        → remote_cluster_targets server.get_cluster r cluster ≡ ok client
        → Q r
        → Q (client.delete namespace r).1) where
    delete_in-keeps :
        (cluster : NamespacedName) (client : RuntimeClient R) (r : R) (namespace : Result String)
        → IsUnshared cluster
        → remote_cluster_targets server.get_cluster r cluster ≡ ok client
        → Q r
        → Q (delete_in server client r namespace).1
    unfolding delete_in
    delete_in-keeps cluster client r (err e) u c q = q
    delete_in-keeps cluster client r (ok namespace) u c q = deletes cluster client namespace r u c q

    delete_on-keeps :
        (cluster : NamespacedName) (r : R) (client : Result (RuntimeClient R))
        → IsUnshared cluster
        → remote_cluster_targets server.get_cluster r cluster ≡ client
        → Q r
        → Q (delete_on server config s r client).1
    unfolding delete_on
    delete_on-keeps cluster r (err e) u c q = q
    delete_on-keeps cluster r (ok client) u c q = delete_in-keeps cluster client r _ u c q

    unless_shared-keeps :
        (cluster : NamespacedName) (r : R) (shared : Result Bool)
        → (shared ≡ ok false → IsUnshared cluster)
        → Q r
        → Q (unless_shared server config cluster s r shared).1
    unfolding unless_shared
    unless_shared-keeps cluster r (err e) u q = q
    unless_shared-keeps cluster r (ok true) u q = q
    unless_shared-keeps cluster r (ok false) u q =
        delete_on-keeps cluster r (remote_cluster_targets server.get_cluster r cluster) (u refl)
          refl q

    delete_resolved-keeps :
        (r : R) (found : Result Resolution)
        → resolve_at server s config.meta.namespace ≡ found
        → Q r
        → Q (delete_resolved server config s r found).1
    unfolding delete_resolved remote_runtime_shared_by_other_config
    delete_resolved-keeps r (err e) h q = q
    delete_resolved-keeps r (ok resolution) h q = elim (Bool-cases resolution.ready) [
      | inr waiting ↦ simp waiting q
      | inl ready ↦ simp ready (
          unless_shared-keeps resolution.cluster_name r
            (by_index server config resolution.cluster_name s
              (server.list_configs_by_cluster s (name_text resolution.cluster_name)))
            (λ f.
              let found = by_index-IsSeparate resolution.cluster_name _ f in
              record {
                resolution = resolution;
                resolved = h;
                own = refl;
                others = found.0;
                listed = found.1;
                separate = found.2;
              })
            q)
    ]

    forced-keeps : (x : Result (Unit {0}) × R) → Q x.1 → Q (forced server config x).1
    unfolding forced
    forced-keeps (ok _, r) q = q
    forced-keeps (err e, r) q = elim (Bool-cases (is_force_delete config)) [
      | inl force ↦ simp force q
      | inr other ↦ simp other q
    ]

    pub delete_remote_webhook_runtime-keeps :
        (r : R) → Q r → Q (delete_remote_webhook_runtime server config s r).1
    unfolding delete_remote_webhook_runtime delete_remote_webhook_runtime_strict
    delete_remote_webhook_runtime-keeps r q =
        elim (Bool-cases (is_self_hosted config.spec.delivery_type)) [
          | inl hosted ↦ simp hosted (
              forced-keeps
                (delete_resolved server config s r (resolve_at server s config.meta.namespace))
                (delete_resolved-keeps r (resolve_at server s config.meta.namespace) refl q))
          | inr other ↦ simp other q
        ]
