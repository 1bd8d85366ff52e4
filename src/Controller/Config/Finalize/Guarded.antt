-- ===== src/Controller/Config/Finalize/Guarded.antt =====
-- When the deletion of a config touches the remote clusters.
use aws_workload_identity_op.Prelude.{
  String, ◌≡◌, Bool, true, false, not, ◌&&◌, ◌⊎◌, List, [], ◌∷◌, Bool-cases, inl, inr, arith, refl,
}
use aws_workload_identity_op.Api.Conditions.{StatusConditions}
use aws_workload_identity_op.Api.Errors.{Result, ok, err}
use aws_workload_identity_op.Api.Types.{Role, Config, NamespacedName, is_force_delete}
use aws_workload_identity_op.Controller.Config.Delete.{Branch}
use aws_workload_identity_op.Controller.Config.Finalize.{
  released, release, after_children, blocked, after_runtime, has_roles, after_roles,
  reconcile_delete_config,
}
use aws_workload_identity_op.Controller.Config.Runtime.{remote_cluster_targets}
use aws_workload_identity_op.Controller.Config.Server.{RuntimeClient, ConfigServer}
use aws_workload_identity_op.Controller.Config.Sharing.{delete_remote_webhook_runtime}
use aws_workload_identity_op.Controller.Config.Sharing.Unshared.{
  IsUnshared, delete_remote_webhook_runtime-keeps,
}

module _ (k : StatusConditions) {S R : Type 0} (server : ConfigServer S R) (Q : R → Type 0) where
  released-keeps : (r : R) (x : Result (Unit {0}) × S) → Q r → Q (released k server r x).2
  unfolding released
  released-keeps r (ok _, s) q = q
  released-keeps r (err e, s) q = q

  release-keeps : (r : R) (x : Config × (Result (Unit {0}) × S)) → Q r → Q (release k server r x).2
  unfolding release
  release-keeps r (c, (err e, s)) q = q
  release-keeps r (c, (ok _, s)) q = released-keeps r _ q

  after_children-keeps :
      (c : Config) (r : R) (x : Result (Unit {0}) × S) → Q r → Q (after_children k server c r x).2
  unfolding after_children
  after_children-keeps c r (err e, s) q = q
  after_children-keeps c r (ok _, s) q = release-keeps r _ q

  blocked-keeps : (r : R) (x : Result (Unit {0}) × S) → Q r → Q (blocked k server r x).2
  unfolding blocked
  blocked-keeps r (ok _, s) q = q
  blocked-keeps r (err e, s) q = q

  after_runtime-keeps :
      (order : List Branch) (c : Config) (s : S) (x : Result (Unit {0}) × R)
      → Q x.1
      → Q (after_runtime k server order c s x).2
  unfolding after_runtime
  after_runtime-keeps order c s (ok _, r) q = after_children-keeps c r _ q
  after_runtime-keeps order c s (err e, r) q = blocked-keeps r _ q

  -- No role is left in the namespace, or the deletion is forced.
  abbrev pub IsReleasable : Config → S → Type 0
  IsReleasable c s = (server.list_roles s c.meta.namespace 1 ≡ ok []) ⊎ (is_force_delete c ≡ true)

  releasable :
      (c : Config) (s : S) (roles : List Role) (force : Bool)
      → is_force_delete c ≡ force
      → server.list_roles s c.meta.namespace 1 ≡ ok roles
      → (has_roles k server roles && not force) ≡ false
      → IsReleasable c s
  unfolding has_roles
  releasable c s [] force f h free = inl h
  releasable c s (r ∷ rs) true f h free = inr f
  releasable c s (r ∷ rs) false f h free = ground (arith, free)

  module _ (c : Config) (s : S)
      (deletes : (cluster : NamespacedName) (client : RuntimeClient R) (namespace : String) (r : R)
        → IsReleasable c s
        → IsUnshared server c s cluster
        → remote_cluster_targets server.get_cluster r cluster ≡ ok client
        → Q r
        → Q (client.delete namespace r).1) where
    after_roles-keeps :
        (order : List Branch) (r : R) (roles : Result (List Role))
        → server.list_roles s c.meta.namespace 1 ≡ roles
        → Q r
        → Q (after_roles k server order c s r roles).2
    unfolding after_roles
    after_roles-keeps order r (err e) h q = q
    after_roles-keeps order r (ok roles) h q =
        elim (Bool-cases (has_roles k server roles && not (is_force_delete c))) [
          | inl held ↦ simp held (blocked-keeps r _ q)
          | inr free ↦ simp free (
              after_runtime-keeps order c s (delete_remote_webhook_runtime server c s r) (
                delete_remote_webhook_runtime-keeps server c s Q
                  (λ cluster client namespace r' u found q'.
                    deletes cluster client namespace r'
                      (releasable c s roles (is_force_delete c) refl h free) u found q')
                  r q))
        ]

    -- The deletion of a config changes the remote clusters only by deleting the webhook runtime on the
    -- cluster that its own inventory resolves to, and only if no role is left in its namespace, or the
    -- deletion is forced, and if every other live self-hosted config resolves to another cluster and
    -- does not record this one.
    pub reconcile_delete_config-keeps :
        (order : List Branch) (r : R) → Q r → Q (reconcile_delete_config k server order c s r).2
    unfolding reconcile_delete_config
    reconcile_delete_config-keeps order r q =
        after_roles-keeps order r (server.list_roles s c.meta.namespace 1) refl q
