-- ===== src/Controller/Config/Finalize/Forced.antt =====
-- The deletion of a config that is forced.
use aws_workload_identity_op.Prelude.{
  String, ◌≡◌, Bool, true, false, not, ◌&&◌, List, Bool-cases, inl, inr, arith, refl,
}
use aws_workload_identity_op.Api.ConditionTypes
use aws_workload_identity_op.Api.Conditions.{StatusConditions, status_false}
use aws_workload_identity_op.Api.Constants
use aws_workload_identity_op.Api.Errors.{Result, ok, err}
use aws_workload_identity_op.Api.Reasons
use aws_workload_identity_op.Api.Types.{Config, ConfigStatus, Role, NamespacedName, is_force_delete}
use aws_workload_identity_op.Controller.Common.Finalizers.{remove_finalizer, removed}
use aws_workload_identity_op.Controller.Config.Delete.{Branch, delete_config_children}
use aws_workload_identity_op.Controller.Config.Delete.Complete.{
  IsKnown, Succeeds, IsServing, delete_config_children-Succeeds,
}
use aws_workload_identity_op.Controller.Config.Finalize.{
  Deleted, with_blocked, clear_deletion_blocked, patch_meta, released, release, after_children,
  after_runtime, has_roles, after_roles, reconcile_delete_config,
}
use aws_workload_identity_op.Controller.Config.Issuer.{self_hosted_publisher}
use aws_workload_identity_op.Controller.Config.Reconcile.{patched, patch_config_status}
use aws_workload_identity_op.Controller.Config.Server.{ConfigChildKind, ConfigChild, ConfigServer}
use aws_workload_identity_op.Controller.Config.Sharing.{delete_remote_webhook_runtime}
use aws_workload_identity_op.Controller.Config.Sharing.Forced.{
  IsOk, delete_remote_webhook_runtime-IsOk,
}

-- The deletion ended without an error, with nothing to come back for, and left a state that satisfies Q.
abbrev pub IsReleased : {S R : Type 0} → (S → Type 0) → Deleted S R → Type 0
IsReleased Q (ok t, s, r) = (t ≡ 0) × Q s
IsReleased Q (err e, s, r) = ⊥

abbrev pub IsListed : Result (List Role) → Type 0
IsListed (ok roles) = Unit {0}
IsListed (err e) = ⊥

module _ (k : StatusConditions) {S R : Type 0} (server : ConfigServer S R) (c : Config)
    (P Q : S → Type 0)
    (has_finalizer : server.finalizer_lists.contains c.meta.finalizers Constants.config_finalizer
      ≡ true)
    (patches_status : (c' : Config) (s : S) → P s → Succeeds P (server.patch_status c' s))
    (patches_finalizers : (c' : Config) (s : S)
      → server.finalizer_lists.contains c'.meta.finalizers Constants.config_finalizer ≡ false
      → P s
      → Succeeds Q (server.patch_finalizers c' s)) where
  patched-Succeeds :
      (c' : Config) (x : Result (Unit {0}) × S) → Succeeds P x → Succeeds P (patched k server c' x)
  unfolding patched
  patched-Succeeds c' (ok _, s) p = p
  patched-Succeeds c' (err _, s) p = elim p [ ]

  patch_config_status-Succeeds :
      (c' : Config) (before : ConfigStatus) (s : S)
      → P s
      → Succeeds P (patch_config_status k server c' before s)
  unfolding patch_config_status
  patch_config_status-Succeeds c' before s p =
      elim (Bool-cases (server.statuses_equal before c'.status)) [
        | inl same ↦ simp same p
        | inr differs ↦
            simp differs (patched-Succeeds c' (server.patch_status c' s) (patches_status c' s p))
      ]

  removed-Succeeds :
      (c' : Config) (prefix : String) (x : Result (Unit {0}) × S)
      → Succeeds Q x
      → Succeeds Q (removed server.finalizer_lists (patch_meta k server c') x prefix)
  unfolding removed
  removed-Succeeds c' prefix (ok _, s) q = q
  removed-Succeeds c' prefix (err _, s) q = elim q [ ]

  remove_finalizer-Succeeds :
      (c' : Config) (s : S)
      → server.finalizer_lists.contains c'.meta.finalizers Constants.config_finalizer ≡ true
      → P s
      → Succeeds Q (
          remove_finalizer server.finalizer_lists
            (patch_meta k server c')
            c'.meta
            Constants.config_finalizer
            s)
  unfolding remove_finalizer patch_meta
  remove_finalizer-Succeeds c' s has p =
      let lists = server.finalizer_lists in
      let m = record c'.meta {
        finalizers = lists.remove c'.meta.finalizers Constants.config_finalizer;
      } in
      let gone : lists.contains m.finalizers Constants.config_finalizer ≡ false =
        lists.contains-remove c'.meta.finalizers Constants.config_finalizer
          Constants.config_finalizer in
      simp has (
        removed-Succeeds c' _ (patch_meta k server c' m s)
          (patches_finalizers (record c' { meta = m }) s gone p))

  released-IsReleased :
      (r : R) (x : Result (Unit {0}) × S) → Succeeds Q x → IsReleased Q (released k server r x)
  unfolding released
  released-IsReleased r (ok _, s) q = (refl, q)
  released-IsReleased r (err _, s) q = elim q [ ]

  release-IsReleased :
      (c' : Config) (r : R) (x : Result (Unit {0}) × S)
      → server.finalizer_lists.contains c'.meta.finalizers Constants.config_finalizer ≡ true
      → Succeeds P x
      → IsReleased Q (release k server r (c', x))
  unfolding release
  release-IsReleased c' r (ok _, s) has p =
      released-IsReleased r _ (remove_finalizer-Succeeds c' s has p)
  release-IsReleased c' r (err _, s) has p = elim p [ ]

  clear-IsReleased :
      (r : R) (s : S)
      → P s
      → IsReleased Q (release k server r (clear_deletion_blocked k server c s))
  unfolding clear_deletion_blocked
  clear-IsReleased r s p =
      elim (Bool-cases (k.is_true c.status.conditions ConditionTypes.deletion_blocked)) [
        | inl blocked_one ↦ simp blocked_one (
            release-IsReleased
              (with_blocked k server c status_false Reasons.deletion_unblocked
                "deletion is no longer blocked")
              r _ has_finalizer (patch_config_status-Succeeds _ c.status s p))
        | inr free ↦ simp free (release-IsReleased c r (ok tt, s) has_finalizer p)
      ]

  after_children-IsReleased :
      (r : R) (x : Result (Unit {0}) × S)
      → Succeeds P x
      → IsReleased Q (after_children k server c r x)
  unfolding after_children
  after_children-IsReleased r (ok _, s) p = clear-IsReleased r s p
  after_children-IsReleased r (err _, s) p = elim p [ ]

  module _ (force : is_force_delete c ≡ true)
      (listed : (s : S) → P s → IsListed (server.list_roles s c.meta.namespace 1))
      (known : (kind : ConfigChildKind) (key : NamespacedName) (s : S)
        → P s
        → IsKnown (server.get_child s kind key))
      (deletes : (child : ConfigChild) (s : S) → P s → Succeeds P (server.delete_child child s))
      (serves : (s : S)
        → P s
        → IsServing P (self_hosted_publisher server.publisher_factory s c.spec.region)) where
    after_runtime-IsReleased :
        (order : List Branch) (s : S) (x : Result (Unit {0}) × R)
        → IsOk x
        → P s
        → IsReleased Q (after_runtime k server order c s x)
    unfolding after_runtime
    after_runtime-IsReleased order s (ok _, r) o p =
        after_children-IsReleased r (delete_config_children server order c s)
          (delete_config_children-Succeeds server c P known deletes serves order s p)
    after_runtime-IsReleased order s (err _, r) o p = elim o [ ]

    unheld : (b : Bool) → (b && not (is_force_delete c)) ≡ false
    unheld b = ground (arith, force)

    after_roles-IsReleased :
        (order : List Branch) (s : S) (r : R) (roles : Result (List Role))
        → IsListed roles
        → P s
        → IsReleased Q (after_roles k server order c s r roles)
    unfolding after_roles
    after_roles-IsReleased order s r (ok roles) l p = simp (unheld (has_roles k server roles)) (
        after_runtime-IsReleased order s (delete_remote_webhook_runtime server c s r)
          (delete_remote_webhook_runtime-IsOk server c force s r) p)
    after_roles-IsReleased order s r (err _) l p = elim l [ ]

    -- A forced deletion releases a config that has the finalizer, whatever roles are left and however
    -- the remote cluster answers: if the roles can be listed, each child is read or is known to be gone,
    -- the publisher is there, and the deletions and the patches succeed, then it ends without an error
    -- or another pass, after a patch that has removed the finalizer.
    pub reconcile_delete_config-IsReleased :
        (order : List Branch) (s : S) (r : R)
        → P s
        → IsReleased Q (reconcile_delete_config k server order c s r)
    unfolding reconcile_delete_config
    reconcile_delete_config-IsReleased order s r p =
        after_roles-IsReleased order s r (server.list_roles s c.meta.namespace 1) (listed s p) p
