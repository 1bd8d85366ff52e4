-- ===== src/Controller/Config/Sharing/Forced.antt =====
-- The remote clean-up of a config whose deletion is forced.
use aws_workload_identity_op.Prelude.{◌≡◌, true, Bool-cases, inl, inr}
use aws_workload_identity_op.Api.Errors.{Result, ok, err}
use aws_workload_identity_op.Api.Types.{Config, is_force_delete}
use aws_workload_identity_op.Controller.Config.Server.{ConfigServer}
use aws_workload_identity_op.Controller.Config.Sharing.{
  forced, delete_remote_webhook_runtime_strict, delete_remote_webhook_runtime,
}
use aws_workload_identity_op.Controller.Config.Status.{is_self_hosted}

abbrev pub IsOk : {R : Type 0} → Result (Unit {0}) × R → Type 0
IsOk (ok _, r) = Unit {0}
IsOk (err e, r) = ⊥

module _ {S R : Type 0} (server : ConfigServer S R) (c : Config)
    (force : is_force_delete c ≡ true) where
  forced-IsOk : (x : Result (Unit {0}) × R) → IsOk (forced server c x)
  unfolding forced
  forced-IsOk (ok _, r) = tt
  forced-IsOk (err e, r) = simp force tt

  pub delete_remote_webhook_runtime-IsOk :
      (s : S) (r : R) → IsOk (delete_remote_webhook_runtime server c s r)
  unfolding delete_remote_webhook_runtime
  delete_remote_webhook_runtime-IsOk s r = elim (Bool-cases (is_self_hosted c.spec.delivery_type)) [
    | inl hosted ↦ simp hosted (forced-IsOk (delete_remote_webhook_runtime_strict server c s r))
    | inr other ↦ simp other tt
  ]
