-- ===== src/RemoteIrsa/Options/Validation.antt =====
-- The options that validate accepts.
use aws_workload_identity_op.Prelude.{◌≡◌, ◌==◌, true, false, none, arith, ◌↔◌, ◌⊎◌, is_some}
use aws_workload_identity_op.Prelude.Int.{pos, ◌≤ℤ◌}
use aws_workload_identity_op.RemoteIrsa.Options.{
  Options, validate, second, min_sts_session_duration, max_sts_session_duration,
}

pub record IsComplete {R : Type 0} (o : Options R) : Type 0 where
  pub workload_namespace : (o.workload_namespace == "") ≡ false
  pub service_account_namespace : (o.service_account.namespace == "") ≡ false
  pub service_account_name : (o.service_account.name == "") ≡ false
  pub session_name : (o.session_name == "") ≡ false
  pub hub_resolver : is_some o.hub_resolver ≡ true
  pub remote_config_resolver : is_some o.remote_config_resolver ≡ true
  pub token_requester : is_some o.token_requester ≡ true
  pub sts_client_factory : is_some o.sts_client_factory ≡ true
  pub token_expiration : pos second ≤ℤ o.token_expiration
  pub session_duration :
      (o.session_duration ≡ pos 0)
      ⊎ (min_sts_session_duration ≤ℤ o.session_duration)
        × (o.session_duration ≤ℤ max_sts_session_duration)

-- Validation accepts exactly the options that name a workload namespace, a service account and a
-- session, have the four dependencies, ask for a token of at least one second, and ask for no session
-- duration or for one from 15 minutes to 12 hours.
pub validate-IsComplete : {R : Type 0} (o : Options R) → (validate o ≡ none) ↔ IsComplete o
unfolding validate
validate-IsComplete o = (λ e. ground arith, λ h. ground arith)
