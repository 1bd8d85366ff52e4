-- ===== src/Controller/Role/Status/Supported.antt =====
-- The delivery types that a trust policy is rendered for.
use aws_workload_identity_op.Prelude.{◌≡◌, String}
use aws_workload_identity_op.Api.Errors.{Result, ok}
use aws_workload_identity_op.Api.Types.{
  Role, Config, DeliveryType, self_hosted_irsa, eks_pod_identity, eks_irsa, other_delivery,
  ServiceAccountSubject,
}
use aws_workload_identity_op.Controller.Role.Status.{trust_policy_for, trust_policy}
use aws_workload_identity_op.Inventory.{Resolution}

abbrev pub IsSupported : DeliveryType → Type 0
IsSupported (other_delivery _) = ⊥
IsSupported self_hosted_irsa = Unit
IsSupported eks_pod_identity = Unit
IsSupported eks_irsa = Unit

module _ (web_identity : String → String → ServiceAccountSubject → Result String)
    (pod_identity : String → String → ServiceAccountSubject → Result String) where
  trust_policy_for-IsSupported :
      (delivery : DeliveryType) (role : Role) (config : Config) (resolved : Resolution)
      (policy : String)
      → trust_policy_for web_identity pod_identity delivery role config resolved ≡ ok policy
      → IsSupported delivery
  unfolding trust_policy_for
  trust_policy_for-IsSupported self_hosted_irsa role config resolved policy h = tt
  trust_policy_for-IsSupported eks_pod_identity role config resolved policy h = tt
  trust_policy_for-IsSupported eks_irsa role config resolved policy h = tt
  trust_policy_for-IsSupported (other_delivery t) role config resolved policy h = cc

  pub trust_policy-IsSupported :
      (role : Role) (config : Config) (resolved : Resolution) (policy : String)
      → trust_policy web_identity pod_identity role config resolved ≡ ok policy
      → IsSupported config.spec.delivery_type
  unfolding trust_policy
  trust_policy-IsSupported role config resolved policy h =
      trust_policy_for-IsSupported config.spec.delivery_type role config resolved policy h
