-- ===== src/Controller/Role/Status/Readiness.antt =====
-- When a role is reported ready.
use aws_workload_identity_op.Prelude.{ℕ, ◌≡◌, true, none, some, Option, arith, List, ◌↔◌, refl}
use aws_workload_identity_op.Api.ConditionTypes
use aws_workload_identity_op.Api.Conditions.{Condition, StatusConditions, is_status_true}
use aws_workload_identity_op.Api.Types.{
  Config, DeliveryType, self_hosted_irsa, eks_pod_identity, eks_irsa, other_delivery,
}
use aws_workload_identity_op.Controller.Common.Reports.{report_at-set_condition}
use aws_workload_identity_op.Controller.Role.Status.{
  hub_role_resources_ready, compute_role_ready_state, delivery_state, annotation_state,
  pod_identity_state, agent_state, all_ready, set_both, set_hub_ready_conditions, ReadyState,
}

module _ (k : StatusConditions) where
  abbrev pub IsAgentReady : Option Condition → Type 0
  IsAgentReady none = ⊥
  IsAgentReady (some c) = is_status_true c.report.status ≡ true

  -- What a delivery type asks for beside the IAM resources.
  abbrev pub IsDelivered : List Condition → Config → DeliveryType → Type 0
  IsDelivered cs config self_hosted_irsa =
      (k.is_true cs ConditionTypes.service_account_annotation_ready ≡ true)
      × (k.is_true config.status.conditions ConditionTypes.ready ≡ true)
  IsDelivered cs config eks_irsa =
      (k.is_true cs ConditionTypes.service_account_annotation_ready ≡ true)
      × (k.is_true config.status.conditions ConditionTypes.ready ≡ true)
  IsDelivered cs config eks_pod_identity =
      (k.is_true cs ConditionTypes.pod_identity_assoc_ready ≡ true)
      × IsAgentReady (k.find_status cs ConditionTypes.pod_identity_agent_ready)
  IsDelivered cs config (other_delivery _) = Unit

  agent_state-IsAgentReady :
      (c : Option Condition) → (is_status_true (agent_state k c).0 ≡ true) ↔ IsAgentReady c
  unfolding agent_state all_ready
  agent_state-IsAgentReady none = ground arith
  agent_state-IsAgentReady (some c) = ground arith

  delivery_state-IsDelivered :
      (cs : List Condition) (config : Config) (delivery : DeliveryType)
      → (is_status_true (delivery_state k cs delivery config).0 ≡ true)
        ↔ IsDelivered cs config delivery
  unfolding delivery_state annotation_state pod_identity_state all_ready
  delivery_state-IsDelivered cs config self_hosted_irsa = ground arith
  delivery_state-IsDelivered cs config eks_irsa = ground arith
  delivery_state-IsDelivered cs config eks_pod_identity =
      ground
        (arith, agent_state-IsAgentReady (k.find_status cs ConditionTypes.pod_identity_agent_ready))
  delivery_state-IsDelivered cs config (other_delivery _) = ground arith

  compute_role_ready_state-IsDelivered :
      (cs : List Condition) (config : Config) (delivery : DeliveryType)
      → (is_status_true (compute_role_ready_state k cs delivery config).0 ≡ true)
        ↔ (k.is_true cs ConditionTypes.role_ready ≡ true)
          × (k.is_true cs ConditionTypes.policy_ready ≡ true)
          × IsDelivered cs config delivery
  unfolding compute_role_ready_state hub_role_resources_ready
  compute_role_ready_state-IsDelivered cs config delivery =
      ground (arith, delivery_state-IsDelivered cs config delivery)

  set_both-status :
      (cs : List Condition) (generation : ℕ) (s : ReadyState k)
      → (k.is_true (set_both k cs generation s) ConditionTypes.ready ≡ is_status_true s.0)
        × (k.is_true (set_both k cs generation s) ConditionTypes.delivery_ready
            ≡ is_status_true s.0)
  unfolding set_both
  set_both-status cs generation (status, (reason, message)) = (
    rw (k.is_true_lem, report_at-set_condition) refl,
    rw (k.is_true_lem, report_at-set_condition, report_at-set_condition) refl,
  )

  -- After the call the Ready condition of a role is True exactly when its IAM role and policy are, and
  -- what its delivery type asks for is too: for annotation-based delivery the annotations of the service
  -- account and the config of the namespace, for pod identity the association and the agent. The
  -- DeliveryReady condition always agrees.
  pub set_hub_ready_conditions-IsDelivered :
      (cs : List Condition) (generation : ℕ) (delivery : DeliveryType) (config : Config)
      → (let after = set_hub_ready_conditions k cs generation delivery config in
          ((k.is_true after ConditionTypes.ready ≡ true)
            ↔ (k.is_true cs ConditionTypes.role_ready ≡ true)
              × (k.is_true cs ConditionTypes.policy_ready ≡ true)
              × IsDelivered cs config delivery)
          × (k.is_true after ConditionTypes.delivery_ready ≡ k.is_true after ConditionTypes.ready))
  unfolding set_hub_ready_conditions
  set_hub_ready_conditions-IsDelivered cs generation delivery config =
      let (ready, agrees) =
        set_both-status cs generation (compute_role_ready_state k cs delivery config) in
      (rw ready (compute_role_ready_state-IsDelivered cs config delivery), rw (ready, agrees) refl)
