-- ===== src/Controller/Config/Status/Readiness.antt =====
-- When a config is reported ready.
use aws_workload_identity_op.Prelude.{
  ◌≡◌, Bool, true, false, not, ◌&&◌, ◌||◌, Option, none, some, Bool-cases, inl, inr, arith, refl,
  if◌then◌else◌, String, ◌==◌, ◌∙◌, sym, ◌⊎◌,
}
use mathlib.Core.Option
use aws_workload_identity_op.Api.ConditionTypes
use aws_workload_identity_op.Api.Reasons
use aws_workload_identity_op.Api.Conditions.{
  Condition, StatusConditions, is_status_true, is_report_true, ConditionStatus,
}
use aws_workload_identity_op.Api.Types.{Config}
use aws_workload_identity_op.Controller.Common.{set_condition}
use aws_workload_identity_op.Controller.Common.Reports.{report_at-set_condition}
use aws_workload_identity_op.Controller.Config.Status.{
  is_self_hosted, is_found_true, propagate_not_ready, reconciled_config, after_issuer,
  set_config_ready_condition,
}
use aws_workload_identity_op.Controller.Config.Steps.{set_on}
use aws_workload_identity_op.Inventory.{Resolution}

module _ (k : StatusConditions) where
  abbrev pub is_true_of : Config → String → Bool
  is_true_of c t = k.is_true c.status.conditions t

  -- What a ready config needs beside its inventory.
  abbrev pub components_ready : Config → Bool
  components_ready c =
      is_true_of c ConditionTypes.issuer_ready
      && (not (is_self_hosted c.spec.delivery_type)
          || is_true_of c ConditionTypes.webhook_runtime_ready)

  pub set_on-is_true :
      (c : Config) (condition_type : String) (status : ConditionStatus) (reason message t : String)
      → is_true_of (set_on k c condition_type status reason message) t
        ≡ (if condition_type == t then is_status_true status else is_true_of c t)
  unfolding set_on set_condition
  set_on-is_true c condition_type status reason message t =
      let written =
        report_at-set_condition k c.status.conditions c.meta.generation condition_type status reason
          message t in
      elim (Bool-cases (condition_type == t)) [
        | inl same ↦ rw (k.is_true_lem _ t) (rw written (simp same refl))
        | inr other ↦ rw (k.is_true_lem _ t) (rw written (simp other (sym (k.is_true_lem _ t))))
      ]

  found_report :
      (x : Option Condition) → is_found_true k x ≡ is_report_true (Option.map (λ c. c.report) x)
  unfolding is_found_true
  found_report none = refl
  found_report (some c) = refl

  found-is_true :
      (c : Config) (t : String)
      → is_found_true k (k.find_status c.status.conditions t) ≡ is_true_of c t
  unfolding is_found_true
  found-is_true c t = found_report _ ∙ sym (k.is_true_lem _ t)

  -- A dependency that is not ready leaves the config not ready.
  abbrev Waits : Bool × Config → Type 0
  Waits x = (x.0 ≡ true) × (is_true_of x.1 ConditionTypes.ready ≡ false)

  propagate-Waits :
      (c : Config) (dependency reason message : String)
      → ((is_true_of c dependency ≡ true)
          × (propagate_not_ready k c dependency reason message ≡ (false, c)))
        ⊎ ((is_true_of c dependency ≡ false)
            × Waits (propagate_not_ready k c dependency reason message))
  unfolding propagate_not_ready
  propagate-Waits c dependency reason message =
      let found = found-is_true c dependency in
      elim (Bool-cases (is_found_true k (k.find_status c.status.conditions dependency))) [
        | inl yes_true ↦ inl (sym found ∙ yes_true, simp yes_true refl)
        | inr not_true ↦
            inr (sym found ∙ not_true, simp not_true (refl, set_on-is_true c _ _ _ _ _))
      ]

  reconciled-ready : (c : Config) → is_true_of (reconciled_config k c) ConditionTypes.ready ≡ true
  unfolding reconciled_config
  reconciled-ready c = set_on-is_true c _ _ _ _ _

  Waits-ready :
      (x : Bool × Config)
      → Waits x
      → is_true_of (if x.0 then x.1 else reconciled_config k x.1) ConditionTypes.ready ≡ false
  Waits-ready (true, c) w = w.1
  Waits-ready (false, c) w = ground (arith, w.0)

  after_issuer-ready :
      (c : Config)
      → is_true_of (after_issuer k (false, c)) ConditionTypes.ready ≡ (
          not (is_self_hosted c.spec.delivery_type)
          || is_true_of c ConditionTypes.webhook_runtime_ready)
  unfolding after_issuer
  after_issuer-ready c = elim (Bool-cases (is_self_hosted c.spec.delivery_type)) [
    | inl hosted ↦
        simp hosted
          (elim (propagate-Waits c ConditionTypes.webhook_runtime_ready
            Reasons.webhook_runtime_unavailable "waiting for self-hosted webhook runtime") [
              | inl h ↦ rw h.1 (reconciled-ready c ∙ sym h.0)
              | inr h ↦ Waits-ready _ h.1 ∙ sym h.0
            ])
    | inr other ↦ simp other (reconciled-ready c)
  ]

  Waits-after :
      (x : Bool × Config) → Waits x → is_true_of (after_issuer k x) ConditionTypes.ready ≡ false
  unfolding after_issuer
  Waits-after (true, c) w = w.1
  Waits-after (false, c) w = ground (arith, w.0)

  -- A config is set ready exactly where its inventory, its issuer and, if it is self-hosted, its webhook
  -- runtime are ready.
  pub set_config_ready_condition-is_true :
      (c : Config) (resolved : Resolution)
      → is_true_of (set_config_ready_condition k c resolved) ConditionTypes.ready
        ≡ (resolved.ready && components_ready c)
  unfolding set_config_ready_condition
  set_config_ready_condition-is_true c resolved = elim (Bool-cases resolved.ready) [
    | inr waiting ↦ simp waiting (set_on-is_true c _ _ _ _ _)
    | inl found ↦
        simp found
          (elim (propagate-Waits c ConditionTypes.issuer_ready Reasons.waiting_for_ack
            "waiting for issuer resources") [
              | inl h ↦ rw h.1 (rw h.0 (after_issuer-ready c))
              | inr h ↦ rw h.0 (Waits-after _ h.1)
            ])
  ]
