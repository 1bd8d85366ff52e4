-- ===== src/Controller/Config/Status/Consistent.antt =====
-- Setting the Ready condition of a config leaves it in agreement with the components.
use aws_workload_identity_op.Prelude.{
  ◌≡◌, Bool, true, false, if◌then◌else◌, Bool-cases, inl, inr, arith, refl, ◌∙◌, ap,
}
use aws_workload_identity_op.Api.ConditionTypes
use aws_workload_identity_op.Api.Reasons
use aws_workload_identity_op.Api.Conditions.{StatusConditions}
use aws_workload_identity_op.Api.Types.{Config}
use aws_workload_identity_op.Controller.Config.Status.{
  is_self_hosted, propagate_not_ready, reconciled_config, after_issuer, set_config_ready_condition,
  is_found_true, String,
}
use aws_workload_identity_op.Controller.Config.Status.Readiness.{
  is_true_of, components_ready, set_config_ready_condition-is_true, set_on-is_true,
}
use aws_workload_identity_op.Inventory.{Resolution}

module _ (k : StatusConditions) where
  -- A config that is ready has its issuer ready and, if it is self-hosted, its webhook runtime.
  unfoldable pub IsConsistent : Config → Type 0
  IsConsistent c = is_true_of k c ConditionTypes.ready ≡ true → components_ready k c ≡ true

  pub not_ready-IsConsistent :
      (c : Config) → is_true_of k c ConditionTypes.ready ≡ false → IsConsistent c
  unfolding IsConsistent
  not_ready-IsConsistent c h = ground (arith, h)

  -- A condition of another type is as it was, in a config of the same delivery type.
  record Agrees (c c' : Config) : Type 0 where
    issuer :
        is_true_of k c' ConditionTypes.issuer_ready ≡ is_true_of k c ConditionTypes.issuer_ready
    runtime :
        is_true_of k c' ConditionTypes.webhook_runtime_ready
        ≡ is_true_of k c ConditionTypes.webhook_runtime_ready
    spec : c'.spec ≡ c.spec

  propagate-Agrees :
      (c : Config) (dependency reason message : String)
      → Agrees c (propagate_not_ready k c dependency reason message).1
  unfolding propagate_not_ready
  propagate-Agrees c dependency reason message =
      elim (Bool-cases (is_found_true k (k.find_status c.status.conditions dependency))) [
        | inl yes_true ↦ simp yes_true (record { issuer = refl; runtime = refl; spec = refl })
        | inr not_true ↦ simp not_true (record {
          issuer = set_on-is_true k c _ _ _ _ _;
          runtime = set_on-is_true k c _ _ _ _ _;
          spec = refl;
        })
      ]

  reconciled-Agrees : (c : Config) → Agrees c (reconciled_config k c)
  unfolding reconciled_config
  reconciled-Agrees c = (record {
    issuer = set_on-is_true k c _ _ _ _ _;
    runtime = set_on-is_true k c _ _ _ _ _;
    spec = refl;
  })

  Agrees-trans : (a b c : Config) → Agrees a b → Agrees b c → Agrees a c
  Agrees-trans a b c f g = record {
    issuer = g.issuer ∙ f.issuer;
    runtime = g.runtime ∙ f.runtime;
    spec = g.spec ∙ f.spec;
  }

  if-Agrees :
      (c : Config) (x : Bool × Config)
      → Agrees c x.1
      → Agrees c (if x.0 then x.1 else reconciled_config k x.1)
  if-Agrees c (true, c') h = h
  if-Agrees c (false, c') h = Agrees-trans c c' (reconciled_config k c') h (reconciled-Agrees c')

  after_issuer-Agrees :
      (c : Config) (x : Bool × Config) → Agrees c x.1 → Agrees c (after_issuer k x)
  unfolding after_issuer
  after_issuer-Agrees c (true, c') h = h
  after_issuer-Agrees c (false, c') h = elim (Bool-cases (is_self_hosted c'.spec.delivery_type)) [
    | inl hosted ↦ simp hosted (
        if-Agrees c _ (
          Agrees-trans c c' _ h (
            propagate-Agrees c' ConditionTypes.webhook_runtime_ready
              Reasons.webhook_runtime_unavailable "waiting for self-hosted webhook runtime")))
    | inr other ↦ simp other (Agrees-trans c c' (reconciled_config k c') h (reconciled-Agrees c'))
  ]

  set_config_ready_condition-Agrees :
      (c : Config) (resolved : Resolution) → Agrees c (set_config_ready_condition k c resolved)
  unfolding set_config_ready_condition
  set_config_ready_condition-Agrees c resolved = elim (Bool-cases resolved.ready) [
    | inr waiting ↦ simp waiting (record {
      issuer = set_on-is_true k c _ _ _ _ _;
      runtime = set_on-is_true k c _ _ _ _ _;
      spec = refl;
    })
    | inl found ↦ simp found (
        after_issuer-Agrees c _ (
          propagate-Agrees c ConditionTypes.issuer_ready Reasons.waiting_for_ack
            "waiting for issuer resources"))
  ]

  pub set_config_ready_condition-IsConsistent :
      (c : Config) (resolved : Resolution) → IsConsistent (set_config_ready_condition k c resolved)
  unfolding IsConsistent
  set_config_ready_condition-IsConsistent c resolved h =
      let agrees = set_config_ready_condition-Agrees c resolved in
      let hosted = ap (λ spec. is_self_hosted spec.delivery_type) agrees.spec in
      ground (
        arith,
        agrees.issuer,
        agrees.runtime,
        hosted,
        h,
        set_config_ready_condition-is_true k c resolved,
      )
