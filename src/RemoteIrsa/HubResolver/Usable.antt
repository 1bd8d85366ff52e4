-- ===== src/RemoteIrsa/HubResolver/Usable.antt =====
-- What a role that the hub resolver returns satisfies.
use aws_workload_identity_op.Prelude.{
  ℕ, ◌≡◌, ◌≤◌, String, ◌==◌, true, false, none, some, Option, arith, List, refl, Option-cases, inl,
  inr, Bool-cases,
}
use aws_workload_identity_op.Api.ConditionTypes
use aws_workload_identity_op.Api.Conditions.{Condition, StatusConditions, is_status_true}
use aws_workload_identity_op.Api.Constants.{default_name}
use aws_workload_identity_op.Api.Delivery.{uses_annotation_based_irsa}
use aws_workload_identity_op.Api.Errors.{ok, err, Result}
use aws_workload_identity_op.Api.Types.{Config, Role, same_name}
use aws_workload_identity_op.RemoteIrsa.Errors.{success, failed, Attempt}
use aws_workload_identity_op.RemoteIrsa.Options.{HubReader, ResolveOptions, ResolvedRole}
use aws_workload_identity_op.RemoteIrsa.HubResolver.{
  resolve, resolve_role, region_of, not_ready, role_subject, not_ready_condition, with_role,
  not_ready_role, with_ready_role, with_config, with_ready_config,
}

-- A Ready condition that is True and observes the generation.
abbrev pub IsReadyAt : ℕ → Option Condition → Type 0
IsReadyAt generation none = ⊥
IsReadyAt generation (some c) =
    (is_status_true c.report.status ≡ true) × (generation ≤ c.report.observed_generation)

pub record IsUsable (k : StatusConditions) (reader : HubReader) (opts : ResolveOptions)
    (config : Config) (role : Role) (r : ResolvedRole) : Type 0 where
  pub config_found :
      reader.get_config (record { namespace = opts.workload_namespace; name = default_name })
      ≡ ok config
  pub role_found : resolve_role reader opts ≡ success role
  pub supported : uses_annotation_based_irsa config.spec.delivery_type ≡ true
  pub config_observed : config.meta.generation ≤ config.status.observed_generation
  pub config_ready :
      IsReadyAt config.meta.generation (k.find_status config.status.conditions ConditionTypes.ready)
  pub same_subject : same_name (role_subject role) opts.service_account ≡ true
  pub role_observed : role.meta.generation ≤ role.status.observed_generation
  pub role_ready :
      IsReadyAt role.meta.generation (k.find_status role.status.conditions ConditionTypes.ready)
  pub same_arn : r.role_arn ≡ role.status.role_arn
  pub has_arn : (r.role_arn == "") ≡ false
  pub same_region : r.region ≡ region_of opts config
  pub has_region : (r.region == "") ≡ false
  pub same_service_account : r.service_account ≡ opts.service_account

module _ (k : StatusConditions) where
  not_ready_condition-none :
      (kind : String) (generation : ℕ) (c : Option Condition)
      → not_ready_condition kind generation c ≡ none
      → IsReadyAt generation c
  unfolding not_ready_condition
  not_ready_condition-none kind generation none h = ground arith
  not_ready_condition-none kind generation (some c) h = ground arith

  not_ready-none :
      (kind : String) (observed generation : ℕ) (conditions : List Condition)
      → not_ready k kind observed generation conditions ≡ none
      → (generation ≤ observed)
        × IsReadyAt generation (k.find_status conditions ConditionTypes.ready)
  unfolding not_ready
  not_ready-none kind observed generation conditions h =
      (ground arith, not_ready_condition-none kind generation _ (ground arith))

  module _ (opts : ResolveOptions) (config : Config) (r : ResolvedRole) where
    pub record RoleIsUsable (role : Role) : Type 0 where
      pub same_subject : same_name (role_subject role) opts.service_account ≡ true
      pub role_observed : role.meta.generation ≤ role.status.observed_generation
      pub role_ready :
          IsReadyAt role.meta.generation (k.find_status role.status.conditions ConditionTypes.ready)
      pub same_arn : r.role_arn ≡ role.status.role_arn
      pub has_arn : (role.status.role_arn == "") ≡ false
      pub same_region : r.region ≡ region_of opts config
      pub has_region : (region_of opts config == "") ≡ false
      pub same_service_account : r.service_account ≡ opts.service_account

    with_role-RoleIsUsable :
        (a : Attempt Role)
        → with_role k opts config a ≡ success r
        → (role : Role) × (a ≡ success role) × RoleIsUsable role
    unfolding with_role not_ready_role with_ready_role
    with_role-RoleIsUsable (failed e) h = ground arith
    with_role-RoleIsUsable (success role) h = (
      role,
      refl,
      elim (Option-cases (
          not_ready k "AWSServiceAccountRole" role.status.observed_generation role.meta.generation
            role.status.conditions)) [
              | inl e ↦
                  (let (observed, ready) = not_ready-none _ _ _ _ e in
                    record {
                      same_subject = ground arith;
                      role_observed = observed;
                      role_ready = ready;
                      same_arn = ground arith;
                      has_arn = ground arith;
                      same_region = ground arith;
                      has_region = ground arith;
                      same_service_account = ground arith;
                    })
              | inr (m, e) ↦ ground arith
            ],
    )

  usable :
      (reader : HubReader) (opts : ResolveOptions) (config : Config) (r : ResolvedRole)
      (role : Role)
      → reader.get_config (record { namespace = opts.workload_namespace; name = default_name })
        ≡ ok config
      → uses_annotation_based_irsa config.spec.delivery_type ≡ true
      → (config.meta.generation ≤ config.status.observed_generation)
        × IsReadyAt config.meta.generation
            (k.find_status config.status.conditions ConditionTypes.ready)
      → resolve_role reader opts ≡ success role
      → RoleIsUsable opts config r role
      → IsUsable k reader opts config role r
  usable reader opts config r role found supported (observed, ready) role_found u = record {
    config_found = found;
    role_found = role_found;
    supported = supported;
    config_observed = observed;
    config_ready = ready;
    same_subject = u.same_subject;
    role_observed = u.role_observed;
    role_ready = u.role_ready;
    same_arn = u.same_arn;
    has_arn = rw u.same_arn u.has_arn;
    same_region = u.same_region;
    has_region = rw u.same_region u.has_region;
    same_service_account = u.same_service_account;
  }

  with_config-IsUsable :
      (reader : HubReader) (opts : ResolveOptions) (r : ResolvedRole) (answer : Result Config)
      → reader.get_config (record { namespace = opts.workload_namespace; name = default_name })
        ≡ answer
      → with_config k reader opts answer ≡ success r
      → (config : Config) × (role : Role) × IsUsable k reader opts config role r
  unfolding with_config with_ready_config
  with_config-IsUsable reader opts r (err e) found h = ground arith
  with_config-IsUsable reader opts r (ok config) found h =
      elim (Bool-cases (uses_annotation_based_irsa config.spec.delivery_type)) [
        | inr unsupported ↦ ground arith
        | inl supported ↦
            elim (Option-cases (
              not_ready k "AWSWorkloadIdentityConfig" config.status.observed_generation
                config.meta.generation config.status.conditions)) [
                  | inr (m, e) ↦ ground arith
                  | inl e ↦
                      (let (role, role_found, u) =
                          with_role-RoleIsUsable opts config r (resolve_role reader opts)
                            (simp (supported, e) at h) in
                        (
                          config,
                          role,
                          usable reader opts config r role found supported
                              (not_ready-none _ _ _ _ e) role_found u,
                        ))
                ]
      ]

  -- Resolve succeeds only for a namespace whose config exists, has a delivery type that uses annotations
  -- and is Ready at its current generation, and only with the role that resolveRole finds: that role is
  -- for the requested service account, is Ready at its current generation and has a role ARN. The result
  -- carries that ARN, the requested service account, and a region that is not empty: the override if
  -- there is one, or else the config's.
  pub resolve-IsUsable :
      (reader : HubReader) (opts : ResolveOptions) (r : ResolvedRole)
      → resolve k (some reader) opts ≡ success r
      → (config : Config) × (role : Role) × IsUsable k reader opts config role r
  unfolding resolve
  resolve-IsUsable reader opts r h = with_config-IsUsable reader opts r _ refl h
