-- ===== src/Controller/Role/Prepare/Keeps.antt =====
-- What prepareRoleInputs ensures: it writes to the hub only, and its inputs can be delivered.
use aws_workload_identity_op.Prelude.{◌≡◌, String, true, Bool-cases, inl, inr, refl}
use aws_workload_identity_op.Api.Conditions.{StatusConditions}
use aws_workload_identity_op.Api.Errors.{Result, ok, err}
use aws_workload_identity_op.Api.Types.{Role, RoleStatus, Config}
use aws_workload_identity_op.Api.OperatorConfig.{OperatorConfig}
use aws_workload_identity_op.Controller.Role.Finalize.{patch_role_status}
use aws_workload_identity_op.Controller.Role.Flow.{after}
use aws_workload_identity_op.Controller.Role.Flow.Rules.{Ensures, after-Ensures, pure-Ensures}
use aws_workload_identity_op.Controller.Role.Prepare.{
  Inputs, halt_after, operator_step, config_step, inventory_step, not_ready_step, resolver_error,
  ready_step, trust_step, fail_prepare_step, role_trust_policy, prepare_role_inputs, load_operator,
  load_config, load_inventory, render_trust,
}
use aws_workload_identity_op.Controller.Role.Server.{RoleServer}
use aws_workload_identity_op.Controller.Role.Server.Keeps.{HubKeeps}
use aws_workload_identity_op.Controller.Role.Status.Supported.{
  IsSupported, trust_policy-IsSupported,
}
use aws_workload_identity_op.Inventory.{Resolution}

abbrev pub IsDeliverable : Inputs → Type 0
IsDeliverable inputs = (inputs.resolved.ready ≡ true) × IsSupported inputs.config.spec.delivery_type

module _ (k : StatusConditions) {S : Type 0} (server : RoleServer S) (before : RoleStatus)
    (Q : S → Type 0) (hub : HubKeeps server Q) where
  pub patch_role_status-keeps :
      (r : Role) (s : S) → Q s → Q (patch_role_status k server r before s).1
  unfolding patch_role_status
  patch_role_status-keeps r s q = elim (Bool-cases (server.statuses_equal before r.status)) [
    | inl same ↦ simp same q
    | inr differs ↦ simp differs (hub.status r s q)
  ]

  pub halt_after-Ensures :
      {A : Type 0} (P : A → Role → Type 0) (answer : Result (Unit {0})) (r : Role) (s : S)
      → Q s
      → Ensures Q P (halt_after k server before {A = A} answer r s)
  unfolding Ensures after halt_after
  halt_after-Ensures P (ok _) r s q = q
  halt_after-Ensures P (err e) r s q = q

  fail_prepare_step-Ensures :
      {A : Type 0} (P : A → Role → Type 0) (condition_type reason message : String) (r : Role)
      (s : S)
      → Q s
      → Ensures Q P (fail_prepare_step k server before {A = A} condition_type reason message r s)
  unfolding Ensures after fail_prepare_step
  fail_prepare_step-Ensures P condition_type reason message r s q =
      halt_after-Ensures P _ _ _ (patch_role_status-keeps _ s q)

  operator_step-Ensures :
      (answer : Result OperatorConfig) (r : Role) (s : S)
      → Q s
      → Ensures Q (λ _ _. Unit) (operator_step k server before answer r s)
  unfolding Ensures after operator_step
  operator_step-Ensures (ok c) r s q = (q, tt)
  operator_step-Ensures (err e) r s q = fail_prepare_step-Ensures (λ _ _. Unit) _ _ _ r s q

  config_step-Ensures :
      (answer : Result Config) (r : Role) (s : S)
      → Q s
      → Ensures Q (λ _ _. Unit) (config_step k server before answer r s)
  unfolding Ensures after config_step
  config_step-Ensures (ok c) r s q = (q, tt)
  config_step-Ensures (err e) r s q = fail_prepare_step-Ensures (λ _ _. Unit) _ _ _ r s q

  inventory_step-Ensures :
      (answer : Result Resolution) (r : Role) (s : S)
      → Q s
      → Ensures Q (λ resolved _. resolved.ready ≡ true) (inventory_step k server before answer r s)
  unfolding Ensures after inventory_step not_ready_step ready_step resolver_error
  inventory_step-Ensures (err e) r s q = patch_role_status-keeps _ s q
  inventory_step-Ensures (ok resolved) r s q = elim (Bool-cases resolved.ready) [
    | inl ready ↦ simp ready (q, refl)
    | inr waiting ↦ simp waiting (
        halt_after-Ensures (λ resolved _. resolved.ready ≡ true) _ _ _
          (patch_role_status-keeps _ s q))
  ]

  trust_step-Ensures :
      (P : Type 0) (answer : Result String) (r : Role) (s : S)
      → ((policy : String) → answer ≡ ok policy → P)
      → Q s
      → Ensures Q (λ _ _. P) (trust_step k server before answer r s)
  unfolding Ensures after trust_step
  trust_step-Ensures P (ok policy) r s p q = (q, p policy refl)
  trust_step-Ensures P (err e) r s p q = fail_prepare_step-Ensures (λ _ _. P) _ _ _ r s q

  role_trust_policy-IsSupported :
      (role : Role) (config : Config) (resolved : Resolution) (policy : String)
      → role_trust_policy k server before role config resolved ≡ ok policy
      → IsSupported config.spec.delivery_type
  unfolding role_trust_policy
  role_trust_policy-IsSupported role config resolved policy h =
      trust_policy-IsSupported _ _ role config resolved policy h

  load_operator-Ensures :
      (r : Role) (s : S) → Q s → Ensures Q (λ _ _. Unit) (load_operator k server before r s)
  unfolding load_operator
  load_operator-Ensures r s q = operator_step-Ensures _ r s q

  load_config-Ensures :
      (r : Role) (s : S) → Q s → Ensures Q (λ _ _. Unit) (load_config k server before r s)
  unfolding load_config
  load_config-Ensures r s q = config_step-Ensures _ r s q

  load_inventory-Ensures :
      (r : Role) (s : S)
      → Q s
      → Ensures Q (λ resolved _. resolved.ready ≡ true) (load_inventory k server before r s)
  unfolding load_inventory
  load_inventory-Ensures r s q = inventory_step-Ensures _ r s q

  render_trust-Ensures :
      (config : Config) (resolved : Resolution) (r : Role) (s : S)
      → Q s
      → Ensures Q
          (λ _ _. IsSupported config.spec.delivery_type)
          (render_trust k server before config resolved r s)
  unfolding render_trust
  render_trust-Ensures config resolved r s q =
      trust_step-Ensures (IsSupported config.spec.delivery_type) _ r s
        (role_trust_policy-IsSupported r config resolved) q

  pub prepare_role_inputs-Ensures :
      (r : Role) (s : S)
      → Q s
      → Ensures Q (λ inputs _. IsDeliverable inputs) (prepare_role_inputs k server before r s)
  unfolding prepare_role_inputs
  prepare_role_inputs-Ensures r s q =
      after-Ensures Q (λ _ _. Unit) (λ inputs _. IsDeliverable inputs) _ _
        (load_operator-Ensures r s q)
        λ operator r1 s1 q1 _.
          after-Ensures Q (λ _ _. Unit) (λ inputs _. IsDeliverable inputs) _ _
            (load_config-Ensures r1 s1 q1)
            λ config r2 s2 q2 _.
              after-Ensures Q (λ (x : Resolution) _. x.ready ≡ true)
                (λ inputs _. IsDeliverable inputs) _ _ (load_inventory-Ensures r2 s2 q2)
                λ resolved r3 s3 q3 ready.
                  pure-Ensures Q (λ _ _. IsSupported config.spec.delivery_type)
                    (λ inputs _. IsDeliverable inputs) _
                    (λ policy. record {
                      operator_config = operator;
                      config = config;
                      resolved = resolved;
                      trust_policy = policy;
                    })
                    (render_trust-Ensures config resolved r3 s3 q3)
                    λ policy r4 supported. (ready, supported)
