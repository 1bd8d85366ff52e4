-- ===== src/Controller/Config/Issuer/Fresh.antt =====
-- The issuer's goroutine leaves its four conditions at the current generation.
use mathlib.Core.Path.{subst}
use mathlib.Core.Option
use aws_workload_identity_op.Prelude.{
  eq_iff, ℕ, String, ◌==◌, ◌≡◌, Bool, true, ◌||◌, if◌then◌else◌, any, List, [], ◌∷◌, Option, none,
  some, Bool-cases, inl, inr, arith,
}
use aws_workload_identity_op.Api.ConditionTypes
use aws_workload_identity_op.Api.Reasons
use aws_workload_identity_op.Controller.Config.Components.{issuer_path}
use aws_workload_identity_op.Api.Conditions.{Condition, StatusConditions, status_false}
use aws_workload_identity_op.Api.Errors.{ok, err}
use aws_workload_identity_op.Api.Types.{Config}
use aws_workload_identity_op.Controller.Config.Issuer.Current.{
  settled, nothing, reconcile_self_hosted_issuer-Ends,
}
use aws_workload_identity_op.Controller.Config.Issuer.{
  issuer_conditions, reconcile_self_hosted_issuer, is_current, fail_conditions,
  set_issuer_failure_condition,
}
use aws_workload_identity_op.Controller.Config.Server.{ConfigServer}
use aws_workload_identity_op.Controller.Config.Steps.{Answer, set_on}
use aws_workload_identity_op.Controller.Config.Steps.Current.{
  IsCurrent, IsObserved, Ends, or_type, set_on-IsCurrent, IsCurrent-weaken,
}

-- The conditions that the issuer owns.
abbrev pub of_issuer : String → Bool
of_issuer x = any (λ t. t == x) issuer_conditions

module _ (k : StatusConditions) {S R : Type 0} (server : ConfigServer S R) (g : ℕ) where
  found-IsObserved :
      (c : Config) (x : Option Condition)
      → c.meta.generation ≡ g
      → is_current k server c x ≡ true
      → Option.map (λ r. r.observed_generation) (Option.map (λ y. y.report) x) ≡ some g
  unfolding is_current
  found-IsObserved c none same h = ground (arith, h)
  found-IsObserved c (some found) same h = ground (arith, h, same)

  observed-IsCurrent :
      (types : String → Bool) (c : Config) (t0 : String)
      → is_current k server c (k.find_status c.status.conditions t0) ≡ true
      → IsCurrent k g types c
      → IsCurrent k g (or_type t0 types) c
  observed-IsCurrent types c t0 current h = record {
    generation_is = h.generation_is;
    observed = λ t m. elim (Bool-cases (t0 == t)) [
      | inl same ↦
          subst (IsObserved k g c.status.conditions) ((eq_iff t0 t).0 same)
            (found-IsObserved c (k.find_status c.status.conditions t0) h.generation_is current)
      | inr other ↦ h.observed t (ground (arith, m, other))
    ];
  }

  fail_condition-IsCurrent :
      (types : String → Bool) (t message : String) (c : Config)
      → IsCurrent k g types c
      → IsCurrent k g (or_type t types) (
          if is_current k server c (k.find_status c.status.conditions t)
          then c
          else set_on k c t status_false Reasons.issuer_reconcile_failed message)
  fail_condition-IsCurrent types t message c h =
      elim (Bool-cases (is_current k server c (k.find_status c.status.conditions t))) [
        | inl current ↦ simp current (observed-IsCurrent types c t current h)
        | inr stale ↦ simp stale (set_on-IsCurrent k g types c t _ _ _ h)
      ]

  fail_conditions-IsCurrent :
      (ts : List String) (types : String → Bool) (message : String) (c : Config)
      → IsCurrent k g types c
      → IsCurrent k g (λ x. any (λ t. t == x) ts || types x) (fail_conditions k server ts message c)
  unfolding fail_conditions
  fail_conditions-IsCurrent [] types message c h = h
  fail_conditions-IsCurrent (t ∷ ts) types message c h =
      IsCurrent-weaken k g (λ x. any (λ y. y == x) ts || or_type t types x) _ _
        (λ x m. ground (arith, m))
        (fail_conditions-IsCurrent ts (or_type t types) message _
          (fail_condition-IsCurrent types t message c h))

  issuer_path-Current :
      (x : Answer S (Unit {0}))
      → Ends k g (settled k server g (or_type ConditionTypes.bucket_ready (nothing k server g))) x
      → IsCurrent k g of_issuer (issuer_path k server x).1
  unfolding issuer_path set_issuer_failure_condition
  issuer_path-Current (ok _, c, s) h =
      IsCurrent-weaken k g
        (settled k server g (or_type ConditionTypes.bucket_ready (nothing k server g))) of_issuer c
        (λ x m. ground (arith, m)) h
  issuer_path-Current (err e, c, s) h =
      IsCurrent-weaken k g (λ x. any (λ t. t == x) issuer_conditions || nothing k server g x)
        of_issuer _ (λ x m. ground (arith, m))
        (fail_conditions-IsCurrent issuer_conditions (nothing k server g) _ c
          (record { generation_is = h; observed = λ t m. ground (arith, m) }))

  pub issuer_path-IsCurrent :
      (c : Config) (s : S)
      → c.meta.generation ≡ g
      → IsCurrent k g of_issuer (issuer_path k server (reconcile_self_hosted_issuer k server c s)).1
  issuer_path-IsCurrent c s same =
      issuer_path-Current _ (reconcile_self_hosted_issuer-Ends k server g c s same)
