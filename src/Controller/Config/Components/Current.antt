-- ===== src/Controller/Config/Components/Current.antt =====
-- The merge of the two paths of a self-hosted config keeps what each path observed.
use mathlib.Core.Option
use mathlib.Core.Path.{subst}
use aws_workload_identity_op.Prelude.{
  ℕ, String, ◌==◌, ◌≡◌, Bool, true, false, ◌||◌, if◌then◌else◌, any, List, [], ◌∷◌, Option, none,
  some, Bool-cases, inl, inr, arith, refl, sym, eq_refl, eq_iff,
}
use aws_workload_identity_op.Api.ConditionTypes
use aws_workload_identity_op.Api.Conditions.{Condition, StatusConditions, report_at}
use aws_workload_identity_op.Api.OperatorConfig.{OperatorConfig}
use aws_workload_identity_op.Api.Types.{Config}
use aws_workload_identity_op.Controller.Config.Components.{
  copied, copy_conditions, merge_issuer_status, merge_webhook_runtime_status, merged, issuer_path,
  reconcile_self_hosted_components,
}
use aws_workload_identity_op.Controller.Config.Issuer.{
  issuer_conditions, reconcile_self_hosted_issuer,
}
use aws_workload_identity_op.Controller.Config.Runtime.{
  RuntimeAnswer, reconcile_self_hosted_webhook_runtime,
}
use aws_workload_identity_op.Controller.Config.Steps.{Answer}
use aws_workload_identity_op.Controller.Config.Issuer.Fresh.{of_issuer, issuer_path-IsCurrent}
use aws_workload_identity_op.Controller.Config.Server.{ConfigServer}
use aws_workload_identity_op.Controller.Config.Steps.Current.{IsCurrent, IsObserved, or_type}
use aws_workload_identity_op.Inventory.{Resolution}

module _ (k : StatusConditions) where
  copied-report :
      (dst : List Condition) (x : Option Condition) (t0 t : String)
      → ((c : Condition) → x ≡ some c → c.condition_type ≡ t0)
      → report_at k (copied k dst x) t ≡ (
          if t0 == t
          then elim x [ none ↦ report_at k dst t | some c ↦ some c.report ]
          else report_at k dst t)
  unfolding copied
  copied-report dst none t0 t typed = ground arith
  copied-report dst (some c) t0 t typed = rw (k.find-set dst c t) (rw (typed c refl) refl)

-- The webhook runtime's condition is none of the issuer's.
foreign : (t : String) → of_issuer t ≡ true → (ConditionTypes.webhook_runtime_ready == t) ≡ false
foreign t m = elim (Bool-cases (ConditionTypes.webhook_runtime_ready == t)) [
  | inl same ↦
      let impossible : of_issuer ConditionTypes.webhook_runtime_ready ≡ true =
        subst (λ x. of_issuer x ≡ true) (sym ((eq_iff _ t).0 same)) m in
      ground (arith, impossible)
  | inr other ↦ other
]

module _ (k : StatusConditions) (g : ℕ) where
  observed_source :
      (x : Option Condition)
      → Option.map (λ r. r.observed_generation) (Option.map (λ c. c.report) x) ≡ some g
      → (dst : Option _)
      → Option.map (λ r. r.observed_generation) (elim x [ none ↦ dst | some c ↦ some c.report ])
        ≡ some g
  observed_source none h dst = ground (arith, h)
  observed_source (some c) h dst = h

  copied-IsObserved :
      (types : String → Bool) (dst src : List Condition) (t0 : String)
      → ((t : String) → types t ≡ true → IsObserved k g dst t)
      → IsObserved k g src t0
      → (t : String) → or_type t0 types t ≡ true
      → IsObserved k g (copied k dst (k.find_status src t0)) t
  copied-IsObserved types dst src t0 h observed t m =
      let found = k.find_status src t0 in
      let written = copied-report k dst found t0 t (k.find-type src t0) in
      elim (Bool-cases (t0 == t)) [
        | inl same ↦ rw written (simp same (observed_source found observed (report_at k dst t)))
        | inr other ↦ rw written (simp other (h t (ground (arith, m, other))))
      ]

  copy_conditions-IsObserved :
      (ts : List String) (types : String → Bool) (dst src : List Condition)
      → ((t : String) → types t ≡ true → IsObserved k g dst t)
      → ((t : String) → any (λ x. x == t) ts ≡ true → IsObserved k g src t)
      → (t : String) → (any (λ x. x == t) ts || types t) ≡ true
      → IsObserved k g (copy_conditions k ts dst src) t
  unfolding copy_conditions
  copy_conditions-IsObserved [] types dst src h observed t m = h t m
  copy_conditions-IsObserved (t0 ∷ ts) types dst src h observed t m =
      copy_conditions-IsObserved ts (or_type t0 types) (copied k dst (k.find_status src t0)) src
        (copied-IsObserved types dst src t0 h (observed t0 (rw (eq_refl t0) refl)))
        (λ t' m'. observed t' (ground (arith, m'))) t (ground (arith, m))

  merge_issuer_status-IsCurrent :
      (c src : Config)
      → c.meta.generation ≡ g
      → IsCurrent k g of_issuer src
      → IsCurrent k g of_issuer (merge_issuer_status k c src)
  unfolding merge_issuer_status
  merge_issuer_status-IsCurrent c src same h = record {
    generation_is = same;
    observed = λ t m.
        copy_conditions-IsObserved issuer_conditions (λ x. false) c.status.conditions
          src.status.conditions (λ x m'. ground (arith, m')) h.observed t (ground (arith, m));
  }

  merge_webhook_runtime_status-IsCurrent :
      (c src : Config)
      → IsCurrent k g of_issuer c
      → IsCurrent k g of_issuer (merge_webhook_runtime_status k c src)
  unfolding merge_webhook_runtime_status copy_conditions
  merge_webhook_runtime_status-IsCurrent c src h = record {
    generation_is = h.generation_is;
    observed = λ t m.
        let found = k.find_status src.status.conditions ConditionTypes.webhook_runtime_ready in
        let other = foreign t m in
        rw
          (copied-report k c.status.conditions found ConditionTypes.webhook_runtime_ready t
            (k.find-type src.status.conditions _))
          (simp other (h.observed t m));
  }

module _ (k : StatusConditions) {S R : Type 0} (server : ConfigServer S R) where
  merged-IsCurrent :
      (c : Config) (x : Answer S (Unit {0})) (y : RuntimeAnswer R)
      → IsCurrent k c.meta.generation of_issuer x.1
      → IsCurrent k c.meta.generation of_issuer (merged k server c x y).1
  unfolding merged
  merged-IsCurrent c (issuer, ci, s) (runtime, cr, r) h =
      merge_webhook_runtime_status-IsCurrent k c.meta.generation (merge_issuer_status k c ci) cr
        (merge_issuer_status-IsCurrent k c.meta.generation c ci refl h)

  -- Whatever the reconcile of a self-hosted config meets in either of its two paths, an error at any step
  -- included, the status that it merges has the issuer's four conditions observed at the generation of
  -- the config: none keeps what an earlier generation reported.
  pub reconcile_self_hosted_components-IsCurrent :
      (operator_config : OperatorConfig) (resolved : Resolution) (c : Config) (s : S) (r : R)
      → IsCurrent k c.meta.generation of_issuer
          (reconcile_self_hosted_components k server operator_config resolved c s r).1
  unfolding reconcile_self_hosted_components
  reconcile_self_hosted_components-IsCurrent operator_config resolved c s r =
      merged-IsCurrent c (issuer_path k server (reconcile_self_hosted_issuer k server c s))
        (reconcile_self_hosted_webhook_runtime k server operator_config resolved c r)
        (issuer_path-IsCurrent k server c.meta.generation c s refl)
