-- ===== src/Controller/Config/Steps.antt =====
-- The steps of the config's issuer: each reads and changes the config, in memory, and the state of the
-- hub, and answers a value or an error.
pub mod Current
use aws_workload_identity_op.Prelude.{String, Bool}
use aws_workload_identity_op.Api.Conditions.{ConditionStatus, StatusConditions}
use aws_workload_identity_op.Api.Errors.{Failure, Result, ok, err}
use aws_workload_identity_op.Api.Types.{Config, ConfigStatus}
use aws_workload_identity_op.Controller.Common.{set_condition, set_ack_ready_condition}

abbrev pub Answer : Type 0 → Type 0 → Type 0
Answer S A = Result A × Config × S

abbrev pub Step : Type 0 → Type 0 → Type 0
Step S A = Config → S → Answer S A

unfoldable pub after : {S A B : Type 0} → Answer S A → (A → Step S B) → Answer S B
after (ok a, c, s) f = f a c s
after (err e, c, s) f = (err e, c, s)

infixl 5 ◌>>=◌ ◌>>◌
abbrev pub ◌>>=◌ : {S A B : Type 0} → Step S A → (A → Step S B) → Step S B
◌>>=◌ m f c s = after (m c s) f

abbrev pub ◌>>◌ : {S B : Type 0} → Step S (Unit {0}) → Step S B → Step S B
m >> n = m >>= λ _. n

abbrev pub answer : {S A : Type 0} → Result A → Step S A
answer a c s = (a, c, s)

abbrev pub pure : {S A : Type 0} → A → Step S A
pure a = answer (ok a)

abbrev pub abort : {S A : Type 0} → Failure → Step S A
abort e = answer (err e)

-- config.Status with a change.
abbrev pub with_status : (ConfigStatus → ConfigStatus) → Config → Config
with_status f c = record c { status = f c.status }

abbrev pub change : {S : Type 0} → (ConfigStatus → ConfigStatus) → Step S (Unit {0})
change f c s = (ok tt, with_status f c, s)

module _ (k : StatusConditions) where
  -- setCondition on the conditions of a config.
  unfoldable pub set_on : Config → String → ConditionStatus → String → String → Config
  unfolding set_condition
  set_on c condition_type status reason message =
      with_status
        (λ status'. record status' {
          conditions =
              set_condition k status'.conditions c.meta.generation condition_type status reason
                message;
        })
        c

  -- setACKReadyCondition on the conditions of a config.
  unfoldable pub set_ack_on : Config → String → String → Bool → Bool → Config
  unfolding set_ack_ready_condition
  set_ack_on c condition_type kind synced observed =
      with_status
        (λ status'. record status' {
          conditions =
              set_ack_ready_condition k status'.conditions c.meta.generation condition_type kind
                synced observed;
        })
        c

  abbrev pub mark : {S : Type 0} → String → ConditionStatus → String → String → Step S (Unit {0})
  mark condition_type status reason message c s =
      (ok tt, set_on c condition_type status reason message, s)
