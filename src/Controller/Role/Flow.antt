-- ===== src/Controller/Role/Flow.antt =====
-- The steps of reconcileNormal: each reads and changes the role and the server's state, and ends the
-- reconcile with a result or an error, or goes on with a value.
pub mod Rules
use aws_workload_identity_op.Prelude.{ℕ, String, List}
use aws_workload_identity_op.Api.Conditions.{Condition, ConditionStatus, StatusConditions}
use aws_workload_identity_op.Api.Errors.{Failure, Result}
use aws_workload_identity_op.Api.Types.{Role, RoleStatus}
use aws_workload_identity_op.Controller.Common.{RequeueAfter, set_condition, fail_ready}

-- `stop` is errReconcileDone with its result.
pub data Flow (A : Type 0) : Type 0 where
  continue : A → Flow A
  stop : RequeueAfter → Flow A
  fail : Failure → Flow A

abbrev pub Reached : Type 0 → Type 0 → Type 0
Reached S A = Flow A × Role × S

abbrev pub M : Type 0 → Type 0 → Type 0
M S A = Role → S → Reached S A

unfoldable pub after : {S A B : Type 0} → Reached S A → (A → M S B) → Reached S B
after (continue a, r, s) f = f a r s
after (stop t, r, s) f = (stop t, r, s)
after (fail e, r, s) f = (fail e, r, s)

infixl 5 ◌>>=◌ ◌>>◌
abbrev pub ◌>>=◌ : {S A B : Type 0} → M S A → (A → M S B) → M S B
◌>>=◌ m f r s = after (m r s) f

abbrev pub ◌>>◌ : {S B : Type 0} → M S (Unit {0}) → M S B → M S B
m >> n = m >>= λ _. n

abbrev pub pure : {S A : Type 0} → A → M S A
pure a r s = (continue a, r, s)

abbrev pub halt : {S A : Type 0} → RequeueAfter → M S A
halt t r s = (stop t, r, s)

abbrev pub abort : {S A : Type 0} → Failure → M S A
abort e r s = (fail e, r, s)

abbrev pub the_role : {S : Type 0} → M S Role
the_role r s = (continue r, r, s)

abbrev pub read : {S A : Type 0} → (S → A) → M S A
read f r s = (continue (f s), r, s)

abbrev pub change : {S : Type 0} → (RoleStatus → RoleStatus) → M S (Unit {0})
change f r s = (continue tt, record r { status = f r.status }, s)

-- A call that answers a result: its error is the step's value, not its end.
abbrev pub call : {S A : Type 0} → (Role → S → Result A × S) → M S (Result A)
call f r s = let (answer, s') = f r s in (continue answer, r, s')

abbrev pub change_conditions : {S : Type 0} → (List Condition → ℕ → List Condition) → M S (Unit {0})
change_conditions f r s = (
  continue tt,
  record r { status = record r.status { conditions = f r.status.conditions r.meta.generation } },
  s,
)

module _ (k : StatusConditions) {S : Type 0} where
  -- setCondition and failReady on the conditions of the role.
  abbrev pub mark : String → ConditionStatus → String → String → M S (Unit {0})
  mark condition_type status reason message =
      change_conditions λ cs g. set_condition k cs g condition_type status reason message

  abbrev pub mark_not_ready : String → String → String → M S (Unit {0})
  mark_not_ready condition_type reason message =
      change_conditions λ cs g. fail_ready k cs g condition_type reason message
