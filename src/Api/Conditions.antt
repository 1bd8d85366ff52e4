-- ===== src/Api/Conditions.antt =====
-- metav1.Condition, and k8s.io/apimachinery/pkg/api/meta as the program relies on it: the source of
-- that package is not in the repository, so its three functions are fields of a record, with the
-- documented behaviour as laws.
use aws_workload_identity_op.Prelude.{
  ℕ, String, ◌≡◌, Bool, true, false, Option, none, some, List, ◌==◌, if◌then◌else◌,
}
use mathlib.Core.Option

-- metav1.ConditionStatus: True, False and Unknown.
pub data ConditionStatus : Type 0 where
  status_true status_false status_unknown : ConditionStatus

abbrev pub is_status_true : ConditionStatus → Bool
is_status_true status_true = true
is_status_true _ = false

abbrev pub is_status_false : ConditionStatus → Bool
is_status_false status_false = true
is_status_false _ = false

abbrev pub is_status_unknown : ConditionStatus → Bool
is_status_unknown status_unknown = true
is_status_unknown _ = false

abbrev pub status_text : ConditionStatus → String
status_text status_true = "True"
status_text status_false = "False"
status_text status_unknown = "Unknown"

-- What the program writes of a condition, without its type and its transition time.
pub record Report : Type 0 where
  pub status : ConditionStatus
  pub observed_generation : ℕ
  pub reason : String
  pub message : String

pub record Condition : Type 0 where
  pub condition_type : String
  pub report : Report
  -- `none` is the zero time.
  pub last_transition_time : Option ℕ

abbrev pub is_report_true : Option Report → Bool
is_report_true none = false
is_report_true (some r) = is_status_true r.status

-- SetStatusCondition, FindStatusCondition and IsStatusConditionTrue.
pub record StatusConditions : Type 0 where
  pub set_status : List Condition → Condition → List Condition
  pub find_status : List Condition → String → Option Condition
  pub is_true : List Condition → String → Bool
  pub find-set :
      (cs : List Condition) (c : Condition) (t : String)
      → Option.map (λ x. x.report) (find_status (set_status cs c) t) ≡ (
          if c.condition_type == t
          then some c.report
          else Option.map (λ x. x.report) (find_status cs t))
  pub find-type :
      (cs : List Condition) (t : String) (c : Condition)
      → find_status cs t ≡ some c
      → c.condition_type ≡ t
  pub is_true_lem :
      (cs : List Condition) (t : String)
      → is_true cs t ≡ is_report_true (Option.map (λ x. x.report) (find_status cs t))

-- What the list says of a condition type.
abbrev pub report_at : StatusConditions → List Condition → String → Option Report
report_at k cs t = Option.map (λ x. x.report) (k.find_status cs t)

-- The status and the reason of a report.
abbrev pub verdict_of : Option Report → Option (ConditionStatus × String)
verdict_of none = none
verdict_of (some r) = some (r.status, r.reason)
