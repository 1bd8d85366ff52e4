-- ===== src/Controller/ReplicaSet/Rollout/Progress.antt =====
-- The counters of a rollout summary add up, and its Progressing condition says whether all is done.
use aws_workload_identity_op.Prelude.{
  ℕ, suc, ◌+◌, ◌≤◌, ◌≡◌, refl, String, ◌||◌, ◌&&◌, if◌then◌else◌, List, [], ◌∷◌, length, arith,
  some, Bool-cases, inl, inr,
}
use aws_workload_identity_op.Prelude.Maps.{Map}
use aws_workload_identity_op.Prelude.Int32.{max_int32}
use aws_workload_identity_op.Api.Conditions.{
  Condition, status_true, status_false, StatusConditions, report_at,
}
use aws_workload_identity_op.Api.Reasons
use aws_workload_identity_op.Api.Conditions.{verdict_of}
use aws_workload_identity_op.Api.ConditionTypes
use aws_workload_identity_op.Controller.Common.Reports.{report_at-set_condition}
use aws_workload_identity_op.Controller.ReplicaSet.Types.{
  RolloutState, RolloutSummary, ClusterRolloutStatus,
}
use aws_workload_identity_op.Controller.ReplicaSet.Server.{Names, has}
use aws_workload_identity_op.Controller.ReplicaSet.Rollout.{
  count_state, count_states, is_complete, set_progressing, new_rollout_summary, nat_eq,
  start_summary,
}

abbrev pub is_state : RolloutState → RolloutState → ℕ
is_state RolloutState.succeeded RolloutState.succeeded = 1
is_state RolloutState.failed RolloutState.failed = 1
is_state RolloutState.time_out RolloutState.time_out = 1
is_state _ _ = 0

module _ (updating late : Names) where
  -- The clusters in a state, among those that are neither updating nor timed out in this plan.
  abbrev pub settled : RolloutState → Map ClusterRolloutStatus → ℕ
  settled state [] = 0
  settled state ((name, status) ∷ rest) =
      (if has name updating || has name late then 0 else is_state state status.state)
      + settled state rest

  pub record StateTotals (s : RolloutSummary) (statuses : Map ClusterRolloutStatus)
      (t : RolloutSummary) : Type 0 where
    pub succeeded : t.succeeded ≡ s.succeeded + settled RolloutState.succeeded statuses
    pub failed : t.failed ≡ s.failed + settled RolloutState.failed statuses
    pub timed_out : t.timed_out ≡ s.timed_out + settled RolloutState.time_out statuses
    pub same_total : t.total ≡ s.total
    pub same_updating : t.updating ≡ s.updating
    pub same_conditions : t.conditions ≡ s.conditions

  pub record RolloutRoom (room : ℕ) (s : RolloutSummary) : Type 0 where
    pub succeeded : s.succeeded + room ≤ max_int32
    pub failed : s.failed + room ≤ max_int32
    pub timed_out : s.timed_out + room ≤ max_int32

  count_state-totals :
      (name : String) (status : ClusterRolloutStatus) (s : RolloutSummary)
      → RolloutRoom 1 s
      → StateTotals s
          ((name, status) ∷ [])
          (if has name updating || has name late then s else count_state status.state s)
  unfolding count_state
  count_state-totals name status s h = ground arith

  count_state-RolloutRoom :
      (name : String) (status : ClusterRolloutStatus) (s : RolloutSummary) (room : ℕ)
      → RolloutRoom (suc room) s
      → RolloutRoom room
          (if has name updating || has name late then s else count_state status.state s)
  unfolding count_state
  count_state-RolloutRoom name status s room h = ground arith

  -- The loop counts the settled clusters of each state.
  pub count_states-totals :
      (statuses : Map ClusterRolloutStatus) (s : RolloutSummary)
      → RolloutRoom (length statuses) s
      → StateTotals s statuses (count_states updating late statuses s)
  unfolding count_states
  count_states-totals [] s h = ground arith
  count_states-totals ((name, status) ∷ rest) s h =
      let step = count_state-totals name status s (omega arith) in
      let later =
        count_states-totals rest
          (if has name updating || has name late then s else count_state status.state s)
          (count_state-RolloutRoom name status s (length rest) h) in
      ground (arith, step, later)

set_progressing-report :
    (k : StatusConditions) (generation : ℕ) (s : RolloutSummary)
    → verdict_of
        (report_at k (set_progressing k generation s).conditions ConditionTypes.progressing)
      ≡ some (
          if is_complete s
          then (status_false, Reasons.complete)
          else (status_true, Reasons.progressing))
unfolding set_progressing
set_progressing-report k generation s = elim (Bool-cases (is_complete s)) [
  | inl e ↦ rw e (rw report_at-set_condition)
  | inr e ↦ rw e (rw report_at-set_condition)
]

set_progressing-keeps_counts :
    (k : StatusConditions) (generation : ℕ) (s : RolloutSummary)
    → (let t = set_progressing k generation s in
        (t.total ≡ s.total)
        × (t.updating ≡ s.updating)
        × (t.succeeded ≡ s.succeeded)
        × (t.failed ≡ s.failed)
        × (t.timed_out ≡ s.timed_out))
unfolding set_progressing
set_progressing-keeps_counts k generation s = (refl, refl, refl, refl, refl)

start_summary-counts :
    (total : ℕ) (updating late : Names) (previous : List Condition)
    → length updating ≤ max_int32
    → length late ≤ max_int32
    → (let s = start_summary total updating late previous in
        (s.total ≡ total)
        × (s.updating ≡ length updating)
        × (s.succeeded ≡ 0)
        × (s.failed ≡ 0)
        × (s.timed_out ≡ length late))
unfolding start_summary
start_summary-counts total updating late previous h m = ground arith

pub record IsCounted (updating late : Names) (statuses : Map ClusterRolloutStatus) (total : ℕ)
    (r : RolloutSummary) : Type 0 where
  pub total_lem : r.total ≡ total
  pub updating_lem : r.updating ≡ length updating
  pub succeeded_lem : r.succeeded ≡ settled updating late RolloutState.succeeded statuses
  pub failed_lem : r.failed ≡ settled updating late RolloutState.failed statuses
  pub timed_out_lem :
      r.timed_out ≡ length late + settled updating late RolloutState.time_out statuses

-- A rollout summary has the numbers of clusters that the plan updates and that it finds timed out, and
-- counts by the state of its status each cluster that is neither; those whose status has timed out are
-- added to the timed-out ones. Its Progressing condition is False with the reason Complete if as many
-- clusters have succeeded as are selected and none is updating, failed or timed out, and True with the
-- reason Progressing otherwise. The numbers of clusters fit an int32.
pub new_rollout_summary-IsCounted :
    (k : StatusConditions) (total : ℕ) (updating late : Names) (statuses : Map ClusterRolloutStatus)
    (previous : List Condition) (generation : ℕ)
    → length updating ≤ max_int32
    → length late + length statuses ≤ max_int32
    → (let r = new_rollout_summary k total updating late statuses previous generation in
        IsCounted updating late statuses total r
        × (verdict_of (report_at k r.conditions ConditionTypes.progressing)
            ≡ some (
                if nat_eq r.succeeded r.total
                  && (nat_eq r.failed 0 && (nat_eq r.timed_out 0 && nat_eq r.updating 0))
                then (status_false, Reasons.complete)
                else (status_true, Reasons.progressing))))
unfolding new_rollout_summary is_complete
new_rollout_summary-IsCounted k total updating late statuses previous generation h m =
    let start = start_summary total updating late previous in
    let counted = count_states updating late statuses start in
    let (a, b, c, d, e) = start_summary-counts total updating late previous h (omega arith) in
    let room : RolloutRoom updating late (length statuses) start = record {
      succeeded = omega (arith, c);
      failed = omega (arith, d);
      timed_out = omega (arith, e);
    } in
    let totals = count_states-totals updating late statuses start room in
    let (p, q, r, u, v) = set_progressing-keeps_counts k generation counted in
    (
      record {
        total_lem = omega (arith, totals, a, p);
        updating_lem = omega (arith, totals, b, q);
        succeeded_lem = omega (arith, totals, c, r);
        failed_lem = omega (arith, totals, d, u);
        timed_out_lem = omega (arith, totals, e, v);
      },
      set_progressing-report k generation counted,
    )
