-- ===== src/Controller/Bindings/Conflict.antt =====
-- When a role is in conflict with another that binds its service account.
use aws_workload_identity_op.Prelude.{
  none, some, ◌⊎◌, ◌≡◌, ◌==◌, ◌+◌, ℕ, String, Bool-cases, true, false, inl, inr, refl, arith, List,
  [], ◌∷◌, any, map, length, length-append, if◌then◌else◌, ltb,
}
use aws_workload_identity_op.Prelude.Sorting.{length-sort}
use aws_workload_identity_op.Api.ConditionTypes
use aws_workload_identity_op.Api.Reasons
use aws_workload_identity_op.Api.Conditions.{StatusConditions, status_false, report_at, verdict_of}
use aws_workload_identity_op.Controller.Common.{transient_requeue}
use aws_workload_identity_op.Controller.Bindings.{ConflictOutcome}
use aws_workload_identity_op.Controller.Bindings.Names.{has_role, binding_names_lem}
use aws_workload_identity_op.Api.Errors.{Result, ok, err}
use aws_workload_identity_op.Api.Types.{Role, RoleStatus}
use aws_workload_identity_op.Controller.Common.Reports.{report_at-fail_ready}
use aws_workload_identity_op.Controller.Role.Finalize.{patch_role_status}
use aws_workload_identity_op.Controller.Role.Prepare.Keeps.{patch_role_status-keeps}
use aws_workload_identity_op.Controller.Role.Server.{RoleServer}
use aws_workload_identity_op.Controller.Role.Server.Keeps.{HubKeeps}
use aws_workload_identity_op.Controller.Bindings.{
  active_roles, binding_names, key_text, marked_conflict, conflict_patched, with_names,
  conflicting_binding_names, reconcile_duplicate_binding_conflict,
}

-- The number of the active roles that bind the service account of a role, the role itself included.
abbrev pub bindings : Role → List Role → ℕ
bindings role roles =
    length (active_roles roles)
    + (if any (λ r. r.meta.uid == role.meta.uid) (active_roles roles) then 0 else 1)

length-map-key_text : (roles : List Role) → length (map key_text roles) ≡ length roles
length-map-key_text [] = refl
length-map-key_text (r ∷ rs) = rw (length-map-key_text rs) refl

length-binding_names :
    (role : Role) (roles : List Role) → length (binding_names role roles) ≡ bindings role roles
length-binding_names role roles = elim (Bool-cases (has_role role (active_roles roles))) [
  | inl listed ↦
      rw (binding_names_lem role roles)
        (simp listed (rw (length-sort, length-append, length-map-key_text) refl))
  | inr missing ↦
      rw (binding_names_lem role roles)
        (simp missing (rw (length-sort, length-append, length-map-key_text) refl))
]

module _ (k : StatusConditions) {S : Type 0} (server : RoleServer S) (role : Role)
    (before : RoleStatus) where
  -- The reconcile goes on with the role as it was.
  pub record IsFree (s : S) (o : ConflictOutcome) (s' : S) : Type 0 where
    pub goes_on : o.handled ≡ false
    pub same_role : o.role ≡ role
    pub no_error : o.error ≡ none
    pub same_state : s' ≡ s

  -- The reconcile ends. Ready and DeliveryReady are False with the reason InvalidSpec, and nothing else of
  -- the role changes, the other conditions included.
  pub record IsConflicting (o : ConflictOutcome) : Type 0 where
    pub ends : o.handled ≡ true
    pub not_ready :
        verdict_of (report_at k o.role.status.conditions ConditionTypes.ready)
        ≡ some (status_false, Reasons.invalid_spec)
    pub not_delivered :
        verdict_of (report_at k o.role.status.conditions ConditionTypes.delivery_ready)
        ≡ some (status_false, Reasons.invalid_spec)
    pub others :
        (t : String)
        → (ConditionTypes.ready == t) ≡ false
        → (ConditionTypes.delivery_ready == t) ≡ false
        → report_at k o.role.status.conditions t ≡ report_at k role.status.conditions t
    pub only_conditions :
        o.role
        ≡ record role { status = record role.status { conditions = o.role.status.conditions } }
    pub retried : (o.error ≡ none) → o.requeue_after ≡ transient_requeue

  conflict_patched-IsConflicting :
      (names : List String) (answer : Result (Unit {0}) × S)
      → IsConflicting (conflict_patched k server (marked_conflict k server role names) answer).0
  unfolding conflict_patched marked_conflict
  conflict_patched-IsConflicting names (ok _, s) = record {
    ends = refl;
    not_ready = rw report_at-fail_ready refl;
    not_delivered = rw report_at-fail_ready refl;
    others = λ t a b. rw report_at-fail_ready (simp (a, b) refl);
    only_conditions = refl;
    retried = λ h. refl;
  }
  conflict_patched-IsConflicting names (err e, s) = record {
    ends = refl;
    not_ready = rw report_at-fail_ready refl;
    not_delivered = rw report_at-fail_ready refl;
    others = λ t a b. rw report_at-fail_ready (simp (a, b) refl);
    only_conditions = refl;
    retried = λ h. ground arith;
  }

  with_names-handled :
      (names : List String) (s : S)
      → (let (o, s') = with_names k server role before (ok names) s in
          (ltb (length names) 2 ≡ true) × IsFree s o s'
          ⊎ (ltb (length names) 2 ≡ false) × IsConflicting o)
  unfolding with_names
  with_names-handled names s = elim (Bool-cases (ltb (length names) 2)) [
    | inl single ↦ simp single (
        inl (refl, record { goes_on = refl; same_role = refl; no_error = refl; same_state = refl }))
    | inr several ↦ simp several (
        inr (
          refl,
          conflict_patched-IsConflicting names
              (patch_role_status k server (marked_conflict k server role names) before s),
        ))
  ]

  -- With fewer than two active roles for the service account, those that the index lists and the role
  -- itself, the reconcile goes on, and the role and the server are as before. Otherwise it ends with the
  -- role's Ready and DeliveryReady False for an invalid spec, all else of the role as before, and is
  -- retried if the patch of the status gives no error.
  pub reconcile_duplicate_binding_conflict-handled :
      (roles : List Role) (s : S)
      → (let (o, s') = reconcile_duplicate_binding_conflict k server role before (ok roles) s in
          (ltb (bindings role roles) 2 ≡ true) × IsFree s o s'
          ⊎ (ltb (bindings role roles) 2 ≡ false) × IsConflicting o)
  unfolding reconcile_duplicate_binding_conflict conflicting_binding_names
  reconcile_duplicate_binding_conflict-handled roles s =
      rw (← length-binding_names role roles) (with_names-handled (binding_names role roles) s)

  module _ (Q : S → Type 0) (hub : HubKeeps server Q) where
    conflict_patched-keeps :
        (r : Role) (answer : Result (Unit {0}) × S)
        → Q answer.1
        → Q (conflict_patched k server r answer).1
    unfolding conflict_patched
    conflict_patched-keeps r (ok _, s) q = q
    conflict_patched-keeps r (err e, s) q = q

    with_names-keeps :
        (names : Result (List String)) (s : S) → Q s → Q (with_names k server role before names s).1
    unfolding with_names
    with_names-keeps (err e) s q = q
    with_names-keeps (ok names) s q = elim (Bool-cases (ltb (length names) 2)) [
      | inl single ↦ simp single q
      | inr several ↦
          simp several
            (conflict_patched-keeps _ _ (patch_role_status-keeps k server before Q hub _ s q))
    ]

    pub reconcile_duplicate_binding_conflict-keeps :
        (roles : Result (List Role)) (s : S)
        → Q s
        → Q (reconcile_duplicate_binding_conflict k server role before roles s).1
    unfolding reconcile_duplicate_binding_conflict
    reconcile_duplicate_binding_conflict-keeps roles s q =
        with_names-keeps (conflicting_binding_names role roles) s q
