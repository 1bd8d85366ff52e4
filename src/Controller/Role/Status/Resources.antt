-- ===== src/Controller/Role/Status/Resources.antt =====
-- The list of ACK resources of a role.
use aws_workload_identity_op.Prelude.{
  suc, ◌≡◌, ◌∙◌, sym, Bool, true, false, some, Option, arith, List, [], ◌∷◌, refl, Bool-cases, inl,
  inr, any, length, if◌then◌else◌, find_first, eq_iff,
}
use aws_workload_identity_op.Api.Types.{AckResourceStatus}
use aws_workload_identity_op.Controller.Role.Status.{same_resource, upsert_ack_resource}

-- The first entry with the key of a resource.
abbrev pub entry_for : AckResourceStatus → List AckResourceStatus → Option AckResourceStatus
entry_for key resources = find_first (λ r. same_resource r key) resources

same_resource_trans :
    (a b c : AckResourceStatus) → same_resource a b ≡ true → same_resource a c ≡ same_resource b c
same_resource_trans a b c h = ground (
  arith,
  eq_iff a.api_version b.api_version,
  eq_iff a.kind b.kind,
  eq_iff a.namespace b.namespace,
  eq_iff a.name b.name,
)

same_resource_sym : (a b : AckResourceStatus) → same_resource a b ≡ same_resource b a
same_resource_sym a b = ground (
  arith,
  eq_iff a.api_version b.api_version,
  eq_iff a.kind b.kind,
  eq_iff a.namespace b.namespace,
  eq_iff a.name b.name,
  eq_iff b.api_version a.api_version,
  eq_iff b.kind a.kind,
  eq_iff b.namespace a.namespace,
  eq_iff b.name a.name,
)

if_twice {ℓ} :
    {A : Type ℓ} (b : Bool) (x y z : A)
    → (if b then x else z) ≡ (if b then x else (if b then y else z))
if_twice true x y z = refl
if_twice false x y z = refl

-- After an upsert the key of the entry reads the entry, every other key reads what it read before, and
-- the list is longer by one exactly when the key was absent.
pub upsert_ack_resource-entry_for :
    (resources : List AckResourceStatus) (entry key : AckResourceStatus)
    → (entry_for key (upsert_ack_resource resources entry)
        ≡ (if same_resource entry key then some entry else entry_for key resources))
      × (length (upsert_ack_resource resources entry) ≡ (
          if any (λ r. same_resource r entry) resources
          then length resources
          else suc (length resources)))
unfolding upsert_ack_resource
upsert_ack_resource-entry_for [] entry key = ground arith
upsert_ack_resource-entry_for (r ∷ rest) entry key =
    let (reads, counts) = upsert_ack_resource-entry_for rest entry key in
    elim (Bool-cases (same_resource r entry)) [
      | inl same ↦
          simp (same, same_resource_trans r entry key same)
            (if_twice (same_resource entry key) (some entry) (some r) (entry_for key rest), refl)
      | inr differs ↦ elim (Bool-cases (same_resource r key)) [
        | inl here ↦
            (let other : same_resource entry key ≡ false =
                same_resource_sym entry key
                ∙ (sym (same_resource_trans r key entry here) ∙ differs) in
              simp (differs, here, other) (refl, ground (arith, counts)))
        | inr away ↦ simp (differs, away) (reads, ground (arith, counts))
      ]
    ]
