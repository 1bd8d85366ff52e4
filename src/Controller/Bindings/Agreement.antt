-- ===== src/Controller/Bindings/Agreement.antt =====
-- The two controllers agree on conflicting bindings, and a conflict is not delivered.
use aws_workload_identity_op.Prelude.{
  if◌then◌else◌, Bool, false, none, ap, sym, map, ◌∙◌, ◌≡◌, ◌==◌, ◌⊎◌, ◌++◌, String, Bool-cases,
  inl, inr, refl, arith, List, [], ◌∷◌,
}
use aws_workload_identity_op.Prelude.Sorting.{sort, str_le}
use aws_workload_identity_op.Controller.Bindings.{key_text}
use aws_workload_identity_op.Controller.Bindings.Names.{append_nil, has_role, binding_names_lem}
use aws_workload_identity_op.Api.Errors.{Result, ok, err}
use aws_workload_identity_op.Api.Types.{Role, NamespacedName}
use aws_workload_identity_op.Controller.Annotations.{
  RemoteClient, ServiceAccount, patch_object_annotations,
}
use aws_workload_identity_op.Controller.Bindings.{
  active_roles, conflicting_role_names, binding_names, repair, with_roles, with_account,
  patched_role, reconcile_remote_service_account,
}

active_roles-append :
    (roles : List Role) (role : Role)
    → role.meta.deleting ≡ false
    → active_roles (roles ++ role ∷ []) ≡ active_roles roles ++ role ∷ []
unfolding active_roles
active_roles-append [] role live = simp live refl
active_roles-append (r ∷ rs) role live = elim (Bool-cases r.meta.deleting) [
  | inl gone ↦ simp gone (active_roles-append rs role live)
  | inr stays ↦ simp stays (ap (λ x. r ∷ x) (active_roles-append rs role live))
]

map-append {ℓ κ} :
    {A : Type ℓ} {B : Type κ} (f : A → B) (xs ys : List A) → map f (xs ++ ys) ≡ map f xs ++ map f ys
map-append f [] ys = refl
map-append f (x ∷ xs) ys = rw (map-append f xs ys) refl

-- For a role that is not being deleted, the names that its controller reports as conflicting are those
-- that the controller of service accounts finds with the same index, if the index lists the role as
-- active, and otherwise those that it finds once the index lists the role too.
pub binding_names-conflicting_role_names :
    (role : Role) (roles : List Role)
    → role.meta.deleting ≡ false
    → binding_names role roles
      ≡ conflicting_role_names
          (active_roles (if has_role role (active_roles roles) then roles else roles ++ role ∷ []))
unfolding conflicting_role_names
binding_names-conflicting_role_names role roles live =
    binding_names_lem role roles ∙ elim (Bool-cases (has_role role (active_roles roles))) [
      | inl listed ↦ simp (listed, append_nil) refl
      | inr missing ↦
          simp (missing, active_roles-append roles role live)
            (ap (sort str_le) (sym (map-append key_text (active_roles roles) (role ∷ []))))
    ]

if_false {ℓ} : {A : Type ℓ} (b : Bool) (x y : A) → b ≡ false → (if b then x else y) ≡ y
if_false b x y h = simp h refl

module _ {S : Type 0} (remote : RemoteClient S) (namespace : String) (key : NamespacedName)
    (s : S) where
  -- The one active role of the service account, whose ARN was written to what was read.
  pub record IsRepair (roles : Result (List Role)) (s' : S) : Type 0 where
    pub listed : List Role
    pub role : Role
    pub current : ServiceAccount
    pub lists : roles ≡ ok listed
    pub single : active_roles listed ≡ role ∷ []
    pub read : remote.get_service_account s key ≡ ok current
    pub wrote : s' ≡ (patch_object_annotations remote current role.status.role_arn s).1

  patched_role-state : (answer : Result _ × S) → (patched_role remote key answer).1 ≡ answer.1
  unfolding patched_role
  patched_role-state (ok _, t) = refl
  patched_role-state (err e, t) = refl

  repair-IsRepair :
      (current : ServiceAccount) (listed active : List Role)
      → active_roles listed ≡ active
      → remote.get_service_account s key ≡ ok current
      → (let s' = (repair remote key current active s).1 in (s' ≡ s) ⊎ IsRepair (ok listed) s')
  unfolding repair
  repair-IsRepair current listed [] h g = inl refl
  repair-IsRepair current listed (role ∷ []) h g = elim (Bool-cases (role.status.role_arn == "")) [
    | inl empty ↦ simp empty (inl refl)
    | inr named ↦ inr (record {
      listed = listed;
      role = role;
      current = current;
      lists = refl;
      single = h;
      read = g;
      wrote =
          (λ i.
            (if_false _ (none, s)
              (patched_role remote key
                (patch_object_annotations remote current role.status.role_arn s))
              named i).1)
          ∙ patched_role-state _;
    })
  ]
  repair-IsRepair current listed (role ∷ other ∷ rest) h g = inl refl

  with_account-IsRepair :
      (roles : Result (List Role)) (answer : Result ServiceAccount)
      → remote.get_service_account s key ≡ answer
      → (let s' = (with_account remote namespace key roles answer s).1 in
          (s' ≡ s) ⊎ IsRepair roles s')
  unfolding with_account with_roles
  with_account-IsRepair (ok listed) (ok current) g = repair-IsRepair current listed _ refl g
  with_account-IsRepair (err e) (ok current) g = inl refl
  with_account-IsRepair roles (err e) g = ground arith

  -- The repair of a service account changes nothing, or writes to the service account that was read the
  -- ARN of the one active role that binds it: two active roles never take turns in its annotations.
  pub reconcile_remote_service_account-IsRepair :
      (roles : Result (List Role))
      → (let s' = (reconcile_remote_service_account remote namespace key roles s).1 in
          (s' ≡ s) ⊎ IsRepair roles s')
  unfolding reconcile_remote_service_account
  reconcile_remote_service_account-IsRepair roles = with_account-IsRepair roles _ refl
