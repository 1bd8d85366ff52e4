-- ===== src/Controller/Bindings/Names.antt =====
-- What the loop of conflictingServiceAccountBindingNames collects.
use aws_workload_identity_op.Prelude.{
  ◌≡◌, ◌∙◌, ◌==◌, ◌++◌, ◌||◌, String, Bool, Bool-cases, true, false, not, inl, inr, refl, arith,
  List, [], ◌∷◌, any, map, if◌then◌else◌, sym, ap,
}
use aws_workload_identity_op.Prelude.Sorting.{sort, str_le}
use aws_workload_identity_op.Api.Types.{Role}
use aws_workload_identity_op.Controller.Bindings.{
  active_roles, binding_loop, binding_names, key_text,
}

pub append_nil {ℓ} : {A : Type ℓ} (xs : List A) → xs ++ [] ≡ xs
append_nil [] = refl
append_nil (x ∷ xs) = rw (append_nil xs) refl

append_assoc {ℓ} : {A : Type ℓ} (xs ys zs : List A) → (xs ++ ys) ++ zs ≡ xs ++ (ys ++ zs)
append_assoc [] ys zs = refl
append_assoc (x ∷ xs) ys zs = rw (append_assoc xs ys zs) refl

-- The role is in the list, by its UID.
abbrev pub has_role : Role → List Role → Bool
has_role role roles = any (λ r. r.meta.uid == role.meta.uid) roles

binding_loop_lem :
    (role : Role) (roles : List Role) (names : List String) (found : Bool)
    → binding_loop role roles (names, found)
      ≡ (names ++ map key_text (active_roles roles), found || has_role role (active_roles roles))
unfolding binding_loop active_roles
binding_loop_lem role [] names found = rw (append_nil names) (ground arith)
binding_loop_lem role (r ∷ rs) names found = elim (Bool-cases r.meta.deleting) [
  | inl gone ↦ simp gone (binding_loop_lem role rs names found)
  | inr live ↦ simp live (
      binding_loop_lem role rs (names ++ key_text r ∷ [])
        (if r.meta.uid == role.meta.uid then true else found)
      ∙ (λ i. (
        append_assoc names (key_text r ∷ []) (map key_text (active_roles rs)) i,
        or_shift (r.meta.uid == role.meta.uid) found (has_role role (active_roles rs)) i,
      )))
]
  where
    or_shift : (b f h : Bool) → (if b then true else f) || h ≡ f || (b || h)
    or_shift b f h = ground arith

-- The names of the active roles, and that of the role itself unless it is one of them.
pub binding_names_lem :
    (role : Role) (roles : List Role)
    → binding_names role roles
      ≡ sort str_le (
          map key_text (active_roles roles)
          ++ (if has_role role (active_roles roles) then [] else key_text role ∷ []))
unfolding binding_names
binding_names_lem role roles =
    (λ i.
      let (conflicts, self_found) = binding_loop_lem role roles [] false i in
      sort str_le (if not self_found then conflicts ++ key_text role ∷ [] else conflicts))
    ∙ ap (sort str_le) (
        added (has_role role (active_roles roles)) (map key_text (active_roles roles))
          (key_text role))
  where
    added :
        (b : Bool) (xs : List String) (x : String)
        → (if not b then xs ++ x ∷ [] else xs) ≡ xs ++ (if b then [] else x ∷ [])
    added true xs x = sym (append_nil xs)
    added false xs x = refl
