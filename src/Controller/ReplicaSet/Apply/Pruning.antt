-- ===== src/Controller/ReplicaSet/Apply/Pruning.antt =====
-- What pruning may delete, and what it reports.
use aws_workload_identity_op.Prelude.{
  ℕ, ◌+◌, String, ◌≡◌, true, false, if◌then◌else◌, List, [], ◌∷◌, select, arith, length,
  length-append, All, select-All, Bool-cases, inl, inr,
}
use aws_workload_identity_op.Api.Errors.{Result, ok, err, ◌>>=◌, wrap_result}
use aws_workload_identity_op.Api.Types.{Role}
use aws_workload_identity_op.Controller.ReplicaSet.Types.{ReplicaSet}
use aws_workload_identity_op.Controller.ReplicaSet.Template.{owns_child}
use aws_workload_identity_op.Controller.ReplicaSet.Server.{Server, Names, has}
use aws_workload_identity_op.Controller.ReplicaSet.Apply.{
  prune_children, prune_child, list_owned_children,
}

owned_of :
    (rs : ReplicaSet) (message : String) (r : Result (List Role)) (children : List Role)
    → (wrap_result message r >>= λ items. ok (select (owns_child rs) items)) ≡ ok children
    → All (λ c. owns_child rs c ≡ true) children
owned_of rs message (ok items) children h =
    let e : select (owns_child rs) items ≡ children = cc in
    rw (← e) (select-All (owns_child rs) items)
owned_of rs message (err e) children h = cc

-- Every child that the controller works on is one that the ReplicaSet owns.
pub list_owned_children-owned :
    {S : Type 0} (server : Server S) (s : S) (rs : ReplicaSet) (children : List Role)
    → list_owned_children server s rs ≡ ok children
    → All (λ c. owns_child rs c ≡ true) children
unfolding list_owned_children
list_owned_children-owned server s rs children h = owned_of rs _ _ children h

module _ {S : Type 0} (server : Server S) (selected : Names) where
  -- How many of the children are in no selected namespace.
  abbrev pub unselected : List Role → ℕ
  unselected [] = 0
  unselected (c ∷ cs) = (if has c.meta.namespace selected then 0 else 1) + unselected cs

  -- A child that pruning may delete.
  abbrev pub IsStale : Role → Type 0
  IsStale c = (has c.meta.namespace selected ≡ false) × (c.meta.deleting ≡ false)

  -- `P` survives the deletion of each stale child of the list.
  abbrev pub SurvivesPruning : (S → Type 0) → List Role → Type 0
  SurvivesPruning P children =
      All (λ c. IsStale c → (s : S) → P s → P (server.delete_role c s).1) children

  prune_child-keeps :
      (P : S → Type 0) (child : Role) (s : S)
      → (IsStale child → (t : S) → P t → P (server.delete_role child t).1)
      → P s
      → P (prune_child server child selected s).1
  unfolding prune_child
  prune_child-keeps P child s h p = elim (Bool-cases (has child.meta.namespace selected)) [
    | inl yes_selected ↦ rw yes_selected p
    | inr stray ↦ elim (Bool-cases child.meta.deleting) [
      | inl gone ↦ simp (stray, gone) p
      | inr live ↦ simp (stray, live) (h (stray, live) s p)
    ]
  ]

  prune_child-count :
      (child : Role) (s : S)
      → (let r = (prune_child server child selected s).0 in
          r.0 + length r.1 ≡ (if has child.meta.namespace selected then 0 else 1))
  unfolding prune_child
  prune_child-count child s = ground arith

  -- Pruning deletes only children of the list that stand in no selected namespace and are not already
  -- being deleted: a property of the server's state that survives these deletions survives pruning. Each
  -- child in no selected namespace is either counted as pruned or has its error returned.
  pub prune_children-keeps :
      (P : S → Type 0) (children : List Role) (s : S)
      → SurvivesPruning P children
      → P s
      → P (prune_children server children selected s).1
        × ((prune_children server children selected s).0.0
              + length (prune_children server children selected s).0.1
            ≡ unselected children)
  unfolding prune_children
  prune_children-keeps P [] s h p = (p, omega arith)
  prune_children-keeps P (c ∷ cs) s h p =
      let kept = prune_child-keeps P c s h.0 p in
      let here = prune_child server c selected s in
      let (later, count) = prune_children-keeps P cs here.1 h.1 kept in
      (
        later,
        omega (
          arith,
          count,
          prune_child-count c s,
          length-append here.0.1 (prune_children server cs selected here.1).0.1,
        ),
      )
