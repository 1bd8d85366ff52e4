-- ===== src/Controller/Config/Steps/Current.antt =====
-- Which conditions of a config a step leaves at the current generation.
use mathlib.Core.Option
use aws_workload_identity_op.Prelude.{
  ℕ, String, ◌==◌, ◌≡◌, Bool, true, false, ◌||◌, some, Bool-cases, inl, inr, arith, refl, ◌∙◌, List,
}
use aws_workload_identity_op.Api.Conditions.{
  Condition, ConditionStatus, StatusConditions, report_at,
}
use aws_workload_identity_op.Api.Errors.{Result, ok, err}
use aws_workload_identity_op.Api.Types.{Config}
use aws_workload_identity_op.Controller.Common.{set_condition, set_ack_ready_condition}
use aws_workload_identity_op.Controller.Common.Reports.{report_at-set_condition}
use aws_workload_identity_op.Controller.Config.Steps.{
  Answer, Step, after, answer, set_on, set_ack_on,
}

-- One type more.
abbrev pub or_type : String → (String → Bool) → String → Bool
or_type t0 types t = (t0 == t) || types t

module _ (k : StatusConditions) (generation : ℕ) where
  -- The condition reports the generation.
  abbrev pub IsObserved : List Condition → String → Type 0
  IsObserved cs t = Option.map (λ r. r.observed_generation) (report_at k cs t) ≡ some generation

  -- A config of the generation, with the conditions of some types at it.
  pub record IsCurrent (types : String → Bool) (c : Config) : Type 0 where
    pub generation_is : c.meta.generation ≡ generation
    pub observed : (t : String) → types t ≡ true → IsObserved c.status.conditions t

  abbrev pub Ends : {S A : Type 0} → (String → Bool) → Answer S A → Type 0
  Ends types (ok a, c, s) = IsCurrent types c
  Ends types (err e, c, s) = c.meta.generation ≡ generation

  pub after-Ends :
      {S A B : Type 0} (types types' : String → Bool) (x : Answer S A) (f : A → Step S B)
      → Ends types x
      → ((a : A) (c : Config) (s : S) → IsCurrent types c → Ends types' (f a c s))
      → Ends types' (after x f)
  unfolding after
  after-Ends types types' (ok a, c, s) f h next = next a c s h
  after-Ends types types' (err e, c, s) f h next = h

  pub answer-Ends :
      {S A : Type 0} (types : String → Bool) (a : Result A) (c : Config) (s : S)
      → IsCurrent types c
      → Ends types (answer a c s)
  answer-Ends types (ok a) c s h = h
  answer-Ends types (err e) c s h = h.generation_is

  pub IsCurrent-weaken :
      (types types' : String → Bool) (c : Config)
      → ((t : String) → types' t ≡ true → types t ≡ true)
      → IsCurrent types c
      → IsCurrent types' c
  IsCurrent-weaken types types' c w h = record {
    generation_is = h.generation_is;
    observed = λ t m. h.observed t (w t m);
  }

  set_condition-IsObserved :
      (cs : List Condition) (types : String → Bool) (t0 : String) (status : ConditionStatus)
      (reason message : String)
      → ((t : String) → types t ≡ true → IsObserved cs t)
      → (t : String) → or_type t0 types t ≡ true
      → IsObserved (set_condition k cs generation t0 status reason message) t
  set_condition-IsObserved cs types t0 status reason message h t m = elim (Bool-cases (t0 == t)) [
    | inl same ↦
        rw (report_at-set_condition k cs generation t0 status reason message t) (simp same refl)
    | inr other ↦
        rw (report_at-set_condition k cs generation t0 status reason message t)
          (simp other (h t (ground (arith, m, other))))
  ]

  pub set_on-IsCurrent :
      (types : String → Bool) (c : Config) (t0 : String) (status : ConditionStatus)
      (reason message : String)
      → IsCurrent types c
      → IsCurrent (or_type t0 types) (set_on k c t0 status reason message)
  unfolding set_on
  set_on-IsCurrent types c t0 status reason message h = record {
    generation_is = h.generation_is;
    observed =
        rw h.generation_is
          (set_condition-IsObserved c.status.conditions types t0 status reason message h.observed);
  }

  pub set_ack_on-IsCurrent :
      (types : String → Bool) (c : Config) (t0 kind : String) (synced observed : Bool)
      → IsCurrent types c
      → IsCurrent (or_type t0 types) (set_ack_on k c t0 kind synced observed)
  unfolding set_ack_on set_ack_ready_condition
  set_ack_on-IsCurrent types c t0 kind true true h = record {
    generation_is = h.generation_is;
    observed =
        rw h.generation_is (set_condition-IsObserved c.status.conditions types t0 _ _ _ h.observed);
  }
  set_ack_on-IsCurrent types c t0 kind true false h = record {
    generation_is = h.generation_is;
    observed =
        rw h.generation_is (set_condition-IsObserved c.status.conditions types t0 _ _ _ h.observed);
  }
  set_ack_on-IsCurrent types c t0 kind false observed h = record {
    generation_is = h.generation_is;
    observed =
        rw h.generation_is (set_condition-IsObserved c.status.conditions types t0 _ _ _ h.observed);
  }

  -- A config with the same generation and the same conditions.
  pub IsCurrent-same :
      (types : String → Bool) (c c' : Config)
      → c'.meta.generation ≡ c.meta.generation
      → c'.status.conditions ≡ c.status.conditions
      → IsCurrent types c
      → IsCurrent types c'
  IsCurrent-same types c c' generation_same conditions_same h = record {
    generation_is = generation_same ∙ h.generation_is;
    observed = rw conditions_same h.observed;
  }
