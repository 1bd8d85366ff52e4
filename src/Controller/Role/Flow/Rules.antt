-- ===== src/Controller/Role/Flow/Rules.antt =====
-- The rules for what a step of a reconcile ensures: a fact of the server's state wherever it ends, and
-- one of its value and of the role where it goes on.
use aws_workload_identity_op.Prelude.{Bool, true, false, ◌≡◌, refl, if◌then◌else◌}
use aws_workload_identity_op.Api.Types.{Role}
use aws_workload_identity_op.Controller.Role.Flow.{M, Reached, continue, stop, fail, after, pure}

module _ {S : Type 0} (Q : S → Type 0) where
  unfoldable pub Ensures : {A : Type 0} → (A → Role → Type 0) → Reached S A → Type 0
  Ensures P (continue a, r, s) = Q s × P a r
  Ensures P (stop t, r, s) = Q s
  Ensures P (fail e, r, s) = Q s

  pub after-Ensures :
      {A B : Type 0} (P : A → Role → Type 0) (P' : B → Role → Type 0) (x : Reached S A)
      (f : A → M S B)
      → Ensures P x
      → ((a : A) (r : Role) (s : S) → Q s → P a r → Ensures P' (f a r s))
      → Ensures P' (after x f)
  unfolding Ensures after
  after-Ensures P P' (continue a, r, s) f h next = next a r s h.0 h.1
  after-Ensures P P' (stop t, r, s) f h next = h
  after-Ensures P P' (fail e, r, s) f h next = h

  pub Ensures-weaken :
      {A : Type 0} (P P' : A → Role → Type 0) (x : Reached S A)
      → Ensures P x
      → ((a : A) (r : Role) → P a r → P' a r)
      → Ensures P' x
  unfolding Ensures after
  Ensures-weaken P P' (continue a, r, s) h w = (h.0, w a r h.1)
  Ensures-weaken P P' (stop t, r, s) h w = h
  Ensures-weaken P P' (fail e, r, s) h w = h

  pub pure-Ensures :
      {A B : Type 0} (P : A → Role → Type 0) (P' : B → Role → Type 0) (x : Reached S A) (f : A → B)
      → Ensures P x
      → ((a : A) (r : Role) → P a r → P' (f a) r)
      → Ensures P' (after x (λ a. pure (f a)))
  unfolding Ensures after
  pure-Ensures P P' (continue a, r, s) f h w = (h.0, w a r h.1)
  pure-Ensures P P' (stop t, r, s) f h w = h
  pure-Ensures P P' (fail e, r, s) f h w = h

  pub if-Ensures :
      {A : Type 0} (P : A → Role → Type 0) (b : Bool) (x y : Reached S A)
      → (b ≡ true → Ensures P x)
      → (b ≡ false → Ensures P y)
      → Ensures P (if b then x else y)
  if-Ensures P true x y h g = h refl
  if-Ensures P false x y h g = g refl
