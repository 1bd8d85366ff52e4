-- ===== src/Api/Errors.antt =====
-- Go's `error` values. An error of the Kubernetes client is given by what apierrors.IsNotFound,
-- IsAlreadyExists and IsForbidden and meta.IsNoMatchError answer on it, and by its text. Wrapping
-- with `%w` keeps the answers, since these functions look through a wrapped error.
use Prim.Native.String.{◌++◌, []}
use aws_workload_identity_op.Prelude.{String, Bool, false, List, [], ◌∷◌}

pub record Failure : Type 0 where
  pub not_found : Bool
  pub no_match : Bool
  pub already_exists : Bool
  pub forbidden : Bool
  pub text : String

-- errors.New, and fmt.Errorf with no `%w`.
abbrev pub failure : String → Failure
failure message = record {
  not_found = false;
  no_match = false;
  already_exists = false;
  forbidden = false;
  text = message;
}

-- fmt.Errorf("prefix: %w", e)
abbrev pub wrap : String → Failure → Failure
wrap prefix e = record e { text = prefix ++ (": " ++ e.text) }

pub data Result {ℓ} (A : Type ℓ) : Type ℓ where
  ok : A → Result A
  err : Failure → Result A

infixl 5 ◌>>=◌
abbrev pub ◌>>=◌ {ℓ κ} : {A : Type ℓ} {B : Type κ} → Result A → (A → Result B) → Result B
ok a >>= f = f a
err e >>= f = err e

abbrev pub wrap_result {ℓ} : {A : Type ℓ} → String → Result A → Result A
wrap_result prefix (ok a) = ok a
wrap_result prefix (err e) = err (wrap prefix e)

abbrev pub errors_of_result {ℓ} : {A : Type ℓ} → Result A → List Failure
errors_of_result (ok a) = []
errors_of_result (err e) = e ∷ []
