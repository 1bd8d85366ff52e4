-- ===== src/Prelude/Sorting.antt =====
-- `slices.Sort` and `slices.SortFunc`, as a stable insertion sort by a Boolean order.
use Prim.Native.String.{String, compare}
use Prim.Native.Nat.{suc}
use mathlib.Core.Path.{◌≡◌, refl, ap, ◌∙◌}
use mathlib.Core.Bool.{Bool, ◌||◌}
use mathlib.Core.List.{List, [], ◌∷◌}
use native.Mathlib.Omega.{arith}
use text.Mathlib.Text.{is_le, is_lt}
use aws_workload_identity_op.Prelude.Tests.{if◌then◌else◌}
use aws_workload_identity_op.Prelude.Lists.{length, All, select, any}
use mathlib.Core.Logic.{◌↔◌}

-- Go's `<=` and `<` on strings, byte by byte.
abbrev pub str_le : String → String → Bool
str_le s t = is_le (compare s t)

abbrev pub str_lt : String → String → Bool
str_lt s t = is_lt (compare s t)

module _ {ℓ} {A : Type ℓ} where
  unfoldable pub insert_sorted : (A → A → Bool) → A → List A → List A
  insert_sorted le x [] = x ∷ []
  insert_sorted le x (y ∷ ys) =
      let later = y ∷ insert_sorted le x ys in if le x y then x ∷ y ∷ ys else later

  unfoldable pub sort : (A → A → Bool) → List A → List A
  unfolding insert_sorted
  sort le [] = []
  sort le (x ∷ xs) = insert_sorted le x (sort le xs)

module _ {ℓ} {A : Type ℓ} where
  pub length-insert_sorted :
      (le : A → A → Bool) (x : A) (ys : List A) → length (insert_sorted le x ys) ≡ suc (length ys)
  unfolding insert_sorted
  length-insert_sorted le x [] = refl
  length-insert_sorted le x (y ∷ ys) = ground (arith, length-insert_sorted le x ys)

  pub length-sort : (le : A → A → Bool) (xs : List A) → length (sort le xs) ≡ length xs
  unfolding sort
  length-sort le [] = refl
  length-sort le (x ∷ xs) = length-insert_sorted le x (sort le xs) ∙ ap suc (length-sort le xs)

-- Sorting moves items and neither adds nor drops any.
module _ {ℓ κ} {A : Type ℓ} (P : A → Type κ) (le : A → A → Bool) where
  All-insert_sorted : (x : A) (ys : List A) → All P (insert_sorted le x ys) ↔ P x × All P ys
  unfolding insert_sorted
  All-insert_sorted x [] = ground arith
  All-insert_sorted x (y ∷ ys) = ground (arith, All-insert_sorted x ys)

  pub All-sort : (xs : List A) → All P (sort le xs) ↔ All P xs
  unfolding sort
  All-sort [] = ground arith
  All-sort (x ∷ xs) = ground (arith, All-sort xs, All-insert_sorted x (sort le xs))

module _ {ℓ} {A : Type ℓ} (p : A → Bool) (le : A → A → Bool) where
  length-select-insert_sorted :
      (x : A) (ys : List A) → length (select p (insert_sorted le x ys)) ≡ length (select p (x ∷ ys))
  unfolding insert_sorted
  length-select-insert_sorted x [] = refl
  length-select-insert_sorted x (y ∷ ys) = ground (arith, length-select-insert_sorted x ys)

  pub length-select-sort : (xs : List A) → length (select p (sort le xs)) ≡ length (select p xs)
  unfolding sort
  length-select-sort [] = refl
  length-select-sort (x ∷ xs) =
      ground (arith, length-select-sort xs, length-select-insert_sorted x (sort le xs))

  any-insert_sorted : (x : A) (ys : List A) → any p (insert_sorted le x ys) ≡ p x || any p ys
  unfolding insert_sorted
  any-insert_sorted x [] = refl
  any-insert_sorted x (y ∷ ys) = ground (arith, any-insert_sorted x ys)

  pub any-sort : (xs : List A) → any p (sort le xs) ≡ any p xs
  unfolding sort
  any-sort [] = refl
  any-sort (x ∷ xs) = any-insert_sorted x (sort le xs) ∙ ap (λ b. p x || b) (any-sort xs)
