-- ===== src/Api/Semantic.antt =====
-- equality.Semantic.DeepEqual of the Kubernetes libraries, whose source is not in the repository, at
-- the types at which the program calls it. It is documented to hold between equal values.
use aws_workload_identity_op.Prelude.{String, Bool, true, ◌≡◌, List, ◌==◌, ◌||◌, ◌&&◌, not}
use aws_workload_identity_op.Prelude.Maps.{Map}
use aws_workload_identity_op.Api.Types.{RoleSpec}

pub record Semantic : Type 0 where
  pub maps_equal : Map String → Map String → Bool
  pub specs_equal : RoleSpec → RoleSpec → Bool
  pub maps_equal_refl : (m : Map String) → maps_equal m m ≡ true
  pub specs_equal_refl : (a : RoleSpec) → specs_equal a a ≡ true

-- ContainsFinalizer, AddFinalizer and RemoveFinalizer of controllerutil, on the list of finalizers.
pub record FinalizerLists : Type 0 where
  pub contains : List String → String → Bool
  pub add : List String → String → List String
  pub remove : List String → String → List String
  pub contains-add :
      (fs : List String) (f g : String) → contains (add fs f) g ≡ (f == g) || contains fs g
  pub contains-remove :
      (fs : List String) (f g : String) → contains (remove fs f) g ≡ not (f == g) && contains fs g
