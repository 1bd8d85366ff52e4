-- ===== src/Tests/Fixtures.antt =====
-- Concrete instances of the interfaces to the Kubernetes libraries: lists for the conditions and the
-- finalizers, equality of texts for the semantic comparison, and an API server that keeps its roles in
-- a list.
use aws_workload_identity_op.Prelude.{
  String, ◌==◌, ◌≡◌, refl, Bool, true, false, not, ◌||◌, ◌&&◌, if◌then◌else◌, Option, none, some,
  List, [], ◌∷◌, arith, eq_iff, eq_refl,
}
use mathlib.Core.Option
use aws_workload_identity_op.Api.Types.{RoleSpec}
use aws_workload_identity_op.Prelude.Maps.{Map}
use aws_workload_identity_op.Api.Conditions.{Condition, StatusConditions, is_report_true}
use aws_workload_identity_op.Api.Semantic.{Semantic, FinalizerLists}

abbrev pub set_in : List Condition → Condition → List Condition
set_in [] c = c ∷ []
set_in (x ∷ xs) c = if x.condition_type == c.condition_type then c ∷ xs else x ∷ set_in xs c

abbrev pub find_in : List Condition → String → Option Condition
find_in [] t = none
find_in (x ∷ xs) t = if x.condition_type == t then some x else find_in xs t

abbrev pub is_true_in : List Condition → String → Bool
is_true_in cs t = is_report_true (Option.map (λ x. x.report) (find_in cs t))

pub find_in-set_in :
    (cs : List Condition) (c : Condition) (t : String)
    → Option.map (λ x. x.report) (find_in (set_in cs c) t)
      ≡ (if c.condition_type == t then some c.report else Option.map (λ x. x.report) (find_in cs t))
find_in-set_in [] c t = ground arith
find_in-set_in (x ∷ xs) c t = ground (
  arith,
  find_in-set_in xs c t,
  eq_iff x.condition_type c.condition_type,
  eq_iff x.condition_type t,
  eq_iff c.condition_type t,
)

pub find_in-type :
    (cs : List Condition) (t : String) (c : Condition)
    → find_in cs t ≡ some c
    → c.condition_type ≡ t
find_in-type [] t c h = ground (arith, h)
find_in-type (x ∷ xs) t c h = ground (arith, h, find_in-type xs t c, eq_iff x.condition_type t)

abbrev pub list_conditions : StatusConditions
list_conditions = record {
  set_status = set_in;
  find_status = find_in;
  is_true = is_true_in;
  find-set = find_in-set_in;
  find-type = find_in-type;
  is_true_lem = λ cs t. refl;
}

abbrev pub texts_equal : List String → List String → Bool
texts_equal [] [] = true
texts_equal (x ∷ xs) (y ∷ ys) = (x == y) && texts_equal xs ys
texts_equal _ _ = false

texts_equal_refl : (xs : List String) → texts_equal xs xs ≡ true
texts_equal_refl [] = refl
texts_equal_refl (x ∷ xs) = rw (eq_refl, texts_equal_refl xs) refl

abbrev pub same_map : Map String → Map String → Bool
same_map [] [] = true
same_map ((x, v) ∷ xs) ((y, w) ∷ ys) = (x == y) && (v == w) && same_map xs ys
same_map _ _ = false

pub same_map_refl : (m : Map String) → same_map m m ≡ true
same_map_refl [] = refl
same_map_refl ((x, v) ∷ xs) = simp eq_refl (same_map_refl xs)

abbrev pub same_document : Option String → Option String → Bool
same_document none none = true
same_document (some a) (some b) = a == b
same_document _ _ = false

same_document_refl : (o : Option String) → same_document o o ≡ true
same_document_refl none = refl
same_document_refl (some a) = rw eq_refl refl

abbrev pub same_spec : RoleSpec → RoleSpec → Bool
same_spec a b =
    (a.service_account.namespace == b.service_account.namespace)
    && (a.service_account.name == b.service_account.name)
    && texts_equal a.policy_arns b.policy_arns
    && same_document a.policy_document b.policy_document

pub same_spec_refl : (a : RoleSpec) → same_spec a a ≡ true
same_spec_refl a =
    simp (eq_refl, texts_equal_refl a.policy_arns, same_document_refl a.policy_document) refl

abbrev pub text_equality : Semantic
text_equality = record {
  maps_equal = same_map;
  specs_equal = same_spec;
  maps_equal_refl = same_map_refl;
  specs_equal_refl = same_spec_refl;
}

abbrev pub contains_text : List String → String → Bool
contains_text [] f = false
contains_text (x ∷ xs) f = (x == f) || contains_text xs f

abbrev pub remove_text : List String → String → List String
remove_text [] f = []
remove_text (x ∷ xs) f = if x == f then remove_text xs f else x ∷ remove_text xs f

abbrev pub add_text : List String → String → List String
add_text [] f = f ∷ []
add_text (x ∷ xs) f = if x == f then x ∷ xs else x ∷ add_text xs f

pub contains_text-add_text :
    (fs : List String) (f g : String)
    → contains_text (add_text fs f) g ≡ (f == g) || contains_text fs g
contains_text-add_text [] f g = ground arith
contains_text-add_text (x ∷ xs) f g =
    ground (arith, contains_text-add_text xs f g, eq_iff x f, eq_iff x g, eq_iff f g)

pub contains_text-remove_text :
    (fs : List String) (f g : String)
    → contains_text (remove_text fs f) g ≡ not (f == g) && contains_text fs g
contains_text-remove_text [] f g = ground arith
contains_text-remove_text (x ∷ xs) f g =
    ground (arith, contains_text-remove_text xs f g, eq_iff x f, eq_iff x g, eq_iff f g)

abbrev pub text_finalizers : FinalizerLists
text_finalizers = record {
  contains = contains_text;
  add = add_text;
  remove = remove_text;
  contains-add = contains_text-add_text;
  contains-remove = contains_text-remove_text;
}
