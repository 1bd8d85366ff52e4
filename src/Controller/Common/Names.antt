-- ===== src/Controller/Common/Names.antt =====
-- namespacedNameFromString of internal/controller/common.go.
use Prim.Native.Char.{code}
use Prim.Native.String
use text.Mathlib.TextLemmas.{nil-append, cons-append, append-nil}
use aws_workload_identity_op.Prelude.{
  ◌≡◌, ◌≢◌, nat_eq, if◌then◌else◌, Option, none, some, arith, String, ◌==◌, eq_iff, ◌||◌,
}
use mathlib.Core.Option
use aws_workload_identity_op.Api.Types.{NamespacedName, name_text}

-- strings.Cut at "/".
unfoldable pub cut_slash : String → Option (String × String)
cut_slash String.[] = none
cut_slash (String.◌∷◌ c s) =
    let rest = Option.map (λ (p : String × String). (String.◌∷◌ c p.0, p.1)) (cut_slash s) in
    if nat_eq (code c) b'/' then some ("", s) else rest

-- `none` is the error "expected namespace/name".
parsed : Option (String × String) → Option NamespacedName
parsed none = none
parsed (some (namespace, name)) =
    if namespace == "" || name == ""
    then none
    else some (record { namespace = namespace; name = name })

unfoldable pub namespaced_name_from_string : String → Option NamespacedName
unfolding cut_slash parsed
namespaced_name_from_string value = parsed (cut_slash value)

abbrev pub HasNoSlash : String → Type 0
HasNoSlash String.[] = Unit {0}
HasNoSlash (String.◌∷◌ c s) = (code c ≢ b'/') × HasNoSlash s

cut_slash-append :
    (namespace name : String)
    → HasNoSlash namespace
    → cut_slash (String.◌++◌ namespace (String.◌++◌ "/" name)) ≡ some (namespace, name)
unfolding cut_slash
cut_slash-append String.[] name h = rw (nil-append, cons-append, nil-append)
cut_slash-append (String.◌∷◌ c s) name h =
    rw cons-append (rw (cut_slash-append s name h.1) (ground arith))

-- A name printed as "namespace/name" parses to the same name, if both halves are nonempty and the
-- namespace holds no slash.
pub namespaced_name_from_string-name_text :
    (n : NamespacedName)
    → HasNoSlash n.namespace
    → n.namespace ≢ ""
    → n.name ≢ ""
    → namespaced_name_from_string (name_text n) ≡ some n
unfolding namespaced_name_from_string parsed
namespaced_name_from_string-name_text n h p q = rw append-nil (
    rw (cut_slash-append n.namespace n.name h, namespaced_name_from_string)
      (ground (arith, eq_iff n.namespace "", eq_iff n.name "")))
