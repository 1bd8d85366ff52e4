-- ===== src/Prelude/Maps.antt =====
-- Go's `map[string]V` as an association list. A read takes the first entry of its key.
use Prim.Native.String.{String}
use mathlib.Core.Path.{◌≡◌, refl}
use mathlib.Core.Option.{Option, none, some}
use mathlib.Core.List.{List, [], ◌∷◌}
use native.Mathlib.Omega.{arith}
use text.Mathlib.Text.{◌==◌}
use text.Mathlib.TextEquality.{eq_iff}
use aws_workload_identity_op.Prelude.Tests.{if◌then◌else◌}

abbrev pub Map {ℓ} : Type ℓ → Type ℓ
Map V = List (String × V)

module _ {ℓ} {V : Type ℓ} where
  unfoldable pub lookup : String → Map V → Option V
  lookup key [] = none
  lookup key ((first, value) ∷ entries) = if first == key then some value else lookup key entries

  -- m[key] = value
  unfoldable pub insert : String → V → Map V → Map V
  insert key value [] = (key, value) ∷ []
  insert key value ((first, old) ∷ entries) =
      if first == key then (first, value) ∷ entries else (first, old) ∷ insert key value entries

  -- delete(m, key)
  unfoldable pub remove : String → Map V → Map V
  remove key [] = []
  remove key ((first, old) ∷ entries) =
      let rest = remove key entries in if first == key then rest else (first, old) ∷ rest

  -- maps.Copy(dst, src)
  unfoldable pub copy_into : Map V → Map V → Map V
  unfolding insert
  copy_into dst [] = dst
  copy_into dst ((first, value) ∷ src) = copy_into (insert first value dst) src

  pub lookup-insert :
      (key wanted : String) (value : V) (entries : Map V)
      → lookup wanted (insert key value entries)
        ≡ (if key == wanted then some value else lookup wanted entries)
  unfolding lookup insert
  lookup-insert key wanted value [] = refl
  lookup-insert key wanted value ((first, old) ∷ entries) =
      let later = lookup-insert key wanted value entries in
      ground (arith, later, eq_iff first key, eq_iff first wanted, eq_iff key wanted)

  pub lookup-remove :
      (key wanted : String) (entries : Map V)
      → lookup wanted (remove key entries) ≡ (if key == wanted then none else lookup wanted entries)
  unfolding lookup remove
  lookup-remove key wanted [] = ground arith
  lookup-remove key wanted ((first, old) ∷ entries) =
      let later = lookup-remove key wanted entries in
      ground (arith, later, eq_iff first key, eq_iff first wanted, eq_iff key wanted)

-- m[k] of a `map[string]string`, "" on a missing key.
abbrev pub text_or_empty : Option String → String
text_or_empty none = ""
text_or_empty (some v) = v

unfoldable pub lookup_text : String → Map String → String
unfolding lookup
lookup_text k m = text_or_empty (lookup k m)
