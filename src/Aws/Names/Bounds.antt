-- ===== src/Aws/Names/Bounds.antt =====
-- The lengths of the names, and the characters of their parts.
use Prim.Native.String
use Prim.Native.String.{String}
use text.Mathlib.TextLemmas.{nil-append, cons-append}
use aws_workload_identity_op.Prelude.{
  ℕ, zero, suc, ◌+◌, ◌-◌, ◌≤◌, ◌≡◌, Bool, true, false, ◌&&◌, arith, refl, List, [], ◌∷◌, leb,
  Bool-cases, inl, inr, join, ◌==◌,
}
use aws_workload_identity_op.Api.Types.{Role}
use aws_workload_identity_op.Aws.Names.{
  text_length, take_text, trim_right, suffix, bounded_name, bucket_name, role_name, policy_name,
  owner_label_value, dashed, is_dns_char, safe_dns_part, replace_unsafe, is_dash, trim_left, or_x,
  to_lower,
}

text_length-append : (a b : String) → text_length (String.◌++◌ a b) ≡ text_length a + text_length b
text_length-append String.[] b = rw nil-append (omega arith)
text_length-append (String.◌∷◌ c s) b = rw cons-append (omega (arith, text_length-append s b))

text_length-take_text : (n : ℕ) (s : String) → text_length (take_text n s) ≤ n
unfolding take_text
text_length-take_text zero s = omega arith
text_length-take_text (suc n) String.[] = omega arith
text_length-take_text (suc n) (String.◌∷◌ c s) = omega (arith, text_length-take_text n s)

text_length-trim_right : (s : String) → text_length (trim_right s) ≤ text_length s
unfolding trim_right
text_length-trim_right String.[] = omega arith
text_length-trim_right (String.◌∷◌ c s) = elim (Bool-cases (is_dash c && (trim_right s == ""))) [
  | inl drops ↦ simp drops (omega arith)
  | inr keeps ↦ simp keeps (omega (arith, text_length-trim_right s))
]

text_length-dashed : (a b : String) → text_length (dashed a b) ≡ text_length a + 1 + text_length b
text_length-dashed a b = rw (text_length-append a, text_length-append "-" b) (omega arith)

module _ (digest : String → String) where
  text_length-bounded_name :
      (base : String) (limit : ℕ) (parts : List String)
      → 11 ≤ limit
      → text_length (bounded_name digest base limit parts) ≤ limit
  unfolding bounded_name suffix
  text_length-bounded_name base limit parts h =
      let tail = suffix digest parts in
      let full = dashed base tail in
      let short = text_length-take_text 10 (digest (join "/" parts)) in
      elim (Bool-cases (leb (text_length full) limit)) [
        | inl fits ↦ simp fits (ground arith)
        | inr long ↦ simp long (
            rw
              (text_length-dashed (trim_right (take_text (limit - text_length tail - 1) full)) tail)
              (omega (
                arith,
                short,
                text_length-trim_right (take_text (limit - text_length tail - 1) full),
                text_length-take_text (limit - text_length tail - 1) full,
              )))
      ]

  -- Whatever the names of the objects, the name of an S3 bucket has at most 63 characters, that of an
  -- IAM role at most 64, that of an IAM policy at most 128 and the value of an owner label at most 63.
  pub names_bounds :
      (namespace region name : String) (r : Role)
      → (text_length (bucket_name digest namespace region) ≤ 63)
        × (text_length (role_name digest r) ≤ 64)
        × (text_length (policy_name digest r) ≤ 128)
        × (text_length (owner_label_value digest namespace name) ≤ 63)
  unfolding bucket_name role_name policy_name owner_label_value
  names_bounds namespace region name r = (
    text_length-bounded_name _ 63 (namespace ∷ region ∷ []) (omega arith),
    text_length-bounded_name _ 64 (r.meta.uid ∷ r.meta.namespace ∷ r.meta.name ∷ []) (omega arith),
    text_length-bounded_name _ 128 (r.meta.uid ∷ "policy" ∷ r.meta.namespace ∷ r.meta.name ∷ [])
        (omega arith),
    text_length-bounded_name _ 63 (namespace ∷ name ∷ []) (omega arith),
  )

abbrev pub IsDnsText : String → Type 0
IsDnsText String.[] = Unit
IsDnsText (String.◌∷◌ c s) = (is_dns_char c ≡ true) × IsDnsText s

replace_unsafe-IsDnsText : (in_run : Bool) (s : String) → IsDnsText (replace_unsafe in_run s)
unfolding replace_unsafe is_dns_char is_dash
replace_unsafe-IsDnsText in_run String.[] = tt
replace_unsafe-IsDnsText in_run (String.◌∷◌ c s) = elim (Bool-cases (is_dns_char c)) [
  | inl safe ↦ (let rest = replace_unsafe-IsDnsText false s in simp safe (refl, rest))
  | inr unsafe ↦
      (let rest = replace_unsafe-IsDnsText true s in
        elim (Bool-cases in_run) [
          | inl again ↦ simp (unsafe, again) rest
          | inr first ↦ simp (unsafe, first) (refl, rest)
        ])
]

trim_left-IsDnsText : (s : String) → IsDnsText s → IsDnsText (trim_left s)
unfolding trim_left
trim_left-IsDnsText String.[] h = tt
trim_left-IsDnsText (String.◌∷◌ c s) h = elim (Bool-cases (is_dash c)) [
  | inl drops ↦ simp drops (trim_left-IsDnsText s h.1)
  | inr keeps ↦ simp keeps h
]

trim_right-IsDnsText : (s : String) → IsDnsText s → IsDnsText (trim_right s)
unfolding trim_right
trim_right-IsDnsText String.[] h = tt
trim_right-IsDnsText (String.◌∷◌ c s) h = elim (Bool-cases (is_dash c && (trim_right s == ""))) [
  | inl drops ↦ simp drops tt
  | inr keeps ↦ simp keeps (h.0, trim_right-IsDnsText s h.1)
]

or_x-IsDnsText : (s : String) → IsDnsText s → IsDnsText (or_x s) × (1 ≤ text_length (or_x s))
unfolding or_x is_dns_char is_dash
or_x-IsDnsText String.[] h = ((refl, tt), omega arith)
or_x-IsDnsText (String.◌∷◌ c s) h = (h, omega arith)

-- The part of a name that stands for any text is not empty and has only the characters a to z, 0 to 9
-- and the hyphen.
pub safe_dns_part-IsDnsText :
    (s : String) → IsDnsText (safe_dns_part s) × (1 ≤ text_length (safe_dns_part s))
unfolding safe_dns_part
safe_dns_part-IsDnsText s =
    or_x-IsDnsText _
      (trim_right-IsDnsText _ (trim_left-IsDnsText _ (replace_unsafe-IsDnsText false (to_lower s))))
