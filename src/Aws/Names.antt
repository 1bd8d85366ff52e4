-- ===== src/Aws/Names.antt =====
-- internal/aws/iam_names.go. The texts are ASCII once safeDNSPart has replaced the rest, so a length in
-- characters is one in bytes. The parameter `digest` is the hexadecimal SHA-256 of a text.
pub mod Bounds
use Prim.Native.Char.{Char, code}
use Prim.Native.String
use Prim.Native.String.{String}
use aws_workload_identity_op.Prelude.{
  ℕ, zero, suc, ◌-◌, Bool, true, false, not, ◌&&◌, ◌||◌, if◌then◌else◌, List, [], ◌∷◌, ◌++◌, map,
  ltb, leb, nat_eq, join, ◌==◌,
}
use aws_workload_identity_op.Api.Types.{Role, Config}

abbrev pub text_length : String → ℕ
text_length String.[] = 0
text_length (String.◌∷◌ c s) = suc (text_length s)

-- The first n characters.
unfoldable pub take_text : ℕ → String → String
take_text zero s = ""
take_text (suc n) String.[] = ""
take_text (suc n) (String.◌∷◌ c s) = String.◌∷◌ c (take_text n s)

is_dash : Char → Bool
is_dash c = nat_eq (code c) b'-'

-- [a-z0-9-]
unfoldable pub is_dns_char : Char → Bool
unfolding is_dash
is_dns_char c =
    is_dash c
    || ((leb b'a' (code c) && leb (code c) b'z') || (leb b'0' (code c) && leb (code c) b'9'))

-- The letter of the second text at the place of the character in the first.
letter_at : String → String → Char → Char
letter_at (String.◌∷◌ u us) (String.◌∷◌ l ls) c =
    let later = letter_at us ls c in if nat_eq (code c) (code u) then l else later
letter_at _ _ c = c

abbrev upper_letters : String
upper_letters = "ABCDEFGHIJKLMNOPQRSTUVWXYZİK"

abbrev lower_letters : String
lower_letters = "abcdefghijklmnopqrstuvwxyzik"

-- strings.ToLower, except that a character whose lower case is no ASCII character stays: the caller
-- replaces every such character, as it is or lowered. Two characters beyond ASCII have an ASCII lower
-- case, U+0130 and U+212A.
to_lower : String → String
unfolding letter_at
to_lower String.[] = ""
to_lower (String.◌∷◌ c s) = String.◌∷◌ (letter_at upper_letters lower_letters c) (to_lower s)

-- dnsUnsafe.ReplaceAllString(s, "-"); the flag says that the run before was replaced already.
unfoldable pub replace_unsafe : Bool → String → String
unfolding is_dns_char
replace_unsafe in_run String.[] = ""
replace_unsafe in_run (String.◌∷◌ c s) =
    let kept = String.◌∷◌ c (replace_unsafe false s) in
    let rest = replace_unsafe true s in
    if is_dns_char c then kept else if in_run then rest else String.◌∷◌ "-" rest

trim_left : String → String
unfolding is_dash
trim_left String.[] = ""
trim_left (String.◌∷◌ c s) = let rest = trim_left s in if is_dash c then rest else String.◌∷◌ c s

-- strings.TrimRight(s, "-")
unfoldable pub trim_right : String → String
unfolding is_dash
trim_right String.[] = ""
trim_right (String.◌∷◌ c s) =
    let rest = trim_right s in if is_dash c && (rest == "") then "" else String.◌∷◌ c rest

or_x : String → String
or_x String.[] = "x"
or_x (String.◌∷◌ c s) = String.◌∷◌ c s

-- safeDNSPart
unfoldable pub safe_dns_part : String → String
unfolding to_lower replace_unsafe trim_left trim_right or_x
safe_dns_part s = or_x (trim_right (trim_left (replace_unsafe false (to_lower s))))

-- a + "-" + b
abbrev pub dashed : String → String → String
dashed a b = String.◌++◌ a (String.◌++◌ "-" b)

-- joinedBase
unfoldable pub joined_base : String → List String → String
unfolding safe_dns_part
joined_base kind parts =
    join "-" ("awi" ∷ (if kind == "" then [] else kind ∷ []) ++ map safe_dns_part parts)

module _ (digest : String → String) where
  -- suffix
  unfoldable pub suffix : List String → String
  unfolding take_text
  suffix parts = take_text 10 (digest (join "/" parts))

  -- boundedName
  unfoldable pub bounded_name : String → ℕ → List String → String
  unfolding suffix take_text trim_right
  bounded_name base limit parts =
      let tail = suffix parts in
      let full = dashed base tail in
      if leb (text_length full) limit
      then full
      else dashed (trim_right (take_text (limit - text_length tail - 1) full)) tail

  -- BucketName
  unfoldable pub bucket_name : String → String → String
  unfolding bounded_name joined_base
  bucket_name namespace region =
      bounded_name (joined_base "" (namespace ∷ region ∷ [])) 63 (namespace ∷ region ∷ [])

  -- RoleName
  unfoldable pub role_name : Role → String
  unfolding bounded_name joined_base
  role_name r =
      bounded_name (joined_base "" (r.meta.namespace ∷ r.meta.name ∷ [])) 64
        (r.meta.uid ∷ r.meta.namespace ∷ r.meta.name ∷ [])

  -- PolicyName
  unfoldable pub policy_name : Role → String
  unfolding bounded_name joined_base
  policy_name r =
      bounded_name (joined_base "pol" (r.meta.namespace ∷ r.meta.name ∷ [])) 128
        (r.meta.uid ∷ "policy" ∷ r.meta.namespace ∷ r.meta.name ∷ [])

  -- ownerLabelValue
  unfoldable pub owner_label_value : String → String → String
  unfolding bounded_name safe_dns_part
  owner_label_value namespace name =
      bounded_name (dashed (safe_dns_part namespace) (safe_dns_part name)) 63
        (namespace ∷ name ∷ [])

-- OIDCProviderName, SigningKeySecretName and PodIdentityAssociationName
unfoldable pub oidc_provider_name : Config → String
unfolding joined_base
oidc_provider_name c = joined_base "oidc" (c.meta.namespace ∷ [])

unfoldable pub signing_key_secret_name : Config → String
unfolding joined_base
signing_key_secret_name c = joined_base "signing-key" (c.meta.name ∷ [])

unfoldable pub pod_identity_association_name : Role → String
unfolding joined_base
pod_identity_association_name r = joined_base "pia" (r.meta.name ∷ [])
