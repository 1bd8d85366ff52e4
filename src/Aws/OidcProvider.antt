-- ===== src/Aws/OidcProvider.antt =====
-- internal/aws/oidc_provider.go: the host and path of an OIDC issuer. net/url and the regular
-- expression of the ARN are parameters.
pub mod Normal
use Prim.Native.String.{◌++◌}
use aws_workload_identity_op.Prelude.{
  String, ◌==◌, Bool, not, ◌||◌, if◌then◌else◌, Option, none, some, [], ◌∷◌, cat, quote,
}
use aws_workload_identity_op.Api.Errors.{failure, wrap, Result, ok, err}

-- url.URL, by what the program reads of it.
pub record Url : Type 0 where
  pub scheme : String
  pub host : String
  pub has_user : Bool
  pub raw_query : String
  pub fragment : String
  pub escaped_path : String

-- url.Parse, the match of `^arn:aws[a-z0-9-]*:iam::\d{12}:oidc-provider/(.+)$`, and Contains,
-- ContainsAny and HasSuffix of package strings at what the program looks for.
pub record Urls : Type 0 where
  pub parse : String → Result Url
  pub match_provider_arn : String → Option String
  pub has_scheme : String → Bool
  pub has_whitespace : String → Bool
  pub has_query_or_fragment : String → Bool
  pub ends_with_slash : String → Bool

abbrev pub host_path : Url → String
host_path u = u.host ++ u.escaped_path

module _ (urls : Urls) where
  parsed_host_path : String → Result Url → Result (Unit {0})
  parsed_host_path h (err e) = err (wrap "parse issuer host/path" e)
  parsed_host_path h (ok u) =
      if u.host == ""
      then err (failure "issuer host/path must include a host")
      else if u.has_user
      then err (failure "issuer host/path must not include user info")
      else if not (host_path u == h)
      then err (failure "issuer host/path must be canonical")
      else ok tt

  -- validateIssuerHostPath
  unfoldable pub validate_issuer_host_path : String → Result (Unit {0})
  unfolding parsed_host_path
  validate_issuer_host_path h =
      if h == ""
      then err (failure "issuer host/path must not be empty")
      else if urls.has_scheme h
      then err (failure "issuer host/path must not include a scheme")
      else if urls.has_whitespace h
      then err (failure "issuer host/path must not contain whitespace")
      else if urls.has_query_or_fragment h
      then err (failure "issuer host/path must not include query or fragment")
      else if urls.ends_with_slash h
      then err (failure "issuer host/path must not end with a slash")
      else parsed_host_path h (urls.parse ("https://" ++ h))

  validated : String → Result (Unit {0}) → Result String
  validated h (err e) = err e
  validated h (ok _) = ok h

  normalized : Result Url → Result String
  unfolding validated validate_issuer_host_path
  normalized (err e) = err (wrap "parse issuer URL" e)
  normalized (ok u) =
      if not (u.scheme == "https")
      then err (failure "issuer URL must use https scheme")
      else if u.host == ""
      then err (failure "issuer URL must include a host")
      else if u.has_user
      then err (failure "issuer URL must not include user info")
      else if not (u.raw_query == "") || not (u.fragment == "")
      then err (failure "issuer URL must not include query or fragment")
      else validated (host_path u) (validate_issuer_host_path (host_path u))

  -- NormalizeIssuerURL
  unfoldable pub normalize_issuer_url : String → Result String
  unfolding normalized
  normalize_issuer_url raw = normalized (urls.parse raw)

  invalid_arn : String → String
  invalid_arn arn = cat ("invalid IAM OIDC provider ARN " ∷ quote arn ∷ [])

  validated_arn : String → String → Result (Unit {0}) → Result String
  unfolding invalid_arn
  validated_arn arn h (err e) = err (wrap (invalid_arn arn) e)
  validated_arn arn h (ok _) = ok h

  matched : String → Option String → Result String
  unfolding validated_arn validate_issuer_host_path invalid_arn
  matched arn none = err (failure (invalid_arn arn))
  matched arn (some h) =
      if h == ""
      then err (failure (invalid_arn arn))
      else validated_arn arn h (validate_issuer_host_path h)

  -- OIDCProviderARNIssuerHostPath
  unfoldable pub oidc_provider_arn_issuer_host_path : String → Result String
  unfolding matched
  oidc_provider_arn_issuer_host_path arn = matched arn (urls.match_provider_arn arn)

  same_issuer : String → Result String → Result (Unit {0})
  same_issuer wanted (err e) = err e
  same_issuer wanted (ok h) =
      if not (h == wanted)
      then err (
          failure (
            cat (
              "OIDC provider ARN path " ∷ quote h ∷ " does not match issuer " ∷ quote wanted ∷ [])))
      else ok tt

  -- ValidateOIDCProviderARNMatchesIssuer
  unfoldable pub validate_oidc_provider_arn_matches_issuer : String → String → Result (Unit {0})
  unfolding same_issuer oidc_provider_arn_issuer_host_path
  validate_oidc_provider_arn_matches_issuer arn issuer_host_path =
      same_issuer issuer_host_path (oidc_provider_arn_issuer_host_path arn)
