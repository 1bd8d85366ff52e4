-- ===== src/Aws/OidcProvider/Normal.antt =====
-- The host and path that an issuer URL is normalized to is a normal form.
use Prim.Native.String.{◌++◌}
use mathlib.Core.Path.{subst}
use aws_workload_identity_op.Prelude.{String, ◌==◌, ◌≡◌, true, false, arith, refl, eq_iff}
use aws_workload_identity_op.Api.Errors.{Result, ok, err}
use aws_workload_identity_op.Aws.OidcProvider.{
  Url, Urls, host_path, parsed_host_path, validate_issuer_host_path, validated, normalized,
  normalize_issuer_url,
}

module _ (urls : Urls) where
  -- What url.Parse makes of a valid host and path.
  record IsParsed (h : String) : Type 0 where
    url : Url
    parsed : urls.parse ("https://" ++ h) ≡ ok url
    host : (url.host == "") ≡ false
    user : url.has_user ≡ false
    canonical : host_path url ≡ h
    plain : urls.has_query_or_fragment h ≡ false

  parsed_host_path-IsParsed :
      (h : String) (x : Result Url)
      → urls.parse ("https://" ++ h) ≡ x
      → urls.has_query_or_fragment h ≡ false
      → parsed_host_path urls h x ≡ ok tt
      → IsParsed h
  unfolding parsed_host_path
  parsed_host_path-IsParsed h (err e) p q valid = ground (arith, valid)
  parsed_host_path-IsParsed h (ok u) p q valid =
      let canonical : (host_path u == h) ≡ true = ground (arith, valid) in
      record {
        url = u;
        parsed = p;
        host = ground (arith, valid);
        user = ground (arith, valid);
        canonical = (eq_iff (host_path u) h).0 canonical;
        plain = q;
      }

  validate_issuer_host_path-IsParsed :
      (h : String) → validate_issuer_host_path urls h ≡ ok tt → IsParsed h
  unfolding validate_issuer_host_path
  validate_issuer_host_path-IsParsed h valid =
      parsed_host_path-IsParsed h (urls.parse ("https://" ++ h)) refl (ground (arith, valid))
        (ground (arith, valid))

  validated-ok :
      (h n : String) (x : Result (Unit {0})) → validated urls h x ≡ ok n → (x ≡ ok tt) × (h ≡ n)
  unfolding validated
  validated-ok h n (err e) v = ground (arith, v)
  validated-ok h n (ok _) v = (refl, cc)

  normalized-ok :
      (x : Result Url) (h : String)
      → normalized urls x ≡ ok h
      → validate_issuer_host_path urls h ≡ ok tt
  unfolding normalized
  normalized-ok (err e) h n = ground (arith, n)
  normalized-ok (ok u) h n =
      let v =
        validated-ok (host_path u) h (validate_issuer_host_path urls (host_path u))
          (ground (arith, n)) in
      subst (λ x. validate_issuer_host_path urls x ≡ ok tt) v.1 v.0

  module _
      (of_https : (h : String) (u : Url)
        → urls.has_query_or_fragment h ≡ false
        → urls.parse ("https://" ++ h) ≡ ok u
        → (u.scheme ≡ "https") × (u.raw_query ≡ "") × (u.fragment ≡ "")) where
    again :
        (h : String)
        → validate_issuer_host_path urls h ≡ ok tt
        → normalize_issuer_url urls ("https://" ++ h) ≡ ok h
    unfolding normalize_issuer_url normalized validated
    again h valid =
        let p = validate_issuer_host_path-IsParsed h valid in
        let plain = of_https h p.url p.plain p.parsed in
        rw p.parsed (simp (p.host, p.user, plain.0, plain.1, plain.2, p.canonical, valid) refl)

    -- The host and path that an issuer URL is normalized to, read as an https URL, is normalized to
    -- itself, if url.Parse reads the scheme https and no query or fragment in a URL that starts with
    -- `https://` and has neither `?` nor `#`.
    pub normalize_issuer_url-again :
        (raw h : String)
        → normalize_issuer_url urls raw ≡ ok h
        → normalize_issuer_url urls ("https://" ++ h) ≡ ok h
    unfolding normalize_issuer_url
    normalize_issuer_url-again raw h n = again h (normalized-ok (urls.parse raw) h n)
