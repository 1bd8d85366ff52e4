-- ===== src/Controller/Config/Secret/Keys.antt =====
-- The key pair of the signing Secret and its key ID.
use aws_workload_identity_op.Prelude.{
  String, ◌==◌, ◌≡◌, true, Bool-cases, inl, inr, arith, refl, eq_refl, eq_iff,
}
use aws_workload_identity_op.Prelude.Maps.{Map, lookup, lookup_text, insert, lookup-insert}
use aws_workload_identity_op.Api.Constants.{annotation_signing_key_id}
use aws_workload_identity_op.Api.Errors.{Result, ok, err, ◌>>=◌}
use aws_workload_identity_op.Api.Types.{Config, NamespacedName}
use aws_workload_identity_op.Controller.Config.Secret.{
  signing_key_public_key, has_signing_secret_data, read_live, restore_signing_secret_data,
  with_key_id, ensure_signing_key_id, generated, ensure_signing_secret_data,
  set_signing_secret_labels, mutate_secret, reader_at,
}
use aws_workload_identity_op.Controller.Config.Server.{Secret, SigningKey, ConfigServer}

-- A fact of the value, where there is one.
abbrev pub Yields : {A : Type 0} → (A → Type 0) → Result A → Type 0
Yields P (ok a) = P a
Yields P (err e) = Unit

Yields-map :
    {A : Type 0} (P P' : A → Type 0) (x : Result A)
    → ((a : A) → P a → P' a)
    → Yields P x
    → Yields P' x
Yields-map P P' (ok a) f h = f a h
Yields-map P P' (err e) f h = tt

lookup_text-insert :
    (key value : String) (m : Map String) → lookup_text key (insert key value m) ≡ value
unfolding lookup_text
lookup_text-insert key value m = rw (lookup-insert key key value m) (rw (eq_refl key) refl)

module _ {S R : Type 0} (server : ConfigServer S R)
    (generates : (s : S) (key : SigningKey)
      → server.generate_key s ≡ ok key
      → server.key_id_of key.public_key ≡ ok key.key_id) where
  -- The annotation names the public key.
  abbrev pub IsNamed : Secret → Type 0
  IsNamed secret =
      server.key_id_of (lookup_text signing_key_public_key secret.entries)
      ≡ ok (lookup_text annotation_signing_key_id secret.annotations)

  with_key_id-IsNamed :
      (secret : Secret) (id : Result String)
      → server.key_id_of (lookup_text signing_key_public_key secret.entries) ≡ id
      → Yields (λ after. IsNamed after × (after.entries ≡ secret.entries)) (with_key_id secret id)
  unfolding with_key_id
  with_key_id-IsNamed secret (err e) h = tt
  with_key_id-IsNamed secret (ok id) h =
      elim (Bool-cases (lookup_text annotation_signing_key_id secret.annotations == id)) [
        | inl named ↦ simp named (rw ((eq_iff _ id).0 named) h, refl)
        | inr other ↦
            simp other
              (rw (lookup_text-insert annotation_signing_key_id id secret.annotations) h, refl)
      ]

  generated-IsNamed :
      (secret : Secret) (s : S) (key : Result SigningKey)
      → server.generate_key s ≡ key
      → Yields IsNamed (generated secret key)
  unfolding generated lookup_text lookup
  generated-IsNamed secret s (err e) h = tt
  generated-IsNamed secret s (ok key) h =
      rw (lookup_text-insert annotation_signing_key_id key.key_id secret.annotations)
        (generates s key h)

  -- The key pair of a Secret that has both keys, and the key ID.
  pub record IsKeyed (before after : Secret) : Type 0 where
    pub named : IsNamed after
    pub kept : has_signing_secret_data before.entries ≡ true → after.entries ≡ before.entries

  ensure_signing_secret_data-IsKeyed :
      (secret : Secret) (s : S)
      → Yields
          (IsKeyed secret)
          (ensure_signing_secret_data server.key_id_of (server.generate_key s) secret)
  unfolding ensure_signing_secret_data ensure_signing_key_id
  ensure_signing_secret_data-IsKeyed secret s =
      elim (Bool-cases (has_signing_secret_data secret.entries)) [
        | inl present ↦ simp present (
            Yields-map (λ after. IsNamed after × (after.entries ≡ secret.entries)) (IsKeyed secret)
              (ensure_signing_key_id server.key_id_of secret)
              (λ after h. record { named = h.0; kept = λ _. h.1 })
              (with_key_id-IsNamed secret
                (server.key_id_of (lookup_text signing_key_public_key secret.entries)) refl))
        | inr missing ↦ simp missing (
            Yields-map IsNamed (IsKeyed secret) (generated secret (server.generate_key s))
              (λ after h. record { named = h; kept = λ present. ground (arith, present, missing) })
              (generated-IsNamed secret s (server.generate_key s) refl))
      ]

  bound-IsNamed :
      (config : Config) (s : S) (x : Result Secret)
      → Yields IsNamed (
          x >>= λ found.
          ensure_signing_secret_data server.key_id_of
            (server.generate_key s)
            (set_signing_secret_labels server.digest config found))
  bound-IsNamed config s (err e) = tt
  bound-IsNamed config s (ok found) =
      Yields-map (IsKeyed (set_signing_secret_labels server.digest config found)) IsNamed
        (ensure_signing_secret_data server.key_id_of (server.generate_key s)
          (set_signing_secret_labels server.digest config found))
        (λ after h. h.named)
        (ensure_signing_secret_data-IsKeyed (set_signing_secret_labels server.digest config found)
          s)

  -- What the program makes of the signing Secret of a config always has the key ID of its public key,
  -- whichever annotation it had, if a generated key pair comes with its key ID; and a key pair that it
  -- has is never replaced.
  pub mutate_secret-IsKeyed :
      (config : Config) (key : NamespacedName) (s : S) (secret : Secret)
      → Yields (IsKeyed secret) (mutate_secret server config key s secret)
  unfolding mutate_secret restore_signing_secret_data set_signing_secret_labels
      ensure_signing_key_id
  mutate_secret-IsKeyed config key s secret =
      elim (Bool-cases (has_signing_secret_data secret.entries)) [
        | inl present ↦ simp present (
            let labelled = set_signing_secret_labels server.digest config secret in
            Yields-map (λ after. IsNamed after × (after.entries ≡ secret.entries)) (IsKeyed secret)
              (ensure_signing_key_id server.key_id_of labelled)
              (λ after h. record { named = h.0; kept = λ _. h.1 })
              (with_key_id-IsNamed labelled
                (server.key_id_of (lookup_text signing_key_public_key secret.entries)) refl))
        | inr missing ↦ simp missing (
            let found = read_live key secret (reader_at server s server.signing_secret_reader) in
            Yields-map IsNamed (IsKeyed secret)
              (found >>= λ found'.
                ensure_signing_secret_data server.key_id_of (server.generate_key s)
                  (set_signing_secret_labels server.digest config found'))
              (λ after h. record { named = h; kept = λ present. ground (arith, present, missing) })
              (bound-IsNamed config s found))
      ]
