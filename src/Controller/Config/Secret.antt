-- ===== src/Controller/Config/Secret.antt =====
-- The signing Secret of a config: reconcileSigningSecret of internal/controller/config_controller.go.
pub mod Keys
use aws_workload_identity_op.Prelude.{
  String, ◌==◌, Bool, not, ◌&&◌, if◌then◌else◌, Option, none, some, [], ◌∷◌, cat,
}
use aws_workload_identity_op.Prelude.Maps.{Map, insert, lookup_text, copy_into}
use aws_workload_identity_op.Api.Constants.{annotation_signing_key_id}
use aws_workload_identity_op.Api.Errors.{failure, wrap, Result, ok, err, ◌>>=◌}
use aws_workload_identity_op.Api.Types.{Config, NamespacedName, name_text}
use aws_workload_identity_op.Aws.Labels.{labels_for_config}
use aws_workload_identity_op.Aws.Names.{signing_key_secret_name}
use aws_workload_identity_op.Controller.Config.Server.{Secret, SigningKey, ConfigServer}

abbrev pub signing_key_private_key : String
signing_key_private_key = "sa.key"

abbrev pub signing_key_public_key : String
signing_key_public_key = "sa.pub"

-- hasSigningSecretData
unfoldable pub has_signing_secret_data : Map String → Bool
unfolding lookup_text
has_signing_secret_data m =
    not (lookup_text signing_key_private_key m == "")
    && not (lookup_text signing_key_public_key m == "")

-- An entry that is missing is taken from the live Secret, where that has it.
restore_entry : String → Map String → Map String → Map String
unfolding lookup_text insert
restore_entry name live current =
    if (lookup_text name current == "") && not (lookup_text name live == "")
    then insert name (lookup_text name live) current
    else current

unfoldable pub restored : Secret → Secret → Secret
unfolding restore_entry has_signing_secret_data
restored live secret =
    if not (has_signing_secret_data live.entries) then secret else record secret {
      entries =
          restore_entry signing_key_public_key live.entries
            (restore_entry signing_key_private_key live.entries secret.entries);
      secret_type = if secret.secret_type == "" then live.secret_type else secret.secret_type;
    }

with_live : NamespacedName → Secret → Result Secret → Result Secret
unfolding restored
with_live key secret (ok live) = ok (restored live secret)
with_live key secret (err e) =
    if e.not_found
    then ok secret
    else err (wrap (cat ("get signing Secret " ∷ name_text key ∷ " with uncached reader" ∷ [])) e)

read_live : NamespacedName → Secret → Option (NamespacedName → Result Secret) → Result Secret
unfolding with_live
read_live key secret none = ok secret
read_live key secret (some reader) = with_live key secret (reader key)

-- restoreSigningSecretData
unfoldable pub restore_signing_secret_data :
    Option (NamespacedName → Result Secret) → NamespacedName → Secret → Result Secret
unfolding has_signing_secret_data read_live
restore_signing_secret_data reader key secret =
    if has_signing_secret_data secret.entries then ok secret else read_live key secret reader

with_key_id : Secret → Result String → Result Secret
unfolding lookup_text insert
with_key_id secret (err e) = err (wrap "derive signing key ID" e)
with_key_id secret (ok key_id) =
    if lookup_text annotation_signing_key_id secret.annotations == key_id
    then ok secret
    else ok
        (record secret { annotations = insert annotation_signing_key_id key_id secret.annotations })

-- ensureSigningKeyID
unfoldable pub ensure_signing_key_id : (String → Result String) → Secret → Result Secret
unfolding with_key_id lookup_text
ensure_signing_key_id key_id_of secret =
    with_key_id secret (key_id_of (lookup_text signing_key_public_key secret.entries))

generated : Secret → Result SigningKey → Result Secret
unfolding insert
generated secret (err e) = err (wrap "generate signing key" e)
generated secret (ok key) = ok (record secret {
  secret_type = "Opaque";
  entries =
      (signing_key_private_key, key.private_key) ∷ (signing_key_public_key, key.public_key) ∷ [];
  annotations = insert annotation_signing_key_id key.key_id secret.annotations;
})

-- ensureSigningSecretData
unfoldable pub ensure_signing_secret_data :
    (String → Result String) → Result SigningKey → Secret → Result Secret
unfolding has_signing_secret_data ensure_signing_key_id generated
ensure_signing_secret_data key_id_of key secret =
    if has_signing_secret_data secret.entries
    then ensure_signing_key_id key_id_of secret
    else generated secret key

-- setSigningSecretLabels
unfoldable pub set_signing_secret_labels : (String → String) → Config → Secret → Secret
unfolding copy_into labels_for_config
set_signing_secret_labels digest config secret = record secret {
  labels = copy_into secret.labels (labels_for_config digest config);
}

-- The public key and the key ID.
signing_keys : NamespacedName → Secret → Result (String × String)
unfolding lookup_text
signing_keys key secret =
    let public_key = lookup_text signing_key_public_key secret.entries in
    let key_id = lookup_text annotation_signing_key_id secret.annotations in
    if public_key == ""
    then err (
        failure
          (cat ("signing Secret " ∷ name_text key ∷ " is missing " ∷ signing_key_public_key ∷ [])))
    else if key_id == ""
    then err (
        failure (
          cat (
            "signing Secret "
            ∷ name_text key
            ∷ " is missing "
            ∷ annotation_signing_key_id
            ∷ " annotation"
            ∷ [])))
    else ok (public_key, key_id)

applied_keys : NamespacedName → Result Secret → Result (String × String)
unfolding signing_keys
applied_keys key (ok secret) = signing_keys key secret
applied_keys key (err e) = err (
    wrap "reconcile signing Secret"
      (wrap (cat ("create or update *v1.Secret " ∷ name_text key ∷ [])) e))

module _ {S R : Type 0} (server : ConfigServer S R) where
  reader_at :
      S → Option (S → NamespacedName → Result Secret) → Option (NamespacedName → Result Secret)
  reader_at s none = none
  reader_at s (some reader) = some (reader s)

  -- What CreateOrUpdate makes of the Secret.
  unfoldable pub mutate_secret : Config → NamespacedName → S → Secret → Result Secret
  unfolding restore_signing_secret_data set_signing_secret_labels ensure_signing_secret_data
      reader_at
  mutate_secret config key s secret =
      restore_signing_secret_data (reader_at s server.signing_secret_reader) key secret >>= λ found.
      ensure_signing_secret_data server.key_id_of (server.generate_key s)
        (set_signing_secret_labels server.digest config found)

  secret_key : Config → NamespacedName
  unfolding signing_key_secret_name
  secret_key config = record {
    namespace = config.meta.namespace;
    name = signing_key_secret_name config;
  }

  -- reconcileSigningSecret
  unfoldable pub reconcile_signing_secret : Config → S → Result (String × String) × S
  unfolding secret_key mutate_secret applied_keys
  reconcile_signing_secret config s =
      let (answer, s') =
        server.apply_secret config (secret_key config) (mutate_secret config (secret_key config) s)
          s in
      (applied_keys (secret_key config) answer, s')
