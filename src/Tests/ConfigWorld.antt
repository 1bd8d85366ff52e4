-- ===== src/Tests/ConfigWorld.antt =====
-- A hub with one self-hosted config, its children and a bucket of another, and one remote cluster.
use aws_workload_identity_op.Prelude.{
  String, Bool, true, false, none, some, [], ◌∷◌, if◌then◌else◌, cat,
}
use aws_workload_identity_op.Api.Constants.{config_finalizer}
use aws_workload_identity_op.Api.Errors.{Result, ok, err}
use aws_workload_identity_op.Api.Types.{Config, NamespacedName}
use aws_workload_identity_op.Aws.Ack.{OidcProviderSpec}
use aws_workload_identity_op.Aws.OidcProvider.{Url, Urls}
use aws_workload_identity_op.Controller.Config.Server.{
  ConfigChildKind, oidc_provider, signing_secret, bucket, ConfigChild, Secret, SigningKey,
  Publisher, RuntimeOutcome, RuntimeClient, ConfigServer,
}
use aws_workload_identity_op.Controller.Config.Delete.{is_config_child_owned_by}
use aws_workload_identity_op.Tests.Fixtures.{text_finalizers}
use aws_workload_identity_op.Tests.World.{meta_of, not_found}
use aws_workload_identity_op.Tests.Hub.{east_config, east_profile}
use aws_workload_identity_op.Tests.RoleWorld.{role_server, synced_status}

-- Which children of the config, which of another, and which issuer objects are left, and whether the
-- config has its finalizer.
pub record ConfigWorld : Type 0 where
  pub own : Bool
  pub foreign : Bool
  pub objects : Bool
  pub held : Bool

-- The webhook runtimes of two clusters.
pub record RemoteWorld : Type 0 where
  pub east : Bool
  pub west : Bool

abbrev pub hosted_config : Config
hosted_config = record east_config { meta = record (meta_of "east" "default") { deleting = true } }

abbrev pub child_of : ConfigChildKind → NamespacedName → String → ConfigChild
child_of kind key uid = record { kind = kind; key = key; controller_uid = some uid; labels = [] }

abbrev pub get_child : ConfigWorld → ConfigChildKind → NamespacedName → Result ConfigChild
get_child w oidc_provider key = ok (child_of oidc_provider key "uid-1")
get_child w bucket key = ok (child_of bucket key "uid-2")
get_child w signing_secret key = err not_found

abbrev pub delete_child : ConfigChild → ConfigWorld → Result (Unit {0}) × ConfigWorld
delete_child c w =
    if is_config_child_owned_by hosted_config c
    then (ok tt, record w { own = false })
    else (ok tt, record w { foreign = false })

abbrev pub publisher : Publisher ConfigWorld
publisher = record {
  ensure_issuer = λ name publication w. (ok true, record w { objects = true });
  delete_issuer = λ name w. (ok tt, record w { objects = false });
}

abbrev pub runtime : RuntimeOutcome
runtime = record {
  webhook_namespace = "aws-pod-identity-webhook";
  cert_not_after = some 7;
  ready = true;
  reason = "WebhookRuntimeSynced";
  message = "synced";
  readiness_retry_after = 30;
  cert_renewal_after = 86400;
}

abbrev pub east_client : RuntimeClient RemoteWorld
east_client = record {
  apply = λ namespace image r. (runtime, (none, record r { east = true }));
  delete = λ namespace r. (ok tt, record r { east = false });
}

abbrev pub new_key : SigningKey
new_key = record { private_key = "private"; public_key = "public"; key_id = "id-public" }

abbrev pub empty_secret : Secret
empty_secret = record { labels = []; annotations = []; secret_type = ""; entries = [] }

abbrev pub empty_provider : OidcProviderSpec
empty_provider = record { url = ""; client_ids = []; thumbprints = none; tags = [] }

-- A url.Parse that knows one URL.
abbrev pub issuer_url_parsed : Url
issuer_url_parsed = record {
  scheme = "https";
  host = "issuer.example.com";
  has_user = false;
  raw_query = "";
  fragment = "";
  escaped_path = "";
}

abbrev pub issuer_urls : Urls
issuer_urls = record {
  parse = λ text. ok issuer_url_parsed;
  match_provider_arn = λ text. none;
  has_scheme = λ text. false;
  has_whitespace = λ text. false;
  has_query_or_fragment = λ text. false;
  ends_with_slash = λ text. false;
}

abbrev pub config_server : ConfigServer ConfigWorld RemoteWorld
config_server = record {
  digest = role_server.digest;
  finalizer_lists = text_finalizers;
  statuses_equal = λ a b. false;
  json = role_server.json;
  urls = issuer_urls;
  sanitize = λ e. e.text;
  key_id_of = λ key. ok (cat ("id-" ∷ key ∷ []));
  render_publication = λ url key key_id.
      ok (record { signing_key_id = key_id; issuer_url = url; object_set_digest = "digest" });
  is_cluster_not_found = λ e. false;
  is_unmanaged_runtime = λ e. false;
  webhook_image = "";
  get_operator_config = λ w. ok (record { permissions_boundary_arn = ""; webhook_namespace = "" });
  get_config = λ w n. ok hosted_config;
  list_profiles = λ w labels. ok (east_profile ∷ []);
  list_roles = λ w namespace limit. ok [];
  list_configs = λ w. ok (hosted_config ∷ []);
  list_configs_by_cluster = λ w cluster. ok [];
  get_child = get_child;
  delete_child = delete_child;
  patch_status = λ c w. (ok tt, w);
  patch_finalizers = λ c w.
      (ok tt, record w { held = text_finalizers.contains c.meta.finalizers config_finalizer });
  apply_secret = λ c key mutate w. (mutate empty_secret, w);
  apply_bucket = λ c desired w. (ok synced_status, w);
  apply_oidc_provider = λ c key mutate w. (ok synced_status, w);
  signing_secret_reader = none;
  generate_key = λ w. ok new_key;
  publisher_factory = some (λ w region. ok publisher);
  get_cluster = some (λ r n. ok east_client);
}

abbrev pub config_world : ConfigWorld
config_world = record { own = true; foreign = true; objects = true; held = true }

abbrev pub remote_world : RemoteWorld
remote_world = record { east = true; west = true }
