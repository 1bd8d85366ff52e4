-- ===== src/Tests/RoleWorld.antt =====
-- A hub with one role, its children and one remote service account.
use aws_workload_identity_op.Prelude.{
  cat, ◌≡◌, String, Bool, true, false, none, some, Option, [], ◌∷◌, if◌then◌else◌, eq_iff, ◌==◌,
}
use aws_workload_identity_op.Aws.Ack.{AckStatus}
use aws_workload_identity_op.Api.Constants.{service_account_role_finalizer}
use aws_workload_identity_op.Api.Conditions.{status_true}
use aws_workload_identity_op.Api.Errors.{Result, ok, err}
use aws_workload_identity_op.Api.Types.{
  Config, Role, NamespacedName, AckResourceStatus, ServiceAccountSubject, self_hosted_irsa,
}
use aws_workload_identity_op.Controller.Annotations.{
  RemoteClient, ServiceAccount, role_arn_annotation,
}
use aws_workload_identity_op.Controller.Role.Server.{
  ChildKind, iam_role, iam_policy, AckChild, RoleServer,
}
use aws_workload_identity_op.Controller.Role.Delete.{is_child_owned_by, same_uid}
use aws_workload_identity_op.Tests.Fixtures.{text_finalizers}
use aws_workload_identity_op.Tests.World.{web_role, meta_of, not_found}
use aws_workload_identity_op.Tests.Hub.{east_config, east_profile}

-- An IAM role that the role owns, an IAM policy that it does not own, the service account, and whether
-- the role has its finalizer.
pub record RoleWorld : Type 0 where
  pub has_iam_role : Bool
  pub has_foreign_policy : Bool
  pub account : ServiceAccount
  pub held : Bool

abbrev pub account : ServiceAccount
account = record {
  namespace = "web";
  name = "frontend";
  annotations = (role_arn_annotation, "arn:web") ∷ ("team", "shop") ∷ [];
}

abbrev pub subject : ServiceAccountSubject
subject = record { namespace = "web"; name = "frontend" }

abbrev pub remote : RemoteClient RoleWorld
remote = record {
  get_service_account = λ w n. ok w.account;
  patch_service_account = λ sa w. (ok tt, record w { account = sa });
}

abbrev pub child : ChildKind → String → AckChild
child kind uid = record {
  kind = kind;
  key = record { namespace = "east"; name = "web" };
  controller_uid = some uid;
  arn = "arn:web";
}

abbrev pub get_child : RoleWorld → ChildKind → NamespacedName → Result AckChild
get_child w iam_role key = if w.has_iam_role then ok (child iam_role "uid-1") else err not_found
get_child w iam_policy key =
    if w.has_foreign_policy then ok (child iam_policy "uid-2") else err not_found
get_child w _ key = err not_found

-- The API server deletes what the UID of the owner names.
abbrev pub without_owned : Option String → RoleWorld → RoleWorld
without_owned none w = w
without_owned (some uid) w =
    if uid == "uid-2"
    then record w { has_foreign_policy = false }
    else record w { has_iam_role = false }

abbrev pub synced_status : AckStatus
synced_status = record {
  conditions =
      some (record {
        condition_type = "ACK.ResourceSynced";
        status = status_true;
        last_transition_time = none;
        reason = none;
        message = none;
      })
      ∷ [];
  arn = some (some "arn:web");
}

abbrev pub issuing_config : Config
issuing_config = record east_config {
  status = record east_config.status {
    issuer_host_path = "issuer.example.com";
    oidc_provider_arn = "arn:aws:iam::1:oidc-provider/issuer.example.com";
  };
}

abbrev pub role_server : RoleServer RoleWorld
role_server = record {
  digest = λ text. "0123456789abcdef";
  finalizer_lists = text_finalizers;
  statuses_equal = λ a b. false;
  json = record {
    marshal_policy = λ document. ok "{}";
    field_count = λ text. ok 2;
    compact = λ text. ok text;
  };
  make_username = λ namespace name. cat ("system:serviceaccount:" ∷ namespace ∷ ":" ∷ name ∷ []);
  get_operator_config = λ w. ok (record { permissions_boundary_arn = ""; webhook_namespace = "" });
  get_role = λ w n. ok web_role;
  list_bindings = λ w namespace subject. ok [];
  get_config = λ w n. ok issuing_config;
  get_child = get_child;
  delete_child = λ c w. (ok tt, without_owned c.controller_uid w);
  list_profiles = λ w labels. ok (east_profile ∷ []);
  get_cluster = λ w n. ok remote;
  patch_status = λ r w. (ok tt, w);
  patch_finalizers = λ r w. (
    ok tt,
    record w { held = text_finalizers.contains r.meta.finalizers service_account_role_finalizer },
  );
  apply_iam_role = λ r desired w. (ok synced_status, w);
  apply_iam_policy = λ r desired w. (ok synced_status, w);
  apply_association = λ r desired w. (ok synced_status, w);
}

abbrev pub world : RoleWorld
world = record { has_iam_role = true; has_foreign_policy = true; account = account; held = true }

abbrev pub deleted_role : Role
deleted_role = record {
  meta = record (meta_of "east" "web") { deleting = true };
  spec = web_role.spec;
  status = record web_role.status {
    delivery_type = self_hosted_irsa;
    resolved_cluster_name = "awio/east";
    role_arn = "arn:web";
  };
}

abbrev pub association : AckResourceStatus
association = record {
  api_version = "eks.services.k8s.aws/v1alpha1";
  kind = "PodIdentityAssociation";
  namespace = "east";
  name = "web";
  conditions = [];
}

without_owned-keeps :
    (owner : Option String) (w : RoleWorld)
    → same_uid "uid-1" owner ≡ true
    → w.has_foreign_policy ≡ true
    → (without_owned owner w).has_foreign_policy ≡ true
unfolding same_uid
without_owned-keeps none w h p = p
without_owned-keeps (some uid) w h p = rw ((eq_iff uid "uid-1").0 h) p

pub keeps_foreign_policy :
    (c : AckChild) (w : RoleWorld)
    → is_child_owned_by deleted_role c ≡ true
    → w.has_foreign_policy ≡ true
    → (role_server.delete_child c w).1.has_foreign_policy ≡ true
unfolding is_child_owned_by
keeps_foreign_policy c w h p = without_owned-keeps c.controller_uid w h p
