-- ===== src/Tests/Reconciles.antt =====
-- Examples of the theorems on the reconcile of a role.
use mathlib.Core.Path.{subst}
use aws_workload_identity_op.Prelude.{
  ◌≡◌, ◌==◌, refl, Bool, true, false, if◌then◌else◌, Option, none, some, String,
}
use aws_workload_identity_op.Prelude.Maps.{Map, lookup_text, lookup-insert, copy_into}
use aws_workload_identity_op.Api.Errors.{ok}
use aws_workload_identity_op.Api.Types.{NamespacedName, Role}
use aws_workload_identity_op.Controller.Annotations.{
  RemoteClient, render_annotations, audience_annotation, role_arn_annotation,
}
use aws_workload_identity_op.Controller.Annotations.Keeps.{RemoteKeeps}
use aws_workload_identity_op.RemoteIrsa.Options.{sts_audience}
use aws_workload_identity_op.Controller.Role.Server.Keeps.{HubKeeps}
use aws_workload_identity_op.Controller.Role.Deliver.Keeps.{IsRecorded}
use aws_workload_identity_op.Controller.Role.Reconcile.{reconcile_normal}
use aws_workload_identity_op.Controller.Role.Reconcile.Persisted.{reconcile_normal-keeps}
use aws_workload_identity_op.Controller.Role.Flow.{after}
use aws_workload_identity_op.Inventory.{resolve_inventory}
use aws_workload_identity_op.Aws.TrustPolicy.{web_identity_trust_policy}
use aws_workload_identity_op.Tests.World.{meta_of}
use aws_workload_identity_op.Tests.Fixtures.{list_conditions}
use aws_workload_identity_op.Tests.RoleWorld.{
  RoleWorld, remote, role_server, world, deleted_role, without_owned,
}

-- A role that already records its ARN and its cluster.
abbrev recorded_role : Role
recorded_role = record deleted_role {
  meta = meta_of "east" "web";
  status = record deleted_role.status { resolved_cluster_name = "east/east" };
}

HasArn : RoleWorld → Type 0
HasArn w = (lookup_text role_arn_annotation w.account.annotations == "arn:web") ≡ true

arn_written :
    (m : Map String)
    → (lookup_text role_arn_annotation (copy_into m (render_annotations "arn:web")) == "arn:web")
      ≡ true
unfolding lookup_text copy_into render_annotations
arn_written m = simp lookup-insert refl

if-HasArn : (b : Bool) (x y : RoleWorld) → HasArn x → HasArn y → HasArn (if b then x else y)
if-HasArn true x y p q = p
if-HasArn false x y p q = q

-- The answer of the server names the one remote cluster.
remote_is :
    (client : RemoteClient RoleWorld) → ok remote ≡ ok client → RemoteKeeps HasArn client "arn:web"
unfolding HasArn
remote_is client found =
    let same : remote ≡ client = cc in
    subst (λ c. RemoteKeeps HasArn c "arn:web") same (λ sa s q. arn_written sa.annotations)

deleted_keeps : (owner : Option String) (w : RoleWorld) → HasArn w → HasArn (without_owned owner w)
unfolding HasArn
deleted_keeps none w q = q
deleted_keeps (some uid) w q =
    if-HasArn (uid == "uid-2") (record w { has_foreign_policy = false })
      (record w { has_iam_role = false }) q q

hub_keeps : HubKeeps role_server HasArn
unfolding HasArn
hub_keeps = record {
  status = λ r s q. q;
  deleted = λ c s q. deleted_keeps c.controller_uid s q;
  iam_role = λ r d s q. q;
  iam_policy = λ r d s q. q;
  association = λ r d s q. q;
}

delivers_arn :
    (cluster : NamespacedName) (s : RoleWorld) (client : RemoteClient RoleWorld)
    → IsRecorded recorded_role.status cluster
    → role_server.get_cluster s cluster ≡ ok client
    → RemoteKeeps HasArn client recorded_role.status.role_arn
unfolding HasArn
delivers_arn cluster s client recorded found = remote_is client found

reconcile_normal-keeps_example :
    HasArn (reconcile_normal list_conditions role_server recorded_role world).2
unfolding HasArn lookup_text
reconcile_normal-keeps_example =
    reconcile_normal-keeps list_conditions role_server recorded_role HasArn hub_keeps delivers_arn
      world refl

-- This reconcile writes the annotations.
annotated :
    lookup_text audience_annotation
      (reconcile_normal list_conditions role_server recorded_role world).2.account.annotations
    ≡ sts_audience
unfolding reconcile_normal lookup_text after resolve_inventory web_identity_trust_policy
annotated = refl
