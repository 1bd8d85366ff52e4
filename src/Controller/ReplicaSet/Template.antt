-- ===== src/Controller/ReplicaSet/Template.antt =====
-- The child template of a ReplicaSet, the ownership of a child, and the reserved keys.
pub mod Ownership
use aws_workload_identity_op.Prelude.{
  String, ◌==◌, Bool, false, true, not, ◌&&◌, ◌||◌, if◌then◌else◌, Option, none, some, List, [],
  ◌∷◌, all, cat, quote, is_some,
}
use aws_workload_identity_op.Prelude.Maps.{Map, lookup, lookup_text, insert, copy_into}
use aws_workload_identity_op.Prelude.Sorting.{sort, str_le}
use aws_workload_identity_op.Api.Types.{
  Role, RoleSpec, RoleStatus, ObjectMeta, object_key, name_text, ServiceAccountSubject,
  other_delivery,
}
use aws_workload_identity_op.Api.Constants
use aws_workload_identity_op.Api.Semantic.{Semantic}
use aws_workload_identity_op.Api.Errors.{Failure, failure}
use aws_workload_identity_op.Controller.ReplicaSet.Types.{ReplicaSet, TemplateMetadata}

-- replicaSetChildTemplate
pub record ChildTemplate : Type 0 where
  pub name : String
  pub labels : Map String
  pub annotations : Map String
  pub spec : RoleSpec

labels_of : Option TemplateMetadata → Map String
labels_of none = []
labels_of (some m) = m.labels

annotations_of : Option TemplateMetadata → Map String
annotations_of none = []
annotations_of (some m) = m.annotations

-- newReplicaSetChildTemplate
unfoldable pub new_child_template : ReplicaSet → ChildTemplate
unfolding labels_of annotations_of
new_child_template rs = record {
  name = rs.meta.name;
  labels = insert Constants.label_replica_set_uid rs.meta.uid (
      insert Constants.label_managed_by Constants.managed_by_value
        (copy_into [] (labels_of rs.template_metadata)));
  annotations =
      insert Constants.annotation_replica_set_owner_ref (name_text (object_key rs.meta))
        (copy_into [] (annotations_of rs.template_metadata));
  spec = rs.template_spec;
}

-- replicaSetChildTemplate.apply
unfoldable pub apply_template : ChildTemplate → Role → Role
apply_template t child = record child {
  meta = record child.meta { labels = t.labels; annotations = t.annotations };
  spec = t.spec;
}

abbrev pub empty_role : String → String → Role
empty_role namespace name = record {
  meta = record {
    namespace = namespace;
    name = name;
    uid = "";
    generation = 0;
    labels = [];
    annotations = [];
    finalizers = [];
    deleting = false;
  };
  spec = record {
    service_account = record { namespace = ""; name = "" };
    policy_arns = [];
    policy_document = none;
  };
  status = record {
    observed_generation = 0;
    conditions = [];
    ack_resources = [];
    role_arn = "";
    generated_policy_arn = "";
    delivery_type = other_delivery "";
    resolved_cluster_name = "";
  };
}

-- replicaSetChildTemplate.materialize
unfoldable pub materialize : ChildTemplate → String → Role
unfolding apply_template
materialize t cluster_name = apply_template t (empty_role cluster_name t.name)

-- sameServiceAccountSubject of admission.go
unfoldable pub same_service_account_subject : ServiceAccountSubject → ServiceAccountSubject → Bool
same_service_account_subject a b = (a.namespace == b.namespace) && (a.name == b.name)

-- replicaSetChildTemplate.drifts
unfoldable pub drifts : Semantic → ChildTemplate → Role → Bool
drifts q t child =
    not (q.maps_equal child.meta.labels t.labels)
    || (not (q.maps_equal child.meta.annotations t.annotations)
        || not (q.specs_equal child.spec t.spec))

-- replicaSetOwnsChild
unfoldable pub owns_child : ReplicaSet → Role → Bool
unfolding lookup_text
owns_child rs child =
    if not (lookup_text Constants.label_managed_by child.meta.labels == Constants.managed_by_value)
    then false
    else if not (lookup_text Constants.label_replica_set_uid child.meta.labels == rs.meta.uid)
    then false
    else lookup_text Constants.annotation_replica_set_owner_ref child.meta.annotations
      == name_text (object_key rs.meta)

abbrev pub reserved_template_labels : List String
reserved_template_labels =
    Constants.label_managed_by ∷ Constants.label_config_uid ∷ Constants.label_binding_uid
    ∷ Constants.label_inventory_ns ∷ Constants.label_owner_ref ∷ Constants.label_service_account
    ∷ Constants.label_delivery ∷ Constants.label_runtime ∷ Constants.label_replica_set_uid ∷ []

abbrev pub reserved_template_annotations : List String
reserved_template_annotations = Constants.annotation_replica_set_owner_ref ∷ []

first_of_keys : Map String → List String → String
first_of_keys values [] = ""
first_of_keys values (key ∷ keys) =
    let rest = first_of_keys values keys in if is_some (lookup key values) then key else rest

-- firstReservedKey
unfoldable pub first_reserved_key : Map String → List String → String
unfolding first_of_keys lookup
first_reserved_key values reserved = first_of_keys values (sort str_le reserved)

validate_metadata : Option TemplateMetadata → Option Failure
validate_metadata none = none
validate_metadata (some m) =
    let label_key = first_reserved_key m.labels reserved_template_labels in
    let annotation_key = first_reserved_key m.annotations reserved_template_annotations in
    if not (label_key == "")
    then some
        (failure (cat ("spec.template.metadata.labels[" ∷ quote label_key ∷ "] is reserved" ∷ [])))
    else if not (annotation_key == "")
    then some (
        failure (
          cat
            ("spec.template.metadata.annotations[" ∷ quote annotation_key ∷ "] is reserved" ∷ [])))
    else none

-- validateReplicaSetTemplateMetadata; `none` is a nil error.
unfoldable pub validate_template_metadata : ReplicaSet → Option Failure
unfolding validate_metadata first_reserved_key
validate_template_metadata rs = validate_metadata rs.template_metadata
