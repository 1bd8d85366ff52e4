-- ===== src/Aws/Labels.antt =====
-- The labels of internal/aws/iam_names.go, and the tags of internal/aws/ack.go.
use aws_workload_identity_op.Prelude.{String, List, [], ◌∷◌}
use aws_workload_identity_op.Prelude.Maps.{Map, copy_into}
use aws_workload_identity_op.Prelude.Sorting.{sort, str_le}
use aws_workload_identity_op.Api.Constants.{
  label_managed_by, managed_by_value, label_owner_ref, label_config_uid, label_delivery,
  label_binding_uid, label_service_account,
}
use aws_workload_identity_op.Api.Delivery.{delivery_text}
use aws_workload_identity_op.Api.Types.{Config, Role, DeliveryType}
use aws_workload_identity_op.Aws.Names.{owner_label_value}

base_labels : String → Map String
base_labels owner_ref = (label_managed_by, managed_by_value) ∷ (label_owner_ref, owner_ref) ∷ []

-- sortedTags of the labels, whose keys are different.
unfoldable pub sorted_tags : Map String → List (String × String)
unfolding sort
sorted_tags labels = sort (λ (a b : String × String). str_le a.0 b.0) labels

module _ (digest : String → String) where
  unfoldable pub labels_for_config : Config → Map String
  unfolding base_labels copy_into owner_label_value
  labels_for_config c =
      copy_into (base_labels (owner_label_value digest c.meta.namespace c.meta.name))
        ((label_config_uid, c.meta.uid) ∷ (label_delivery, delivery_text c.spec.delivery_type) ∷ [])

  unfoldable pub labels_for_role : Role → DeliveryType → Map String
  unfolding base_labels copy_into owner_label_value
  labels_for_role r delivery =
      copy_into (base_labels (owner_label_value digest r.meta.namespace r.meta.name)) (
        (label_binding_uid, r.meta.uid)
        ∷ (
          label_service_account,
          owner_label_value digest r.spec.service_account.namespace r.spec.service_account.name,
        )
        ∷ (label_delivery, delivery_text delivery)
        ∷ [])
