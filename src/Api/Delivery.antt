-- ===== src/Api/Delivery.antt =====
-- DeliveryType of api/v1alpha1/condition_types.go. A delivery type is a string, of which the API
-- defines three values; `other_delivery` holds any other text.
use aws_workload_identity_op.Prelude.{String, Bool, true, false}
use aws_workload_identity_op.Api.Types.{
  DeliveryType, self_hosted_irsa, eks_pod_identity, eks_irsa, other_delivery,
}

abbrev pub delivery_text : DeliveryType → String
delivery_text self_hosted_irsa = "SelfHostedIRSA"
delivery_text eks_pod_identity = "EKSPodIdentity"
delivery_text eks_irsa = "EKSIRSA"
delivery_text (other_delivery s) = s

unfoldable pub uses_annotation_based_irsa : DeliveryType → Bool
uses_annotation_based_irsa self_hosted_irsa = true
uses_annotation_based_irsa eks_irsa = true
uses_annotation_based_irsa eks_pod_identity = false
uses_annotation_based_irsa (other_delivery _) = false
