-- ===== src/Api/OperatorConfig.antt =====
-- The cluster-scoped configuration of the operator: awsworkloadidentityoperatorconfig_types.go and
-- defaults.go of api/v1alpha1, and loadOperatorConfig of internal/controller/common.go.
use aws_workload_identity_op.Prelude.{String, ◌==◌, not, if◌then◌else◌}
use aws_workload_identity_op.Api.Errors.{failure, wrap, Result, ok, err}

pub record OperatorConfig : Type 0 where
  pub permissions_boundary_arn : String
  pub webhook_namespace : String

abbrev pub default_webhook_namespace : String
default_webhook_namespace = "aws-pod-identity-webhook"

-- WithDefaults
unfoldable pub with_defaults : OperatorConfig → OperatorConfig
with_defaults c =
    if not (c.webhook_namespace == "")
    then c
    else record c { webhook_namespace = default_webhook_namespace }

-- loadOperatorConfig, of what the reader answers for the name "default".
unfoldable pub load_operator_config : Result OperatorConfig → Result OperatorConfig
unfolding with_defaults
load_operator_config (ok c) = ok (with_defaults c)
load_operator_config (err e) =
    if e.not_found
    then err (failure "AWSWorkloadIdentityOperatorConfig/default is required")
    else err (wrap "get AWSWorkloadIdentityOperatorConfig/default" e)
