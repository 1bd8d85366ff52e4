-- ===== src/Api/Constants.antt =====
-- Names, labels, annotations and finalizers of api/v1alpha1/condition_types.go.
use Prim.Native.String.{String}

abbrev pub default_name : String
default_name = "default"

abbrev pub config_finalizer : String
config_finalizer = "aws.identity.appthrust.io/config-finalizer"

abbrev pub service_account_role_finalizer : String
service_account_role_finalizer = "aws.identity.appthrust.io/service-account-role-finalizer"

abbrev pub service_account_role_replica_set_finalizer : String
service_account_role_replica_set_finalizer =
    "aws.identity.appthrust.io/service-account-role-replicaset-finalizer"

abbrev pub label_managed_by : String
label_managed_by = "app.kubernetes.io/managed-by"

abbrev pub label_config_uid : String
label_config_uid = "aws.identity.appthrust.io/config-uid"

abbrev pub label_binding_uid : String
label_binding_uid = "aws.identity.appthrust.io/binding-uid"

abbrev pub label_inventory_ns : String
label_inventory_ns = "aws.identity.appthrust.io/inventory-namespace"

abbrev pub label_owner_ref : String
label_owner_ref = "aws.identity.appthrust.io/owner-ref"

abbrev pub label_service_account : String
label_service_account = "aws.identity.appthrust.io/service-account"

abbrev pub label_delivery : String
label_delivery = "aws.identity.appthrust.io/delivery"

abbrev pub label_runtime : String
label_runtime = "aws.identity.appthrust.io/runtime"

abbrev pub label_replica_set_uid : String
label_replica_set_uid = "aws.identity.appthrust.io/replicaset-uid"

abbrev pub annotation_signing_key_id : String
annotation_signing_key_id = "aws.identity.appthrust.io/signing-key-id"

abbrev pub annotation_replica_set_owner_ref : String
annotation_replica_set_owner_ref = "aws.identity.appthrust.io/replicaset-owner-ref"

abbrev pub managed_by_value : String
managed_by_value = "aws-workload-identity-operator"

abbrev pub runtime_webhook : String
runtime_webhook = "self-hosted-webhook"

abbrev pub force_delete_annotation : String
force_delete_annotation = "aws.identity.appthrust.io/force-delete"
