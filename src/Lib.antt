-- ===== src/Lib.antt =====
-- aws-workload-identity-operator: a Kubernetes operator that binds service accounts of workload
-- clusters to AWS IAM roles.
--
-- This library models the operator's Go code by definitions that can be run, and proves what they
-- guarantee.
--
-- Parts of the program and the files that model them:
--   * Api: the custom resources, conditions, reasons and constants of api/v1alpha1. Api/Conditions,
--     Api/Semantic and Api/Errors hold what the code relies on of k8s.io/apimachinery and
--     controller-runtime, whose sources are not in the repository: condition lists, semantic
--     equality, finalizer lists and error predicates are records of operations with their
--     documented laws, which the definitions take as parameters.
--   * Controller/Common: internal/controller/common.go. setCondition, setACKReadyCondition,
--     failReady, ensureFinalizer, removeFinalizer, resultWithDependencySafetyRequeue and
--     namespacedNameFromString keep their names.
--   * Controller/ReplicaSet: internal/controller/role_replicaset_controller.go. Types is the
--     resource, Resolve resolveReplicaSetPlacements, Cluster existingReplicaSetClusterSummary, Plan
--     planReplicaSetRollout, Rollout newReplicaSetRolloutSummary, Apply applyReplicaSetCluster and
--     pruneReplicaSetChildren, Counts and Aggregate the counters and conditions, Template the
--     template of the children, Reconcile reconcileReplicaSetNormal, Delete
--     reconcileReplicaSetDelete and Reconcile.
--   * Controller/Role: internal/controller/role_controller.go. Status has the status fields,
--     computeRoleReadyState and trustPolicy, Delete deleteRoleChildIfOwned, Cleanup
--     cleanupRemoteServiceAccountAnnotations and Finalize reconcileDelete; Server is what these ask
--     of the hub and of a remote cluster.
--   * Controller/Annotations: internal/controller/selfhosted_annotations.go, and the functions of
--     internal/controller/selfhosted_serviceaccount_controller.go that patch and remove the
--     annotations of a remote service account.
--   * Aws: internal/aws. Names and Labels are iam_names.go, with the SHA-256 digest as a parameter,
--     TrustPolicy trust_policy.go, Ack ack.go and OidcProvider oidc_provider.go.
--   * Controller/Config: internal/controller/config_controller.go. Status has the status fields,
--     the Ready condition and the requeue, Secret reconcileSigningSecret, Issuer
--     reconcileSelfHostedIssuer and setSelfHostedIssuerFailureCondition, Eks
--     reconcileEKSIRSAConfig, Runtime reconcileSelfHostedWebhookRuntime, Components
--     reconcileConfigComponents and the merge of its two goroutines, Reconcile reconcileNormal,
--     Delete deleteConfigChildren, Sharing deleteRemoteWebhookRuntime, and Finalize reconcileDelete
--     and Reconcile.
--   * Controller/Bindings: the roles that bind one service account, in
--     internal/controller/role_controller.go (reconcileDuplicateBindingConflict) and
--     internal/controller/selfhosted_serviceaccount_controller.go (reconcileRemoteServiceAccount).
--   * Controller/Admission: internal/controller/admission.go.
--   * Inventory: internal/inventory/resolver.go.
--   * RemoteIrsa: pkg/remoteirsa. Errors is errors.go, Options options.go, HubResolver and
--     ClusterProfiles resolve.go, Sts sts.go and tokenrequest.go, Provider provider.go.
--   * Tests: concrete instances of the interfaces and examples.
--
-- Role and config reconciles: a step of reconcileNormal of a role goes on with a value, ends with a
-- result or fails (Controller/Role/Flow); Prepare is prepareRoleInputs, Apply the ACK children,
-- Deliver setDeliveryConditions and Reconcile their composition. The config controller has two
-- states, that of the hub with S3 and that of the remote clusters, since its two goroutines write
-- one each; the goroutines of a deletion run in any order that the theorems are given.
--
-- State and interaction: the API server is a state S of which the code sees only what the record
-- Server offers (Controller/ReplicaSet/Server): a read is a function of the state, a write gives an
-- answer and the next state. A reconcile is a function from the object and a server state to an
-- outcome and the next state; the calls stand in the order of the code. Go errors are values of
-- Failure. The mutable object of a reconcile is passed on explicitly, and the copy that the code
-- takes with DeepCopy is the value before.
--
-- Numbers: int32 counters are bit patterns below 2^32 with wrap-around addition (Prelude/Int32);
-- durations and times are numbers of seconds. No definition uses fuel: each loop is a recursion on
-- a list.
--
-- Not modelled: the controller of the webhook runtime, whose apply and delete are operations of a
-- remote cluster, the caches of remote clusters, the OIDC documents, the token file agent and the
-- commands. Nor the wiring of watches and caches, logging, events and metrics, which change no
-- object.
pub mod Prelude
pub mod Api
pub mod Controller
pub mod RemoteIrsa
pub mod Tests
pub mod Inventory
pub mod Aws
