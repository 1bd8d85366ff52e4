-- ===== src/Controller/Role/Server.antt =====
-- What the role controller asks of the hub's API server, of a remote cluster and of the libraries. `S` is the state that the clients can see.
pub mod Keeps
use aws_workload_identity_op.Prelude.{String, Bool, Option, List}
use aws_workload_identity_op.Api.Errors.{Result}
use aws_workload_identity_op.Api.Semantic.{FinalizerLists}
use aws_workload_identity_op.Api.Types.{
  Role, RoleStatus, Config, NamespacedName, ServiceAccountSubject,
}
use aws_workload_identity_op.Api.OperatorConfig.{OperatorConfig}
use aws_workload_identity_op.Aws.TrustPolicy.{Json}
use aws_workload_identity_op.Aws.Ack.{
  Desired, IamRoleSpec, IamPolicySpec, AssociationSpec, AckStatus,
}
use aws_workload_identity_op.Inventory.{ProfileLister}
use aws_workload_identity_op.Controller.Annotations.{RemoteClient}

-- The kinds of ACK children that a role owns.
pub data ChildKind : Type 0 where
  pod_identity_association iam_role iam_policy : ChildKind

-- What the controller reads of an ACK child. `controller_uid` is the UID of its controller reference,
-- and `arn` that of its ACK resource metadata, or "".
pub record AckChild : Type 0 where
  pub kind : ChildKind
  pub key : NamespacedName
  pub controller_uid : Option String
  pub arn : String

pub record RoleServer (S : Type 0) : Type 0 where
  -- SHA-256 in hexadecimal, for the names of the children.
  pub digest : String → String
  pub finalizer_lists : FinalizerLists
  -- apiequality.Semantic.DeepEqual of two statuses.
  pub statuses_equal : RoleStatus → RoleStatus → Bool
  pub json : Json
  -- serviceaccount.MakeUsername
  pub make_username : String → String → String
  pub get_operator_config : S → Result OperatorConfig
  pub get_role : S → NamespacedName → Result Role
  -- The roles of a namespace that the index of service accounts has for a subject.
  pub list_bindings : S → String → ServiceAccountSubject → Result (List Role)
  pub get_config : S → NamespacedName → Result Config
  pub get_child : S → ChildKind → NamespacedName → Result AckChild
  pub delete_child : AckChild → S → Result (Unit {0}) × S
  -- The List of ClusterProfiles by labels that the inventory resolver makes.
  pub list_profiles : S → ProfileLister
  -- GetCluster of the multicluster manager, and the client of the cluster.
  pub get_cluster : S → NamespacedName → Result (RemoteClient S)
  pub patch_status : Role → S → Result (Unit {0}) × S
  pub patch_finalizers : Role → S → Result (Unit {0}) × S
  -- controllerutil.CreateOrUpdate with the role as controller, under RetryOnConflict, where the labels
  -- and the spec become the desired ones.
  pub apply_iam_role : Role → Desired IamRoleSpec → S → Result AckStatus × S
  pub apply_iam_policy : Role → Desired IamPolicySpec → S → Result AckStatus × S
  pub apply_association : Role → Desired AssociationSpec → S → Result AckStatus × S
