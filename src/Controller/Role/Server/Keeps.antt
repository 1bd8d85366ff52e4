-- ===== src/Controller/Role/Server/Keeps.antt =====
-- A fact of the server's state that no write of the hub changes.
use aws_workload_identity_op.Api.Types.{Role}
use aws_workload_identity_op.Aws.Ack.{Desired, IamRoleSpec, IamPolicySpec, AssociationSpec}
use aws_workload_identity_op.Controller.Role.Server.{AckChild, RoleServer}

pub record HubKeeps {S : Type 0} (server : RoleServer S) (Q : S → Type 0) : Type 0 where
  pub status : (r : Role) (s : S) → Q s → Q (server.patch_status r s).1
  pub deleted : (c : AckChild) (s : S) → Q s → Q (server.delete_child c s).1
  pub iam_role :
      (r : Role) (d : Desired IamRoleSpec) (s : S) → Q s → Q (server.apply_iam_role r d s).1
  pub iam_policy :
      (r : Role) (d : Desired IamPolicySpec) (s : S) → Q s → Q (server.apply_iam_policy r d s).1
  pub association :
      (r : Role) (d : Desired AssociationSpec) (s : S) → Q s → Q (server.apply_association r d s).1
