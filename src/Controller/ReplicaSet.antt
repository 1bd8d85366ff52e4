-- ===== src/Controller/ReplicaSet.antt =====
-- internal/controller/role_replicaset_controller.go: one AWSServiceAccountRole child for each
-- cluster that the placements of an AWSServiceAccountRoleReplicaSet select.
pub mod Types
pub mod Counts
pub mod Aggregate
pub mod Template
pub mod Server
pub mod Cluster
pub mod Apply
pub mod Resolve
pub mod Plan
pub mod Reconcile
pub mod Delete
pub mod Rollout
