-- ===== src/RemoteIrsa.antt =====
-- pkg/remoteirsa: AWS credentials for a service account of a remote cluster.
pub mod Errors
pub mod Options
pub mod HubResolver
pub mod ClusterProfiles
pub mod Sts
pub mod Provider
