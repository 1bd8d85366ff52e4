-- ===== src/Aws.antt =====
-- internal/aws: the names of the AWS resources.
pub mod Names
pub mod Labels
pub mod TrustPolicy
pub mod Ack
pub mod OidcProvider
