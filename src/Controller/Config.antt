-- ===== src/Controller/Config.antt =====
-- internal/controller/config_controller.go: the controller of AWSWorkloadIdentityConfig.
pub mod Server
pub mod Steps
pub mod Status
pub mod Secret
pub mod Issuer
pub mod Eks
pub mod Runtime
pub mod Components
pub mod Reconcile
pub mod Delete
pub mod Sharing
pub mod Finalize
