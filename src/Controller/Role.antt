-- ===== src/Controller/Role.antt =====
-- internal/controller/role_controller.go.
pub mod Status
pub mod Server
pub mod Flow
pub mod Delete
pub mod Cleanup
pub mod Finalize
pub mod Prepare
pub mod Apply
pub mod Deliver
pub mod Reconcile
