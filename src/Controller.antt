-- ===== src/Controller.antt =====
-- internal/controller: the reconcilers and the admission webhooks.
pub mod Common
pub mod Admission
pub mod ReplicaSet
pub mod Annotations
pub mod Role
pub mod Config
pub mod Bindings
