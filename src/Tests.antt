-- ===== src/Tests.antt =====
-- Concrete instances of the interfaces, and examples that apply the theorems.
pub mod Fixtures
pub mod World
pub mod Hub
pub mod RoleWorld
pub mod ConfigWorld
mod Examples
mod Lifecycle
mod Credentials
mod Reconciles
mod Configs
mod Deletions
mod Roles
mod Bindings
