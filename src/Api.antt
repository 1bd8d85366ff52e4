-- ===== src/Api.antt =====
-- The API types of api/v1alpha1, and what the program takes from the Kubernetes libraries.
pub mod ConditionTypes
pub mod Reasons
pub mod Constants
pub mod Conditions
pub mod Errors
pub mod OperatorConfig
pub mod Types
pub mod Delivery
pub mod Semantic
