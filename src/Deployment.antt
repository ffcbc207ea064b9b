-- ===== src/Deployment.antt =====
-- crates/greentic-sorx-core/src/deployment.rs: the deployment registry.
pub mod Types
pub mod Naming
pub mod Validation
pub mod Lookup
pub mod Checks
pub mod Create
pub mod Registry
pub mod Operations
mod Examples
