-- ===== src/Runtime.antt =====
-- crates/greentic-sorx-core/src/runtime.rs: the call of an endpoint.
pub mod Types
pub mod Input
pub mod Access
pub mod Hooks
pub mod Labels
pub mod Perform
pub mod Command
pub mod Invoke
mod Examples
