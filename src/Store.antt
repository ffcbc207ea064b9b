-- ===== src/Store.antt =====
-- crates/greentic-sorx-core/src/provider.rs and providers/memory.rs: the store of entity records.
pub mod Types
pub mod Keys
pub mod Unique
pub mod Query
pub mod Memory
pub mod Events
pub mod Calls
mod Examples
