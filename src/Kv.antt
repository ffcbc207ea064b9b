-- ===== src/Kv.antt =====
-- crates/greentic-sorx-core/src/providers/kv.rs: the store's operations on an ordered key-value
-- transaction.
pub mod Keys
pub mod Records
pub mod Operations
pub mod Events
mod Counter
mod Examples
