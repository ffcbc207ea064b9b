-- ===== src/Runtime/Command.antt =====
-- crates/greentic-sorx-core/src/runtime.rs: `execute_command`.
pub mod Paths
pub mod Context
pub mod Resolve
pub mod Guard
pub mod Records
pub mod Steps
