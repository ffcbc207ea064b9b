-- ===== src/Manager.antt =====
-- crates/greentic-sorx-core/src/manager/: the views of a system of record that its managers see.
pub mod Policy
pub mod View
pub mod Filter
mod Examples
