-- ===== src/Migration.antt =====
-- crates/greentic-sorx-core/src/migration/: pack migrations, the runner that applies them once, the
-- ledger of those applied, and the call that ties them together.
pub mod Plan
pub mod Backend
pub mod Runner
pub mod Ledger
pub mod Apply
mod Examples
