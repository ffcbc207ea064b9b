-- ===== src/Compatibility.antt =====
-- crates/greentic-sorx-core/src/provider_compatibility.rs: whether the configured providers have the
-- capabilities that a pack requires.
pub mod Types
pub mod Resolve
mod Examples
