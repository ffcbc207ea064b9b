-- ===== src/Webhook.antt =====
-- crates/greentic-sorx-core/src/ghcr_webhook.rs: the webhook of a published pack.
pub mod Types
pub mod Signature
pub mod Handler
mod Examples
