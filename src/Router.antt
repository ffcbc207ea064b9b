-- ===== src/Router.antt =====
-- crates/greentic-sorx-core/src/router.rs: the endpoints that a gateway's metadata describes.
pub mod Fields
pub mod Commands
pub mod Endpoints
pub mod Samples
mod Examples
