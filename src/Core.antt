-- ===== src/Core.antt =====
-- The crate `crates/routeguard-core`: shared data types, configuration and policy.
pub mod Health
pub mod Events
pub mod Net
pub mod Observability
pub mod Backend
pub mod Transport
pub mod Config
pub mod Policy
