-- ===== src/Service.antt =====
-- The service, `crates/routeguard-service`, and the session that it keeps.
pub mod BackendSelector
pub mod TransportSelector
pub mod Session
pub mod TransportHealth
pub mod DomainRouting
