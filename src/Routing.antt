-- ===== src/Routing.antt =====
-- The crate `crates/routeguard-routing`: rules, their matching, and the routing decision.
pub mod App
pub mod Ip
pub mod Domain
pub mod Engine
pub mod Rules
pub mod SplitPolicy
pub mod Store
