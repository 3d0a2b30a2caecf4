-- ===== src/Platform.antt =====
-- `crates/routeguard-platform`: the parsing of DNS answers.
pub mod Dns
pub mod Routes
