-- ===== src/Lwo.antt =====
-- The obfuscated transport, `crates/routeguard-lwo`.
pub mod Wire
pub mod Validation
