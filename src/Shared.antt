-- ===== src/Shared.antt =====
-- The crates under src/shared.
pub mod Types
pub mod Config
pub mod Utils
pub mod Protocols
