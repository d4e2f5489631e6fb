-- ===== src/NetworkFilter/Api.antt =====
-- network-filter/src/controllers/mod.rs: the HTTP interface.
pub mod Documents
pub mod Messages
pub mod Handlers
pub mod Startup
pub mod Answers
pub mod Records
pub mod Restart
pub mod Survival
pub mod Counts
pub mod Dns
