-- ===== src/NetworkFilter.antt =====
-- The network filter (src/services/edge/network-filter): the firewall commands, the tables of blocked
-- and trusted addresses and of pending packets, and the HTTP handlers.
pub mod Firewall
pub mod State
pub mod Filter
pub mod Blocking
pub mod Decisions
pub mod Verdicts
pub mod Lifecycle
pub mod Expiry
pub mod Delivery
pub mod Api
pub mod Start
