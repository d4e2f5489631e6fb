-- ===== src/Forwarder.antt =====
-- services/edge/firewall-forwarder: the service that passes blocks on to the router.
pub mod Address
pub mod Service
pub mod Start
pub mod Listing
