-- ===== src/Collector.antt =====
-- The collector on the sensor (src/services/edge/raspi-collector).
pub mod Monitor
pub mod Debug
pub mod Json
pub mod Commands
pub mod Delivery
pub mod Reports
pub mod Start
