-- ===== src/PacketProcessor.antt =====
-- services/edge/packet-processor: the capture of packets, their filter, and the cache of blocked addresses.
pub mod Junk
pub mod Cache
pub mod Capture
pub mod Streamer
pub mod Start
pub mod Ipv6
pub mod Frame
