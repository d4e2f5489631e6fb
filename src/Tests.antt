-- ===== src/Tests.antt =====
-- Runs at concrete inputs.
mod Iptables
mod Network
mod Rules
mod Forwarding
mod Collecting
mod Database
mod Serving
mod Restarting
mod Values
mod Commanding
mod Joining
mod Conversing
mod Framing
mod Delivering
mod Measuring
mod Streaming
mod Configuring
