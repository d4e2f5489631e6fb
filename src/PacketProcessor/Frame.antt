-- ===== src/PacketProcessor/Frame.antt =====
-- packet-processor/src/main.rs: what `extract_ips`, `extract_transport` and `run_pcap_capture` take
-- from the headers that `etherparse` parses.
pub mod Sent
use netsentry_sensor.Common.{ℕ, Option, none, some, List, []}
use netsentry_sensor.Common.Ipv4.{Ipv4, print_ip}
use netsentry_sensor.Common.Text.{Text, codes}
use netsentry_sensor.PacketProcessor.Capture.{Headers}
use netsentry_sensor.PacketProcessor.Ipv6.{Ipv6, print_ipv6}

-- The parts of `etherparse::PacketHeaders` that are read, by its constructors.
pub data NetHeaders : Type 0 where
  ipv4 : (source destination : Ipv4) → NetHeaders
  ipv6 : (source destination : Ipv6) → NetHeaders

pub data TransportHeader : Type 0 where
  tcp udp : (source_port destination_port : ℕ) → TransportHeader
  icmpv4 icmpv6 : TransportHeader

pub data PayloadSlice : Type 0 where
  tcp udp ip ether icmpv4 icmpv6 : List ℕ → PayloadSlice

pub record PacketHeaders : Type 0 where
  pub net : Option NetHeaders
  pub transport : Option TransportHeader
  pub payload : PayloadSlice

unfoldable pub extract_ips : Option NetHeaders → Text × Text
extract_ips (some (NetHeaders.ipv4 source destination)) = (print_ip source, print_ip destination)
extract_ips (some (NetHeaders.ipv6 source destination)) =
    (print_ipv6 source, print_ipv6 destination)
extract_ips none = ([], [])

unfoldable pub extract_transport : Option TransportHeader → ℕ × ℕ × Text
extract_transport (some (TransportHeader.tcp source destination)) =
    (source, destination, codes "TCP")
extract_transport (some (TransportHeader.udp source destination)) =
    (source, destination, codes "UDP")
extract_transport (some TransportHeader.icmpv4) = (0, 0, codes "ICMP")
extract_transport (some TransportHeader.icmpv6) = (0, 0, codes "ICMPv6")
extract_transport none = (0, 0, codes "unknown")

unfoldable pub payload_bytes : PayloadSlice → List ℕ
payload_bytes (PayloadSlice.tcp b) = b
payload_bytes (PayloadSlice.udp b) = b
payload_bytes (PayloadSlice.ip b) = b
payload_bytes (PayloadSlice.ether b) = b
payload_bytes (PayloadSlice.icmpv4 b) = b
payload_bytes (PayloadSlice.icmpv6 b) = b

unfoldable pub headers_of : PacketHeaders → Headers
unfolding extract_ips extract_transport payload_bytes
headers_of h =
    let ips = extract_ips h.net in
    let transport = extract_transport h.transport in
    record {
      src_ip = ips.0;
      dst_ip = ips.1;
      src_port = transport.0;
      dst_port = transport.1;
      protocol = transport.2;
      payload = payload_bytes h.payload;
    }
