-- ===== src/PacketProcessor/Capture.antt =====
-- packet-processor/src/main.rs, `run_pcap_capture`: what becomes of a captured frame.
pub mod Stream
use netsentry_sensor.Common.{
  ℕ, ◌+◌, ◌/◌, ◌%◌, ◌≡◌, Bool, true, false, not, ◌&&◌, Option, none, some, List, [], ◌∷◌, ◌++◌,
  length, take, is_empty, ltb, if◌then◌else◌,
}
use netsentry_sensor.Common.Text.{Text}
use netsentry_sensor.PacketProcessor.Cache.{BlockedIps, is_ip_blocked}
use netsentry_sensor.PacketProcessor.Junk.{is_junk_packet}

pub record StreamedPacket : Type 0 where
  pub id : Text
  pub timestamp : ℕ
  pub src_ip : Text
  pub dst_ip : Text
  pub src_port : ℕ
  pub dst_port : ℕ
  pub protocol : Text
  pub payload_hex : Text
  pub packet_size : ℕ
  pub interface : Text

-- What `extract_ips`, `extract_transport` and the payload of the parsed frame give.
pub record Headers : Type 0 where
  pub src_ip : Text
  pub dst_ip : Text
  pub src_port : ℕ
  pub dst_port : ℕ
  pub protocol : Text
  pub payload : List ℕ

abbrev pub hex_digit : ℕ → ℕ
hex_digit n = if ltb n 10 then n + b'0' else n + 87

-- `format!("{:02x}", b)` of each byte
unfoldable pub hex : List ℕ → Text
hex [] = []
hex (b ∷ bs) = hex_digit (b / 16) ∷ hex_digit (b % 16) ∷ hex bs

-- `try_send` on a channel of a capacity
unfoldable pub try_send : {A : Type 0} → (capacity : ℕ) → A → List A → List A
try_send capacity x queue = if ltb (length queue) capacity then queue ++ x ∷ [] else queue

unfoldable pub packet_of : (interface id : Text) (timestamp size : ℕ) → Headers → StreamedPacket
unfolding hex
packet_of interface id timestamp size h = record {
  id = id;
  timestamp = timestamp;
  src_ip = h.src_ip;
  dst_ip = h.dst_ip;
  src_port = h.src_port;
  dst_port = h.dst_port;
  protocol = h.protocol;
  payload_hex = hex (take 256 h.payload);
  packet_size = size;
  interface = interface;
}

-- The body of the loop over the frames; `headers` is `none` where the frame does not parse, and
-- `id`, `timestamp`, `now` and `size` are the values drawn and read for this frame.
unfoldable pub capture :
    (capacity : ℕ) (interface : Text) (now : ℕ) (id : Text) (timestamp size : ℕ)
    → Option Headers
    → BlockedIps
    → List StreamedPacket
    → List StreamedPacket
unfolding try_send packet_of
capture capacity interface now id timestamp size none blocked queue = queue
capture capacity interface now id timestamp size (some h) blocked queue =
    if not (is_empty h.src_ip) && is_ip_blocked now h.src_ip blocked
    then queue
    else if is_junk_packet h.src_ip h.dst_ip h.protocol h.dst_port
    then queue
    else try_send capacity (packet_of interface id timestamp size h) queue
