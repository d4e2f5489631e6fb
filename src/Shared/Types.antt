-- ===== src/Shared/Types.antt =====
-- shared/types/src/lib.rs: the packets and decisions that the services exchange. Identifiers of
-- `Uuid::new_v4` and the time of the call are arguments.
pub mod Rules
pub mod Status
pub mod Detection
use netsentry_sensor.Common.{ℕ, List, [], length}
use netsentry_sensor.Common.Text.{Text}

pub record Packet : Type 0 where
  pub id : Text
  pub timestamp : ℕ
  pub src_ip : Text
  pub dst_ip : Text
  pub src_port : ℕ
  pub dst_port : ℕ
  pub protocol : Text
  pub payload : List ℕ
  pub packet_size : ℕ
  pub interface : Text

pub data PacketAction : Type 0 where
  allow block monitor quarantine : PacketAction

-- `Value` is the type of `serde_json::Value`.
pub record PacketDecision (Value : Type 0) : Type 0 where
  pub packet_id : Text
  pub action : PacketAction
  pub threat_level : ℕ
  pub reason : Text
  pub rule_matches : List Text
  pub processing_time_ms : ℕ
  pub metadata : Value

unfoldable pub new_packet :
    (uuid : Text) (now : ℕ) (src_ip dst_ip : Text) (src_port dst_port : ℕ) (protocol : Text)
    (payload : List ℕ) (interface : Text)
    → Packet
new_packet uuid now src_ip dst_ip src_port dst_port protocol payload interface = record {
  id = uuid;
  timestamp = now;
  src_ip = src_ip;
  dst_ip = dst_ip;
  src_port = src_port;
  dst_port = dst_port;
  protocol = protocol;
  payload = payload;
  packet_size = length payload;
  interface = interface;
}

module _ {Value : Type 0} (empty_object : Value) where
  unfoldable pub allow_decision : (packet_id reason : Text) → PacketDecision Value
  allow_decision packet_id reason = record {
    packet_id = packet_id;
    action = allow;
    threat_level = 0;
    reason = reason;
    rule_matches = [];
    processing_time_ms = 0;
    metadata = empty_object;
  }

  unfoldable pub block_decision : (packet_id reason : Text) → ℕ → PacketDecision Value
  block_decision packet_id reason threat_level = record {
    packet_id = packet_id;
    action = block;
    threat_level = threat_level;
    reason = reason;
    rule_matches = [];
    processing_time_ms = 0;
    metadata = empty_object;
  }
