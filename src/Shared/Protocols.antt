-- ===== src/Shared/Protocols.antt =====
-- shared/protocols/src/lib.rs: the messages between the cloud and the sensor, and the JSON that the
-- derived `Serialize` makes of them.
pub mod Keys
use netsentry_sensor.Common.{
  ℕ, ◌≤◌, ◌<◌, Bool, true, false, ◌&&◌, Option, none, some, List, [], ◌∷◌, ◌++◌, if◌then◌else◌, leb,
  arith, u8_mod, u64_mod,
}
use netsentry_sensor.Common.Text.{Text, codes}

pub record BlockCommand : Type 0 where
  pub ip : Text
  pub reason : Text
  pub duration_secs : ℕ
  pub apply_suricata_rule : Bool
  pub severity : ℕ
  pub detection_event_id : Option Text

pub record UnblockCommand : Type 0 where
  pub ip : Text
  pub reason : Text
  pub unblocked_by : Option Text

pub data RuleAction : Type 0 where
  add update remove : RuleAction

pub record RuleUpdate : Type 0 where
  pub rule_id : Text
  pub action : RuleAction
  pub suricata_rule : Option Text
  pub iptables_rule : Option Text
  pub description : Text

pub record CommandAck : Type 0 where
  pub command_id : Text
  pub success : Bool
  pub error : Option Text
  pub raspi_id : Text

pub data AlertSeverity : Type 0 where
  critical high medium low info : AlertSeverity

unfoldable pub from_threat_level : ℕ → AlertSeverity
from_threat_level level =
    if leb 9 level && leb level 10
    then critical
    else if leb 7 level && leb level 8
    then high
    else if leb 5 level && leb level 6
    then medium
    else if leb 3 level && leb level 4
    then low
    else info

pub record AlertNotification : Type 0 where
  pub event_id : Text
  pub severity : AlertSeverity
  pub category : Text
  pub message : Text
  pub src_ip : Text
  pub dest_ip : Option Text
  pub src_port : Option ℕ
  pub dest_port : Option ℕ
  pub protocol : Option Text
  pub auto_blocked : Bool
  pub timestamp : ℕ

-- `F` is `f64`
pub record MetricsSnapshot (F : Type 0) : Type 0 where
  pub events_per_second : F
  pub alerts_per_minute : F
  pub blocked_ips_count : ℕ
  pub cpu_usage_percent : F
  pub memory_usage_mb : F
  pub raspi_connected : Bool
  pub vps_processing_rate : F

pub record Heartbeat : Type 0 where
  pub sender_id : Text

pub data WsPayload (F : Type 0) : Type 0 where
  block_command : BlockCommand → WsPayload F
  unblock_command : UnblockCommand → WsPayload F
  rule_update : RuleUpdate → WsPayload F
  command_ack : CommandAck → WsPayload F
  alert : AlertNotification → WsPayload F
  metrics : MetricsSnapshot F → WsPayload F
  ping pong : Heartbeat → WsPayload F

pub record WsMessage (F : Type 0) : Type 0 where
  pub id : Text
  pub timestamp : ℕ
  pub payload : WsPayload F

-- `uuid` and `now` are what `Uuid::new_v4` and `Utc::now` return.
unfoldable pub new : {F : Type 0} (uuid : Text) (now : ℕ) → WsPayload F → WsMessage F
new uuid now payload = record { id = uuid; timestamp = now; payload = payload }

-- What `serde_json` makes of the data that a derived `Serialize` shows it: an object has its fields
-- in their order, and a date is a text.
pub record Serializer (F V : Type 0) : Type 0 where
  pub null : V
  pub bool : Bool → V
  pub number : ℕ → V
  pub float : F → V
  pub str : Text → V
  pub date : ℕ → V
  pub object : List (Text × V) → V

-- `rename_all = "snake_case"`
abbrev pub action_name : RuleAction → Text
action_name add = codes "add"
action_name update = codes "update"
action_name remove = codes "remove"

-- `rename_all = "lowercase"`
abbrev pub severity_name : AlertSeverity → Text
severity_name critical = codes "critical"
severity_name high = codes "high"
severity_name medium = codes "medium"
severity_name low = codes "low"
severity_name info = codes "info"

-- `tag = "type", rename_all = "snake_case"`
abbrev pub type_name : {F : Type 0} → WsPayload F → Text
type_name (block_command _) = codes "block_command"
type_name (unblock_command _) = codes "unblock_command"
type_name (rule_update _) = codes "rule_update"
type_name (command_ack _) = codes "command_ack"
type_name (alert _) = codes "alert"
type_name (metrics _) = codes "metrics"
type_name (ping _) = codes "ping"
type_name (pong _) = codes "pong"

module _ {F V : Type 0} (to : Serializer F V) where
  abbrev pub optional : {A : Type 0} → (A → V) → Option A → V
  optional f none = to.null
  optional f (some a) = f a

  abbrev pub fields_of : WsPayload F → List (Text × V)
  fields_of (block_command c) =
      (codes "ip", to.str c.ip)
      ∷ (codes "reason", to.str c.reason)
      ∷ (codes "duration_secs", to.number c.duration_secs)
      ∷ (codes "apply_suricata_rule", to.bool c.apply_suricata_rule)
      ∷ (codes "severity", to.number c.severity)
      ∷ (codes "detection_event_id", optional to.str c.detection_event_id)
      ∷ []
  fields_of (unblock_command c) =
      (codes "ip", to.str c.ip)
      ∷ (codes "reason", to.str c.reason)
      ∷ (codes "unblocked_by", optional to.str c.unblocked_by)
      ∷ []
  fields_of (rule_update r) =
      (codes "rule_id", to.str r.rule_id)
      ∷ (codes "action", to.str (action_name r.action))
      ∷ (codes "suricata_rule", optional to.str r.suricata_rule)
      ∷ (codes "iptables_rule", optional to.str r.iptables_rule)
      ∷ (codes "description", to.str r.description)
      ∷ []
  fields_of (command_ack a) =
      (codes "command_id", to.str a.command_id)
      ∷ (codes "success", to.bool a.success)
      ∷ (codes "error", optional to.str a.error)
      ∷ (codes "raspi_id", to.str a.raspi_id)
      ∷ []
  fields_of (alert a) =
      (codes "event_id", to.str a.event_id)
      ∷ (codes "severity", to.str (severity_name a.severity))
      ∷ (codes "category", to.str a.category)
      ∷ (codes "message", to.str a.message)
      ∷ (codes "src_ip", to.str a.src_ip)
      ∷ (codes "dest_ip", optional to.str a.dest_ip)
      ∷ (codes "src_port", optional to.number a.src_port)
      ∷ (codes "dest_port", optional to.number a.dest_port)
      ∷ (codes "protocol", optional to.str a.protocol)
      ∷ (codes "auto_blocked", to.bool a.auto_blocked)
      ∷ (codes "timestamp", to.date a.timestamp)
      ∷ []
  fields_of (metrics s) =
      (codes "events_per_second", to.float s.events_per_second)
      ∷ (codes "alerts_per_minute", to.float s.alerts_per_minute)
      ∷ (codes "blocked_ips_count", to.number s.blocked_ips_count)
      ∷ (codes "cpu_usage_percent", to.float s.cpu_usage_percent)
      ∷ (codes "memory_usage_mb", to.float s.memory_usage_mb)
      ∷ (codes "raspi_connected", to.bool s.raspi_connected)
      ∷ (codes "vps_processing_rate", to.float s.vps_processing_rate)
      ∷ []
  fields_of (ping h) = (codes "sender_id", to.str h.sender_id) ∷ []
  fields_of (pong h) = (codes "sender_id", to.str h.sender_id) ∷ []

  -- the fields of a message, the flattened ones of its payload included
  abbrev pub message_fields : WsMessage F → List (Text × V)
  message_fields m =
      (codes "id", to.str m.id)
      ∷ (codes "timestamp", to.date m.timestamp)
      ∷ (codes "type", to.str (type_name m.payload))
      ∷ fields_of m.payload

  unfoldable pub message_value : WsMessage F → V
  message_value m = to.object (message_fields m)

-- The numbers of a command fit their types.
abbrev pub IsTyped : {F : Type 0} → WsPayload F → Type 0
IsTyped (block_command c) = (c.duration_secs < u64_mod) × (c.severity < u8_mod)
IsTyped _ = Unit

-- The severity grows with the threat level, from 0 to 10: `rank` counts from `info` up.
abbrev pub rank : AlertSeverity → ℕ
rank info = 0
rank low = 1
rank medium = 2
rank high = 3
rank critical = 4

pub from_threat_level_mono :
    (a b : ℕ) → a ≤ b → b ≤ 10 → rank (from_threat_level a) ≤ rank (from_threat_level b)
unfolding from_threat_level
from_threat_level_mono a b below top = ground arith
