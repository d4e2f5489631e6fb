-- ===== src/Shared/Types/Rules.antt =====
-- shared/types/src/lib.rs: rules and the intelligence on threats. `F` is `f64` and `Value` is
-- `serde_json::Value`; dates are in nanoseconds since 1970.
use netsentry_sensor.Common.{ℕ, Bool, Option, List}
use netsentry_sensor.Common.Text.{Text}
use netsentry_sensor.Shared.Types.{PacketAction}

pub data RuleType : Type 0 where
  ip_block port_block mac_block pattern threshold : RuleType

pub record RuleMetadata (F : Type 0) : Type 0 where
  pub source : Text
  pub confidence : F
  pub severity : ℕ
  pub tags : List Text
  pub last_triggered : Option ℕ
  pub trigger_count : ℕ

pub record SecurityRule (F : Type 0) : Type 0 where
  pub id : Text
  pub name : Text
  pub rule_type : RuleType
  pub target : Text
  pub action : PacketAction
  pub duration_seconds : ℕ
  pub created_at : ℕ
  pub active : Bool
  pub rule_content : Text
  pub metadata : RuleMetadata F

pub data IndicatorType : Type 0 where
  ip domain url hash email pattern : IndicatorType

pub data ThreatType : Type 0 where
  malware phishing botnet ddos scanning exploit data_leak unknown : ThreatType

pub record ThreatIntel (F Value : Type 0) : Type 0 where
  pub id : Text
  pub indicator : Text
  pub indicator_type : IndicatorType
  pub threat_type : ThreatType
  pub confidence : F
  pub severity : ℕ
  pub source : Text
  pub expires_at : Option ℕ
  pub created_at : ℕ
  pub metadata : Value
