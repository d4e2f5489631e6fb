-- ===== src/NetworkFilter/State.antt =====
-- network-filter/src/lib.rs, the state of `NetworkFilter`. Times are in nanoseconds: `Instant`s since
-- the machine started, `DateTime<Utc>` since 1970.
use netsentry_sensor.Common.{ℕ, Bool, true, List, []}
use netsentry_sensor.Common.Dict.{Dict}
use netsentry_sensor.Common.Text.{Text}
use netsentry_sensor.Shared.Types.{Packet}

pub record BlockedIp : Type 0 where
  pub ip : Text
  pub blocked_at : ℕ
  pub expires_at : ℕ
  pub blocked_at_utc : ℕ
  pub expires_at_utc : ℕ
  pub reason : Text
  pub threat_level : ℕ
  pub source : Text
  pub interface : Text

pub record TrustedIp : Type 0 where
  pub ip : Text
  pub trusted_at : ℕ
  pub expires_at : ℕ
  pub packet_count : ℕ
  pub last_seen : ℕ

-- The socket is the one that the filter sends through (`send_error` of `Filter`).
pub record PendingPacket : Type 0 where
  pub packet : Packet
  pub buffer : List ℕ
  pub dest_addr : Text
  pub created_at : ℕ
  pub timeout : ℕ

-- `F` is the type of floating-point numbers.
pub record FilterStats (F : Type 0) : Type 0 where
  pub total_packets : ℕ
  pub blocked_packets : ℕ
  pub allowed_packets : ℕ
  pub fast_tracked_packets : ℕ
  pub avg_processing_time_ms : F
  pub vps_timeouts : ℕ

pub record FilterConfig : Type 0 where
  pub vps_timeout_ms : ℕ
  pub block_duration_hours : ℕ
  pub trust_duration_minutes : ℕ
  pub trust_threshold_packets : ℕ
  pub max_processing_time_ms : ℕ
  pub enable_adaptive_learning : Bool

unfoldable pub default_config : FilterConfig
default_config = record {
  vps_timeout_ms = 50;
  block_duration_hours = 24;
  trust_duration_minutes = 60;
  trust_threshold_packets = 100;
  max_processing_time_ms = 30;
  enable_adaptive_learning = true;
}

pub record NetworkFilter (F : Type 0) : Type 0 where
  pub blocked_ips : Dict BlockedIp
  pub trusted_ips : Dict TrustedIp
  pub pending_packets : Dict PendingPacket
  pub stats : FilterStats F
  pub config : FilterConfig

unfoldable pub new : {F : Type 0} (zero_float : F) → FilterConfig → NetworkFilter F
new zero_float config = record {
  blocked_ips = [];
  trusted_ips = [];
  pending_packets = [];
  stats = record {
    total_packets = 0;
    blocked_packets = 0;
    allowed_packets = 0;
    fast_tracked_packets = 0;
    avg_processing_time_ms = zero_float;
    vps_timeouts = 0;
  };
  config = config;
}

-- The filter with what it acts on: the kernel, and the packets sent on, the last one first.
pub record World (K F : Type 0) : Type 0 where
  pub filter : NetworkFilter F
  pub kernel : K
  pub sent : List (Text × List ℕ)

pub data FilterDecision : Type 0 where
  block : (reason : Text) (threat_level processing_time_ns : ℕ) → FilterDecision
  allow : (reason : Text) (processing_time_ns : ℕ) → FilterDecision
  pending : (timeout processing_time_ns : ℕ) → FilterDecision
