-- ===== src/Shared/Types/Status.antt =====
-- shared/types/src/lib.rs: what a service says of itself, how it is configured, and the wrapper of
-- answers. `F` is `f64` and `Value` is `serde_json::Value`; `now` and `uuid` are what `Utc::now` and
-- `Uuid::new_v4` return.
use netsentry_sensor.Common.{ℕ, Bool, true, false, Option, none, some, List}
use netsentry_sensor.Common.Text.{Text}

pub data ServiceHealth : Type 0 where
  healthy degraded unhealthy unknown : ServiceHealth

pub record ServiceMetrics (F : Type 0) : Type 0 where
  pub packets_processed : ℕ
  pub packets_blocked : ℕ
  pub packets_allowed : ℕ
  pub avg_processing_time_ms : F
  pub memory_usage_mb : F
  pub cpu_usage_percent : F
  pub error_rate : F

pub record ServiceDependency : Type 0 where
  pub name : Text
  pub required : Bool
  pub status : ServiceHealth
  pub last_check : ℕ
  pub response_time_ms : Option ℕ

pub record ServiceStatus (F : Type 0) : Type 0 where
  pub service_name : Text
  pub status : ServiceHealth
  pub version : Text
  pub uptime_seconds : ℕ
  pub last_check : ℕ
  pub metrics : ServiceMetrics F
  pub dependencies : List ServiceDependency

pub record ProcessingConfig : Type 0 where
  pub max_packet_size : ℕ
  pub processing_timeout_ms : ℕ
  pub batch_size : ℕ
  pub buffer_size : ℕ
  pub worker_threads : ℕ
  pub enable_caching : Bool
  pub cache_ttl_seconds : ℕ

pub record NetworkInterface : Type 0 where
  pub name : Text
  pub ip_address : Text
  pub netmask : Text
  pub gateway : Option Text
  pub mac_address : Text
  pub mtu : ℕ
  pub is_up : Bool

pub record ApiError (Value : Type 0) : Type 0 where
  pub code : Text
  pub message : Text
  pub details : Option Value

pub record ApiResponse (T Value : Type 0) : Type 0 where
  pub success : Bool
  pub data_of : Option T
  pub error : Option (ApiError Value)
  pub timestamp : ℕ
  pub request_id : Text

module _ {T Value : Type 0} (now : ℕ) (uuid : Text) where
  unfoldable pub success_response : T → ApiResponse T Value
  success_response value = record {
    success = true;
    data_of = some value;
    error = none;
    timestamp = now;
    request_id = uuid;
  }

  unfoldable pub error_response : (code message : Text) → ApiResponse T Value
  error_response code message = record {
    success = false;
    data_of = none;
    error = some (record { code = code; message = message; details = none });
    timestamp = now;
    request_id = uuid;
  }
