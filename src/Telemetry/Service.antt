-- ===== src/Telemetry/Service.antt =====
-- telemetry/src/main.rs and models/mod.rs: the settings and the state at the start;
-- controllers/mod.rs: what the service says of itself.
use netsentry_sensor.Common.{
  ℕ, Bool, Option, none, some, [], is_some, u16_mod, u64_max, unwrap_or, ◌-◌,
}
use mathlib.Core.Option
use netsentry_sensor.Common.Env.{Env, env_or, env_uint_or}
use netsentry_sensor.Common.Text.{Text, codes}
use netsentry_sensor.Telemetry.{SystemMetrics}
use netsentry_sensor.Telemetry.Rounds.{AppState}

unfoldable pub new : {F : Type 0} (device_id sensor_id tenant_id : Text) → AppState F
new device_id sensor_id tenant_id = record {
  latest_metrics = none;
  device_id = device_id;
  sensor_id = sensor_id;
  tenant_id = tenant_id;
}

pub record Settings : Type 0 where
  pub device_id : Text
  pub sensor_id : Text
  pub tenant_id : Text
  pub vps_url : Text
  pub api_key : Text
  pub collection_interval_secs : ℕ
  pub service_port : ℕ

-- `hostname` is what the crate of that name yields, where it succeeds.
unfoldable pub settings : Env → (hostname : Option Text) → Settings
settings env hostname = record {
  device_id = unwrap_or (env (codes "DEVICE_ID")) (unwrap_or hostname (codes "raspi-edge"));
  sensor_id = env_or env (codes "SENSOR_ID") (codes "default");
  tenant_id = env_or env (codes "TENANT_ID") (codes "default");
  vps_url = env_or env (codes "VPS_URL") (codes "http://api-gateway:8080");
  api_key = env_or env (codes "API_KEY") [];
  collection_interval_secs = env_uint_or env u64_max (codes "COLLECTION_INTERVAL_SECS") 10;
  service_port = env_uint_or env (u16_mod - 1) (codes "TELEMETRY_PORT") 8096;
}

-- the answer to `/metrics`
pub data MetricsReport (F : Type 0) : Type 0 where
  measured : SystemMetrics F → MetricsReport F
  no_data : MetricsReport F

unfoldable pub get_metrics : {F : Type 0} → AppState F → MetricsReport F
get_metrics s = elim (s.latest_metrics) [
  | some metrics ↦ MetricsReport.measured metrics
  | none ↦ MetricsReport.no_data
]

pub record StatusReport : Type 0 where
  pub status : Text
  pub device_id : Text
  pub has_data : Bool
  pub last_collected : Option Text
  pub service : Text
  pub timestamp : ℕ

-- `print_time` is `to_rfc3339`
unfoldable pub get_status :
    {F : Type 0} → (print_time : ℕ → Text) → (timestamp : ℕ) → AppState F → StatusReport
get_status print_time timestamp s = record {
  status = codes "running";
  device_id = s.device_id;
  has_data = is_some s.latest_metrics;
  last_collected = Option.map (λ m. print_time m.timestamp) s.latest_metrics;
  service = codes "idps-telemetry";
  timestamp = timestamp;
}
