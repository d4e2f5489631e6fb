-- ===== src/Shared/Config.antt =====
-- src/shared/config/src/lib.rs: the configuration of the services on the sensor. Files are read and
-- parsed by parameters.
pub mod Valid
pub mod Cloud
pub mod Durations
pub mod Loader
use netsentry_sensor.Common.{
  ℕ, ◌-◌, Bool, true, false, ◌&&◌, not, Option, none, some, List, is_empty, unwrap_or, ◌==◌, ◌>>=◌,
  if◌then◌else◌, u16_mod, u32_mod,
}
use netsentry_sensor.Common.Outcome.{Result, ok, err}
use netsentry_sensor.Common.Text.{Text, codes, starts_with, parse_uint}

pub record EdgeConfig : Type 0 where
  pub pcap_interface : Text
  pub vps_ws_url : Text
  pub network_filter_url : Text
  pub rule_engine_url : Text
  pub mongodb_uri : Text
  pub redis_url : Text
  pub vps_packets_ws_url : Text
  pub default_block_duration_hours : ℕ
  pub log_level : Text
  pub service_port : ℕ

-- The world outside: variables of the environment, files by their paths, and the YAML parser.
pub record Outside (C : Type 0) : Type 0 where
  pub env : Text → Option Text
  pub read_to_string : Text → Result Text Text
  pub from_str : Text → Result C Text

abbrev pub u16_max : ℕ
u16_max = u16_mod - 1

abbrev pub u32_max : ℕ
u32_max = u32_mod - 1

abbrev pub Checked : Type 0
Checked = Result (Unit {0}) Text

-- a check with the message of its failure, and the checks after it
abbrev pub ensure : Bool → (message : Text) → Checked → Checked
ensure b message rest = if b then rest else err message

abbrev pub is_ws : Text → Bool
is_ws url = not (not (starts_with url (codes "ws://")) && not (starts_with url (codes "wss://")))

abbrev pub is_http : Text → Bool
is_http url =
    not (not (starts_with url (codes "http://")) && not (starts_with url (codes "https://")))

unfoldable pub default_edge : EdgeConfig
default_edge = record {
  pcap_interface = codes "eth0";
  vps_ws_url = codes "ws://localhost:8080/ws/raspi";
  network_filter_url = codes "http://localhost:8092/api/v1";
  rule_engine_url = codes "http://localhost:8094/api/v1";
  mongodb_uri = codes "mongodb://localhost:27017";
  redis_url = codes "redis://localhost:6379";
  vps_packets_ws_url = codes "ws://localhost:8080/ws/packets";
  default_block_duration_hours = 24;
  log_level = codes "info";
  service_port = 8091;
}

unfoldable pub validate : EdgeConfig → Checked
validate c = ensure (not (is_empty c.pcap_interface)) (codes "PCAP interface cannot be empty") (
    ensure (is_ws c.vps_ws_url) (codes "VPS WebSocket URL must start with ws:// or wss://") (
      ensure (is_ws c.vps_packets_ws_url)
        (codes "VPS packets WebSocket URL must start with ws:// or wss://")
        (ensure (is_http c.network_filter_url)
          (codes "Network filter URL must start with http:// or https://")
          (ensure (is_http c.rule_engine_url)
            (codes "Rule engine URL must start with http:// or https://")
            (ensure (not (is_empty c.mongodb_uri)) (codes "MongoDB URI cannot be empty") (
              ensure (not (is_empty c.redis_url)) (codes "Redis URL cannot be empty") (
                ensure (not (c.default_block_duration_hours == 0))
                  (codes "Default block duration must be greater than 0")
                  (ensure (not (c.service_port == 0)) (codes "Service port must be greater than 0")
                    (ok tt)))))))))

-- `config.validate()?; Ok(config)`
abbrev pub when_valid : {C : Type 0} → (C → Checked) → C → Result C Text
when_valid check c = elim (check c) [ ok _ ↦ ok c | err e ↦ err e ]

-- `env::var(name).unwrap_or_else(..)`, and with `.ok().and_then(|s| s.parse().ok()).unwrap_or(..)`
abbrev pub var_or : {C : Type 0} → Outside C → (name default : Text) → Text
var_or o name default = unwrap_or (o.env name) default

abbrev pub uint_or : {C : Type 0} → Outside C → (bound : ℕ) (name : Text) (default : ℕ) → ℕ
uint_or o bound name default = unwrap_or (o.env name >>= parse_uint bound) default

unfoldable pub edge_of_env : {C : Type 0} → Outside C → EdgeConfig
unfolding default_edge
edge_of_env o = record {
  pcap_interface = var_or o (codes "PCAP_INTERFACE") default_edge.pcap_interface;
  vps_ws_url = var_or o (codes "VPS_WS_URL") default_edge.vps_ws_url;
  network_filter_url = var_or o (codes "NETWORK_FILTER_URL") default_edge.network_filter_url;
  rule_engine_url = var_or o (codes "RULE_ENGINE_URL") default_edge.rule_engine_url;
  mongodb_uri = var_or o (codes "MONGODB_URI") default_edge.mongodb_uri;
  redis_url = var_or o (codes "REDIS_URL") default_edge.redis_url;
  vps_packets_ws_url = var_or o (codes "VPS_PACKETS_WS_URL") default_edge.vps_packets_ws_url;
  default_block_duration_hours = uint_or o u32_max (codes "DEFAULT_BLOCK_DURATION_HOURS") 24;
  log_level = var_or o (codes "LOG_LEVEL") default_edge.log_level;
  service_port = uint_or o u16_max (codes "SERVICE_PORT") 8091;
}

unfoldable pub from_env : {C : Type 0} → Outside C → Result EdgeConfig Text
unfolding edge_of_env
from_env o = when_valid validate (edge_of_env o)

-- The text of an error is that of its context, as `Display` of `anyhow::Error` has it.
unfoldable pub from_yaml_file :
    {C : Type 0} → (C → Checked) → Outside C → (path : Text) → Result C Text
from_yaml_file check o path = elim (o.read_to_string path) [
  | err _ ↦ err (codes "Failed to read configuration file")
  | ok content ↦ elim (o.from_str content) [
    | err _ ↦ err (codes "Failed to parse YAML configuration")
    | ok c ↦ when_valid check c
  ]
]

unfoldable pub load_with_fallback : Outside EdgeConfig → (path : Text) → Result EdgeConfig Text
unfolding from_yaml_file from_env
load_with_fallback o path = elim (from_yaml_file validate o path) [
  | ok c ↦ ok c
  | err _ ↦ from_env o
]
