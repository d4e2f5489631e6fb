-- ===== src/Shared/Config/Cloud.antt =====
-- src/shared/config/src/lib.rs: the configuration of the services in the cloud.
use netsentry_sensor.Common.{
  ℕ, ◌≤◌, ◌≡◌, ◌↔◌, ◌⊎◌, Bool, true, false, ◌&&◌, not, Option, none, some, is_empty, is_some,
  unwrap_or, ◌==◌, ◌>>=◌, if◌then◌else◌, arith,
}
use netsentry_sensor.Common.Outcome.{Result, ok, err}
use netsentry_sensor.Common.Text.{Text, codes, text_eq}
use netsentry_sensor.Shared.Config.{
  Outside, Checked, ensure, when_valid, var_or, uint_or, u16_max, u32_max, from_yaml_file,
}

pub record CloudConfig : Type 0 where
  pub mongodb_uri : Text
  pub redis_url : Text
  pub auto_block_enabled : Bool
  pub threat_intel_url : Option Text
  pub api_key : Option Text
  pub log_level : Text
  pub service_port : ℕ
  pub websocket_port : ℕ
  pub max_packets_per_second : ℕ
  pub rate_limiting_enabled : Bool
  pub tls_cert_path : Option Text
  pub tls_key_path : Option Text

unfoldable pub default_cloud : CloudConfig
default_cloud = record {
  mongodb_uri = codes "mongodb://localhost:27017";
  redis_url = codes "redis://localhost:6379";
  auto_block_enabled = false;
  threat_intel_url = none;
  api_key = none;
  log_level = codes "info";
  service_port = 8080;
  websocket_port = 8080;
  max_packets_per_second = 10000;
  rate_limiting_enabled = true;
  tls_cert_path = none;
  tls_key_path = none;
}

abbrev pub same_bool : Bool → Bool → Bool
same_bool true b = b
same_bool false b = not b

unfoldable pub validate_cloud : CloudConfig → Checked
validate_cloud c = ensure (not (is_empty c.mongodb_uri)) (codes "MongoDB URI cannot be empty") (
    ensure (not (is_empty c.redis_url)) (codes "Redis URL cannot be empty") (
      ensure (not (c.service_port == 0)) (codes "Service port must be greater than 0") (
        ensure (not (c.websocket_port == 0)) (codes "WebSocket port must be greater than 0") (
          ensure (not (c.max_packets_per_second == 0))
            (codes "Max packets per second must be greater than 0")
            (ensure (same_bool (is_some c.tls_cert_path) (is_some c.tls_key_path))
              (codes "Both TLS certificate and key must be provided, or neither") (ok tt))))))

unfoldable pub tls_enabled : CloudConfig → Bool
tls_enabled c = is_some c.tls_cert_path && is_some c.tls_key_path

-- `s.parse::<bool>()`
abbrev pub parse_bool : Text → Option Bool
parse_bool s =
    if text_eq s (codes "true")
    then some true
    else if text_eq s (codes "false")
    then some false
    else none

abbrev pub bool_or : {C : Type 0} → Outside C → (name : Text) (default : Bool) → Bool
bool_or o name default = unwrap_or (o.env name >>= parse_bool) default

unfoldable pub cloud_of_env : {C : Type 0} → Outside C → CloudConfig
unfolding default_cloud
cloud_of_env o = record {
  mongodb_uri = var_or o (codes "MONGODB_URI") default_cloud.mongodb_uri;
  redis_url = var_or o (codes "REDIS_URL") default_cloud.redis_url;
  auto_block_enabled = bool_or o (codes "AUTO_BLOCK_ENABLED") false;
  threat_intel_url = o.env (codes "THREAT_INTEL_URL");
  api_key = o.env (codes "API_KEY");
  log_level = var_or o (codes "LOG_LEVEL") default_cloud.log_level;
  service_port = uint_or o u16_max (codes "SERVICE_PORT") 8080;
  websocket_port = uint_or o u16_max (codes "WEBSOCKET_PORT") 8080;
  max_packets_per_second = uint_or o u32_max (codes "MAX_PACKETS_PER_SECOND") 10000;
  rate_limiting_enabled = bool_or o (codes "RATE_LIMITING_ENABLED") true;
  tls_cert_path = o.env (codes "TLS_CERT_PATH");
  tls_key_path = o.env (codes "TLS_KEY_PATH");
}

unfoldable pub cloud_from_env : {C : Type 0} → Outside C → Result CloudConfig Text
unfolding cloud_of_env
cloud_from_env o = when_valid validate_cloud (cloud_of_env o)

unfoldable pub load_cloud_with_fallback :
    Outside CloudConfig → (path : Text) → Result CloudConfig Text
unfolding cloud_from_env
load_cloud_with_fallback o path = elim (from_yaml_file validate_cloud o path) [
  | ok c ↦ ok c
  | err _ ↦ cloud_from_env o
]

-- TLS is either set up in full or not at all.
abbrev pub IsTlsWhole : CloudConfig → Type 0
IsTlsWhole c =
    ◌⊎◌
      ((tls_enabled c ≡ true) × (is_some c.tls_cert_path ≡ true) × (is_some c.tls_key_path ≡ true))
      ((tls_enabled c ≡ false) × (c.tls_cert_path ≡ none) × (c.tls_key_path ≡ none))

-- what a configuration must be
pub record IsValidCloud (c : CloudConfig) : Type 0 where
  pub mongodb_named : is_empty c.mongodb_uri ≡ false
  pub redis_named : is_empty c.redis_url ≡ false
  pub port_positive : 1 ≤ c.service_port
  pub websocket_port_positive : 1 ≤ c.websocket_port
  pub rate_positive : 1 ≤ c.max_packets_per_second
  pub tls_whole : IsTlsWhole c

validate_cloud_complete : (c : CloudConfig) → validate_cloud c ≡ ok tt → IsValidCloud c
unfolding validate_cloud tls_enabled
validate_cloud_complete c e = record {
  mongodb_named = ground (arith, e);
  redis_named = ground (arith, e);
  port_positive = ground (arith, e);
  websocket_port_positive = ground (arith, e);
  rate_positive = ground (arith, e);
  tls_whole = ground (arith, e);
}

validate_cloud_sound : (c : CloudConfig) → IsValidCloud c → validate_cloud c ≡ ok tt
unfolding validate_cloud tls_enabled
validate_cloud_sound c h = ground (
  arith, h.mongodb_named, h.redis_named, h.port_positive, h.websocket_port_positive,
  h.rate_positive, h.tls_whole,
)

-- A configuration of the cloud is accepted exactly if it is valid; then TLS has a certificate and a
-- key, or neither and is off.
pub validate_cloud-IsValidCloud : (c : CloudConfig) → (validate_cloud c ≡ ok tt) ↔ IsValidCloud c
validate_cloud-IsValidCloud c = (validate_cloud_complete c, validate_cloud_sound c)
