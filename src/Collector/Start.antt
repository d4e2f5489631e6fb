-- ===== src/Collector/Start.antt =====
-- raspi-collector/src/main.rs and models/mod.rs: the settings of the collector and its state at the
-- start; services/mod.rs: the settings that the listener for commands reads again.
use netsentry_sensor.Common.{ℕ, [], ◌++◌, is_empty, if◌then◌else◌}
use netsentry_sensor.Collector.Commands.Sessions
use netsentry_sensor.Collector.Debug.{WsDebugState, new}
use netsentry_sensor.Collector.Delivery.{CollectorMetrics, Endpoint, Rates}
use netsentry_sensor.Collector.Delivery.Ledger.{default_metrics}
use netsentry_sensor.Collector.Monitor.{ConnectionMonitor, default_monitor}
use netsentry_sensor.Common.Env.{Env, env_or}
use netsentry_sensor.Common.Text.{Text, codes}

pub record AppState (F : Type 0) : Type 0 where
  pub endpoint : Endpoint
  pub metrics : CollectorMetrics F
  pub connection_monitor : ConnectionMonitor F
  pub ws_debug : WsDebugState

module _ (env : Env) where
  abbrev vps_ws_url : Text
  vps_ws_url = env_or env (codes "VPS_WS_URL") (codes "wss://idps.brentweb.eu/ws/raspi")

  abbrev pub network_filter_url : Text
  network_filter_url =
      env_or env (codes "NETWORK_FILTER_URL") (codes "http://localhost:8092/api/v1")

  unfoldable pub endpoint : Endpoint
  endpoint = record {
    vps_endpoint = env_or env (codes "VPS_ENDPOINT") (codes "http://vps-processor:8093");
    api_key = env_or env (codes "API_KEY") [];
  }

  -- `start` and `down` are the readings of the clock by the monitor.
  unfoldable pub state : {F : Type 0} (rates : Rates F) (start down : ℕ) → AppState F
  unfolding endpoint new
  state rates start down = record {
    endpoint = endpoint;
    metrics = default_metrics rates;
    connection_monitor = default_monitor start down;
    ws_debug = new vps_ws_url network_filter_url;
  }

  -- the URL with the key, where there is one
  unfoldable pub vps_ws_url_auth : Text
  unfolding endpoint
  vps_ws_url_auth =
      if is_empty endpoint.api_key
      then vps_ws_url
      else vps_ws_url ++ (codes "?api_key=" ++ endpoint.api_key)

  unfoldable pub eve_path : Text
  eve_path = env_or env (codes "SURICATA_EVE_PATH") (codes "/var/log/suricata/eve.json")

  unfoldable pub listener_settings : Sessions.Settings
  listener_settings = record {
    rule_engine_url = env_or env (codes "RULE_ENGINE_URL") (codes "http://rule-engine:8094/api/v1");
    network_filter_url = network_filter_url;
    vps_api_url = env_or env (codes "VPS_ENDPOINT") (codes "https://idps.brentweb.eu/api/vps");
    api_key = env_or env (codes "API_KEY") [];
  }
