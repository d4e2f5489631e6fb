-- ===== src/Collector/Reports.antt =====
-- raspi-collector/src/controllers/mod.rs: what the collector says of itself, as the fields of the
-- JSON. `timestamp` is what `Utc::now` returns for the answer.
use netsentry_sensor.Common.{ℕ, Bool, Option, List}
use netsentry_sensor.Collector.Debug.{WsDebugState, DebugCommand}
use netsentry_sensor.Collector.Delivery.{CollectorMetrics}
use netsentry_sensor.Collector.Monitor.{Floats, ConnectionMonitor, ConnectionStatus}
use netsentry_sensor.Collector.Monitor
use netsentry_sensor.Common.Text.{Text, codes}

pub record WsReport : Type 0 where
  pub url : Text
  pub connected : Bool
  pub last_connected_at : Option ℕ
  pub last_disconnected_at : Option ℕ
  pub reconnect_count : ℕ
  pub last_command_at : Option ℕ
  pub commands_received : ℕ
  pub blocks_applied : ℕ
  pub unblocks_applied : ℕ

pub record DebugReport : Type 0 where
  pub ws : WsReport
  pub network_filter_url : Text
  pub network_filter_reachable : Option Bool
  pub recent_commands : List DebugCommand
  pub events_collected : ℕ
  pub events_sent : ℕ
  pub failed_sends : ℕ
  pub last_collection : Option ℕ
  pub timestamp : ℕ

unfoldable pub get_debug_state :
    {F : Type 0} → (timestamp : ℕ) → WsDebugState → CollectorMetrics F → DebugReport
get_debug_state timestamp dbg metrics = record {
  ws = record {
    url = dbg.ws_url;
    connected = dbg.connected;
    last_connected_at = dbg.last_connected_at;
    last_disconnected_at = dbg.last_disconnected_at;
    reconnect_count = dbg.reconnect_count;
    last_command_at = dbg.last_command_at;
    commands_received = dbg.commands_received;
    blocks_applied = dbg.blocks_applied;
    unblocks_applied = dbg.unblocks_applied;
  };
  network_filter_url = dbg.network_filter_url;
  network_filter_reachable = dbg.network_filter_reachable;
  recent_commands = dbg.recent_commands;
  events_collected = metrics.events_collected;
  events_sent = metrics.events_sent;
  failed_sends = metrics.failed_sends;
  last_collection = metrics.last_collection;
  timestamp = timestamp;
}

pub record StatusReport (F : Type 0) : Type 0 where
  pub status : Text
  pub timestamp : ℕ
  pub service : Text
  pub metrics : CollectorMetrics F
  pub vps_connection : Text

module _ {F : Type 0} (fl : Floats F) where
  -- `now` is read by the monitor.
  unfoldable pub get_status :
      (now timestamp : ℕ) → CollectorMetrics F → ConnectionMonitor F → StatusReport F
  get_status now timestamp metrics m = record {
    status = codes "running";
    timestamp = timestamp;
    service = codes "raspi-collector";
    metrics = metrics;
    vps_connection = (Monitor.get_status fl now m).status;
  }

  unfoldable pub get_connection_status : (now : ℕ) → ConnectionMonitor F → ConnectionStatus F
  get_connection_status now m = Monitor.get_status fl now m
