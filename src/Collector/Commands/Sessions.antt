-- ===== src/Collector/Commands/Sessions.antt =====
-- raspi-collector/src/services/mod.rs, `run_vps_command_listener`: one connection after the other.
-- What is sent over the WebSocket itself, the registration, leaves no trace in the state.
pub mod Order
use netsentry_sensor.Common.{
  ℕ, ◌+◌, ◌%◌, Bool, true, false, Option, none, some, List, [], ◌∷◌, ◌++◌, u32_mod,
}
use netsentry_sensor.Collector.Commands.{Client, handle_vps_command, sync_active_blocks}
use netsentry_sensor.Collector.Debug.{WsDebugState}
use netsentry_sensor.Collector.Json.{Json}
use netsentry_sensor.Common.Text.{Text, codes}

-- What the socket yields; a text comes with the readings of the clock while it is handled. `other` is a
-- message of another kind.
pub data Frame : Type 0 where
  text : (at received_at : ℕ) (content : Text) → Frame
  close : Frame
  broken : (e : Text) → Frame
  other : Frame

-- The settings from the environment and the arguments of the task.
pub record Settings : Type 0 where
  pub rule_engine_url : Text
  pub network_filter_url : Text
  pub vps_api_url : Text
  pub api_key : Text

-- One round of the loop as the world gives it: the time of the start, and where the connection is made,
-- the time of that and what the socket then yields.
pub record Round : Type 0 where
  pub started_at : ℕ
  pub connection : Option (ℕ × List Frame)

module _ {V N : Type 0} (json : Json V) (client : Client V N) (settings : Settings) where
  -- the loop over the messages, which a closing, an error or the end of the stream ends
  unfoldable pub listen : List Frame → N × WsDebugState → N × WsDebugState
  listen [] s = s
  listen (Frame.text at received_at content ∷ frames) (n, d) =
      let done =
        handle_vps_command json client settings.rule_engine_url at received_at content
          settings.network_filter_url n d in
      listen frames (done.1, done.2)
  listen (Frame.close ∷ frames) s = s
  listen (Frame.broken e ∷ frames) s = s
  listen (Frame.other ∷ frames) s = listen frames s

  abbrev pub disconnected : N × WsDebugState → N × WsDebugState
  disconnected (n, d) = (n, record d { connected = false })

  -- a connection that was made, from there to its end
  unfoldable pub serve : (connected_at : ℕ) → List Frame → N → WsDebugState → N × WsDebugState
  unfolding listen
  serve connected_at frames n d =
      let synced =
        sync_active_blocks json client settings.vps_api_url settings.network_filter_url
          settings.api_key n in
      let checked = client.alive (settings.network_filter_url ++ codes "/health") synced in
      disconnected (
        listen frames (
          checked.1,
          record d {
            connected = true;
            last_connected_at = some connected_at;
            network_filter_reachable = some checked.0;
          },
        ))

  unfoldable pub run_round : Round → N × WsDebugState → N × WsDebugState
  unfolding serve
  run_round r (n, d) =
      let d1 : WsDebugState = record d {
        connected = false;
        last_disconnected_at = some r.started_at;
        reconnect_count = (d.reconnect_count + 1) % u32_mod;
      } in
      elim (r.connection) [
        | none ↦ (n, d1)
        | some (connected_at, frames) ↦ serve connected_at frames n d1
      ]

  unfoldable pub run_vps_command_listener : List Round → N × WsDebugState → N × WsDebugState
  unfolding run_round
  run_vps_command_listener [] s = s
  run_vps_command_listener (r ∷ rs) s = run_vps_command_listener rs (run_round r s)
