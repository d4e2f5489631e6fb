-- ===== src/Collector/Debug.antt =====
-- raspi-collector/src/models/mod.rs: `WsDebugState`, the record of the commands from the cloud.
pub mod Window
use netsentry_sensor.Common.{
  ℕ, ◌≡◌, Bool, true, false, ◌&&◌, Option, none, some, List, [], ◌∷◌, ◌++◌, length, pop_front, leb,
  if◌then◌else◌, add64,
}
use netsentry_sensor.Common.Text.{Text, codes, text_eq}

pub record DebugCommand : Type 0 where
  pub received_at : ℕ
  pub cmd_type : Text
  pub ip : Text
  pub reason : Text
  pub success : Bool

pub record WsDebugState : Type 0 where
  pub ws_url : Text
  pub connected : Bool
  pub last_connected_at : Option ℕ
  pub last_disconnected_at : Option ℕ
  pub reconnect_count : ℕ
  pub last_command_at : Option ℕ
  pub commands_received : ℕ
  pub blocks_applied : ℕ
  pub unblocks_applied : ℕ
  pub network_filter_url : Text
  pub network_filter_reachable : Option Bool
  pub recent_commands : List DebugCommand

unfoldable pub new : (ws_url network_filter_url : Text) → WsDebugState
new ws_url network_filter_url = record {
  ws_url = ws_url;
  connected = false;
  last_connected_at = none;
  last_disconnected_at = none;
  reconnect_count = 0;
  last_command_at = none;
  commands_received = 0;
  blocks_applied = 0;
  unblocks_applied = 0;
  network_filter_url = network_filter_url;
  network_filter_reachable = none;
  recent_commands = [];
}

unfoldable pub push_bounded {ℓ} : {A : Type ℓ} → ℕ → A → List A → List A
push_bounded n x xs = (if leb n (length xs) then pop_front xs else xs) ++ x ∷ []

-- `at` and `received_at` are the two readings of the clock.
unfoldable pub record_command :
    (at received_at : ℕ) (cmd_type ip reason : Text) (success : Bool) → WsDebugState → WsDebugState
unfolding push_bounded
record_command at received_at cmd_type ip reason success d =
    let command : DebugCommand = record {
      received_at = received_at;
      cmd_type = cmd_type;
      ip = ip;
      reason = reason;
      success = success;
    } in
    record d {
      commands_received = add64 d.commands_received 1;
      last_command_at = some at;
      blocks_applied =
          if text_eq cmd_type (codes "block_command") && success
          then add64 d.blocks_applied 1
          else d.blocks_applied;
      unblocks_applied =
          if text_eq cmd_type (codes "unblock_command") && success
          then add64 d.unblocks_applied 1
          else d.unblocks_applied;
      recent_commands = push_bounded 50 command d.recent_commands;
    }
