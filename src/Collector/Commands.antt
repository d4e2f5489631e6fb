-- ===== src/Collector/Commands.antt =====
-- raspi-collector/src/services/mod.rs: the commands from the cloud, and what is sent on to the network
-- filter and the rule engine.
pub mod Handling
pub mod Sessions
pub mod Protocol
use netsentry_sensor.Common.{
  ℕ, ◌+◌, ◌/◌, ◌%◌, ◌≡◌, Bool, true, false, ◌&&◌, Option, none, some, List, [], ◌∷◌, ◌++◌, leb, ltb,
  is_empty, unwrap_or, if◌then◌else◌, ◌>>=◌, u32_mod,
}
use netsentry_sensor.Collector.Debug.{WsDebugState, record_command}
use netsentry_sensor.Collector.Json.{Json, get_str, str_or, u64_or}
use netsentry_sensor.Common.Outcome.{Result, ok, err}
use netsentry_sensor.Common.Text.{Text, codes, text_eq}
use netsentry_sensor.Forwarder.Service.{trim_end_slashes}

-- the bodies of the requests that the collector sends
pub data Body : Type 0 where
  block : (ip reason : Text) (duration_hours threat_level : ℕ) (source : Text) → Body
  unblock : (ip reason : Text) → Body
  rule : (suricata_rule iptables_rule : Option Text) → Body

-- The network, as `reqwest` shows it. `post` sends a body; `get_json` gets with a key, and `alive`
-- tells whether a `get` succeeds within three seconds. An answer is a status, with its body or the
-- error of parsing it, or the text of an error.
pub record Client (V N : Type 0) : Type 0 where
  pub post : (url : Text) → Body → N → Result ℕ Text × N
  pub get_json : (url api_key : Text) → N → Result (ℕ × Result V Text) Text × N
  pub alive : (url : Text) → N → Bool × N

abbrev pub is_success : ℕ → Bool
is_success status = leb 200 status && ltb status 300

-- `(duration_secs / 3600).max(1)`
unfoldable pub hours_of : ℕ → ℕ
hours_of duration_secs = let hours = duration_secs / 3600 in if ltb hours 1 then 1 else hours

-- What a handler returns, with the network and the debug state after it.
abbrev pub Handled : Type 0 → Type 0
Handled N = Result (Unit {0}) Text × N × WsDebugState

module _ {V N : Type 0} (json : Json V) (client : Client V N) where
  -- what follows a request for a block or an unblock: `at` and `received_at` are read by the record
  abbrev pub noted :
      (at received_at : ℕ) (cmd_type ip reason : Text)
      → Result ℕ Text × N
      → WsDebugState
      → Handled N
  noted at received_at cmd_type ip reason (err e, n) d = (err e, n, d)
  noted at received_at cmd_type ip reason (ok status, n) d =
      (ok tt, n, record_command at received_at cmd_type ip reason (is_success status) d)

  unfoldable pub block_body : V → Body
  unfolding hours_of
  block_body v =
      Body.block (str_or json v (codes "ip") [])
        (str_or json v (codes "reason") (codes "VPS command"))
        (hours_of (u64_or json v (codes "duration_secs") 3600)) (u64_or json v (codes "severity") 5)
        (codes "vps_command")

  -- the command `value`, by its type
  unfoldable pub run_command :
      (rule_engine_url network_filter_url : Text) (at received_at : ℕ)
      → V
      → N
      → WsDebugState
      → Handled N
  unfolding block_body
  run_command rule_engine_url network_filter_url at received_at v n d =
      let cmd_type = str_or json v (codes "type") [] in
      let ip = str_or json v (codes "ip") [] in
      let reason = str_or json v (codes "reason") (codes "VPS command") in
      if text_eq cmd_type (codes "block_command")
      then noted at received_at (codes "block_command") ip reason
          (client.post (network_filter_url ++ codes "/block") (block_body v) n) d
      else if text_eq cmd_type (codes "unblock_command")
      then noted at received_at (codes "unblock_command") ip reason
          (client.post (network_filter_url ++ codes "/unblock") (Body.unblock ip reason) n) d
      else if text_eq cmd_type (codes "rule_update")
      then (
        ok tt,
        (client.post (rule_engine_url ++ codes "/rules/apply")
            (Body.rule (get_str json v (codes "suricata_rule"))
              (get_str json v (codes "iptables_rule")))
            n).1,
        d,
      )
      else (ok tt, n, d)

  unfoldable pub handle_vps_command :
      (rule_engine_url : Text) (at received_at : ℕ) (text network_filter_url : Text)
      → N
      → WsDebugState
      → Handled N
  unfolding run_command
  handle_vps_command rule_engine_url at received_at text network_filter_url n d =
      elim (json.parse text) [
        | err e ↦ (err e, n, d)
        | ok v ↦ run_command rule_engine_url network_filter_url at received_at v n d
      ]

  -- one block of the cloud's list; the outcome is only logged
  unfoldable pub sync_block : (network_filter_url : Text) → V → N → N
  sync_block network_filter_url v n =
      let ip = str_or json v (codes "ip") [] in
      let posted =
        client.post (network_filter_url ++ codes "/block")
          (Body.block ip (str_or json v (codes "reason") (codes "vps_sync")) 24
            (u64_or json v (codes "severity") 5) (codes "vps_sync"))
          n in
      if is_empty ip then n else posted.1

  unfoldable pub sync_blocks : (network_filter_url : Text) → List V → N → N
  unfolding sync_block
  sync_blocks network_filter_url [] n = n
  sync_blocks network_filter_url (v ∷ vs) n =
      sync_blocks network_filter_url vs (sync_block network_filter_url v n)

  -- the blocks of an answer of the cloud
  abbrev pub blocks_of : Result (ℕ × Result V Text) Text → List V
  blocks_of (ok (status, ok body)) =
      if is_success status
      then unwrap_or (json.get body (codes "data") >>= json.as_array) []
      else []
  blocks_of (ok (status, err _)) = []
  blocks_of (err _) = []

  unfoldable pub sync_active_blocks : (vps_api_url network_filter_url api_key : Text) → N → N
  unfolding sync_blocks
  sync_active_blocks vps_api_url network_filter_url api_key n =
      let answer =
        client.get_json (trim_end_slashes vps_api_url ++ codes "/prevention/blocked") api_key n in
      sync_blocks network_filter_url (blocks_of answer.0) answer.1
