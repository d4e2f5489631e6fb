-- ===== src/Collector/Commands/Handling.antt =====
-- What a command of the cloud leads to.
use netsentry_sensor.Common.{
  ℕ, ◌+◌, ◌*◌, ◌≤◌, ◌<◌, ◌≡◌, ◌⊎◌, Bool, true, false, some, [], ◌++◌, if◌then◌else◌, arith, add64,
  refl, inl, inr,
}
use netsentry_sensor.Collector.Commands.{
  Body, Client, is_success, hours_of, noted, block_body, run_command, handle_vps_command,
}
use netsentry_sensor.Collector.Debug.{WsDebugState, record_command}
use netsentry_sensor.Collector.Json.{Json, get_str, str_or}
use netsentry_sensor.Common.Outcome.{Result, ok, err, Result-cases}
use netsentry_sensor.Common.Text.{Text, codes, text_eq}

-- The hours that are asked of the network filter are at least one, so that a command for less
-- than an hour, one for no time included, blocks for an hour. Otherwise they are the full hours
-- of the command, so that the block is no longer than commanded, and shorter by less than an
-- hour.
pub hours_of-bounds :
    (secs : ℕ)
    → (1 ≤ hours_of secs)
      × ((secs < 3600 × (hours_of secs ≡ 1))
          ⊎ ((hours_of secs * 3600 ≤ secs) × (secs < hours_of secs * 3600 + 3600)))
unfolding hours_of
hours_of-bounds secs = ground arith

different :
    (text_eq (codes "block_command") (codes "unblock_command") ≡ false)
    × (text_eq (codes "unblock_command") (codes "block_command") ≡ false)
unfolding codes text_eq
different = (refl, refl)

same :
    (text_eq (codes "block_command") (codes "block_command") ≡ true)
    × (text_eq (codes "unblock_command") (codes "unblock_command") ≡ true)
unfolding codes text_eq
same = (refl, refl)

-- whether the network filter took a command
abbrev pub taken : Result ℕ Text → Bool
taken (ok status) = is_success status
taken (err _) = false

noted-err :
    {V N : Type 0} (json : Json V) (client : Client V N) (at received_at : ℕ)
    (cmd_type ip reason : Text) (x : Result ℕ Text × N) (d : WsDebugState) (e : Text)
    → (noted json client at received_at cmd_type ip reason x d).0 ≡ err e
    → (noted json client at received_at cmd_type ip reason x d).2 ≡ d
noted-err json client at received_at cmd_type ip reason (err x, n) d e failed = refl
noted-err json client at received_at cmd_type ip reason (ok status, n) d e failed =
    absurd (ground (arith, failed))

module _ {V N : Type 0} (json : Json V) (client : Client V N) (rule_engine_url : Text)
    (at received_at : ℕ) (text network_filter_url : Text) (n : N) (d : WsDebugState) where
  abbrev handled : Result (Unit {0}) Text × N × WsDebugState
  handled =
      handle_vps_command json client rule_engine_url at received_at text network_filter_url n d

  -- A command that cannot be read, or whose request fails to reach the network filter, leaves no
  -- trace in the debug state.
  pub handle_vps_command-err : (e : Text) → handled.0 ≡ err e → handled.2 ≡ d
  unfolding handle_vps_command run_command
  handle_vps_command-err e failed = elim (Result-cases (json.parse text)) [
    | inr (x, bad) ↦ ground (arith, bad)
    | inl (v, parsed) ↦
        let ip = str_or json v (codes "ip") [] in
        let reason = str_or json v (codes "reason") (codes "VPS command") in
        let blocked =
          client.post (network_filter_url ++ codes "/block") (block_body json client v) n in
        let unblocked =
          client.post (network_filter_url ++ codes "/unblock") (Body.unblock ip reason) n in
        ground (
          arith,
          parsed,
          failed,
          noted-err json client at received_at (codes "block_command") ip reason blocked d e,
          noted-err json client at received_at (codes "unblock_command") ip reason unblocked d e,
        )
  ]

  -- A block command that reaches the network filter is counted as received, and as applied exactly
  -- if the answer is a success; the count of unblocks stays. It posts one request: that of its body.
  pub handle_vps_command-block :
      (v : V) (status : ℕ) (n' : N)
      → json.parse text ≡ ok v
      → get_str json v (codes "type") ≡ some (codes "block_command")
      → client.post (network_filter_url ++ codes "/block") (block_body json client v) n
        ≡ (ok status, n')
      → (handled.0 ≡ ok tt)
        × (handled.1 ≡ n')
        × (handled.2.commands_received ≡ add64 d.commands_received 1)
        × (handled.2.blocks_applied
            ≡ (if is_success status then add64 d.blocks_applied 1 else d.blocks_applied))
        × (handled.2.unblocks_applied ≡ d.unblocks_applied)
  unfolding handle_vps_command run_command record_command
  handle_vps_command-block v status n' parsed type posted =
      ground (arith, parsed, type, posted, same, different)
