-- ===== src/Collector/Commands/Sessions/Order.antt =====
-- The order of what is sent, and the debug state between connections.
use netsentry_sensor.Common.{
  ℕ, ◌+◌, ◌%◌, ◌≡◌, ◌∙◌, ◌<◌, Bool, true, false, not, some, List, [], ◌∷◌, ◌++◌, map, keep,
  is_empty, length, arith, Bool-cases, Option-cases, inl, inr, refl, sym, ap, u32_mod,
}
use mathlib.Core.List.{append-nil, append_assoc}
use netsentry_sensor.Collector.Commands.{
  Body, Client, sync_block, sync_blocks, blocks_of, sync_active_blocks, handle_vps_command,
  run_command, noted, block_body,
}
use netsentry_sensor.Collector.Commands.Sessions.{
  Frame, Round, Settings, listen, serve, run_round, run_vps_command_listener,
}
use netsentry_sensor.Collector.Debug.{WsDebugState, record_command}
use netsentry_sensor.Collector.Json.{Json, str_or, u64_or}
use netsentry_sensor.Forwarder.Service.{trim_end_slashes}
use netsentry_sensor.Common.Outcome.{Result, ok, err, Result-cases}
use netsentry_sensor.Common.Text.{Text, codes}

module _ {V : Type 0} (json : Json V) where
  abbrev pub names_address : V → Bool
  names_address v = not (is_empty (str_or json v (codes "ip") []))

  -- the request that a block of the cloud's list leads to
  abbrev pub sync_request : (network_filter_url : Text) → V → Text × Body
  sync_request network_filter_url v = (
    network_filter_url ++ codes "/block",
    Body.block (str_or json v (codes "ip") []) (str_or json v (codes "reason") (codes "vps_sync"))
        24 (u64_or json v (codes "severity") 5) (codes "vps_sync"),
  )

module _ {V N : Type 0} (json : Json V) (client : Client V N) (posts : N → List (Text × Body))
    (recorded : (url : Text) (b : Body) (n : N)
      → posts (client.post url b n).1 ≡ posts n ++ (url, b) ∷ [])
    (network_filter_url : Text) where
  sync_blocks-posts :
      (vs : List V) (n : N)
      → posts (sync_blocks json client network_filter_url vs n)
        ≡ posts n ++ map (sync_request json network_filter_url) (keep (names_address json) vs)
  unfolding sync_blocks sync_block keep
  sync_blocks-posts [] n = sym (append-nil (posts n))
  sync_blocks-posts (v ∷ vs) n = elim (Bool-cases (is_empty (str_or json v (codes "ip") []))) [
    | inl e ↦ ground (arith, e, sync_blocks-posts vs n)
    | inr e ↦
        let x = sync_request json network_filter_url v in
        let after = (client.post x.0 x.1 n).1 in
        ground (
          arith,
          e,
          sync_blocks-posts vs after,
          recorded x.0 x.1 n,
          append_assoc (posts n) (x ∷ [])
              (map (sync_request json network_filter_url) (keep (names_address json) vs)),
        )
  ]

  -- Where a request is added to the record of requests and fetching the list adds none, a
  -- synchronisation sends one block for each entry with an address, in the order of the list; where
  -- the list is not had, it sends none.
  pub sync_active_blocks-posts :
      (vps_api_url api_key : Text) (n : N)
      → ((url : Text) → posts (client.get_json url api_key n).1 ≡ posts n)
      → posts (sync_active_blocks json client vps_api_url network_filter_url api_key n)
        ≡ posts n
          ++ map (sync_request json network_filter_url) (
              keep (names_address json) (
                blocks_of json client
                  (client.get_json
                    (trim_end_slashes vps_api_url ++ codes "/prevention/blocked")
                    api_key
                    n).0))
  unfolding sync_active_blocks
  sync_active_blocks-posts vps_api_url api_key n quiet =
      let url = trim_end_slashes vps_api_url ++ codes "/prevention/blocked" in
      let answer = client.get_json url api_key n in
      sync_blocks-posts (blocks_of json client answer.0) answer.1
      ∙ ap
          (λ ps.
            ps
            ++ map (sync_request json network_filter_url)
                (keep (names_address json) (blocks_of json client answer.0)))
          (quiet url)

noted-reconnects :
    {V N : Type 0} (json : Json V) (client : Client V N) (at received_at : ℕ)
    (cmd_type ip reason : Text) (x : Result ℕ Text × N) (d : WsDebugState)
    → (noted json client at received_at cmd_type ip reason x d).2.reconnect_count
      ≡ d.reconnect_count
unfolding record_command
noted-reconnects json client at received_at cmd_type ip reason (err x, n) d = refl
noted-reconnects json client at received_at cmd_type ip reason (ok status, n) d = refl

handle_vps_command-reconnects :
    {V N : Type 0} (json : Json V) (client : Client V N) (rule_engine_url : Text)
    (at received_at : ℕ) (text network_filter_url : Text) (n : N) (d : WsDebugState)
    → ((handle_vps_command json client rule_engine_url at received_at text network_filter_url n
          d).2.reconnect_count
        ≡ d.reconnect_count)
unfolding handle_vps_command run_command
handle_vps_command-reconnects json client rule_engine_url at received_at text network_filter_url n
      d =
    elim (Result-cases (json.parse text)) [
      | inr (x, bad) ↦ ground (arith, bad)
      | inl (v, parsed) ↦
          let ip = str_or json v (codes "ip") [] in
          let reason = str_or json v (codes "reason") (codes "VPS command") in
          let blocked =
            client.post (network_filter_url ++ codes "/block") (block_body json client v) n in
          let unblocked =
            client.post (network_filter_url ++ codes "/unblock") (Body.unblock ip reason) n in
          ground (
            arith,
            parsed,
            noted-reconnects json client at received_at (codes "block_command") ip reason blocked d,
            noted-reconnects json client at received_at (codes "unblock_command") ip reason
                unblocked d,
          )
    ]

module _ {V N : Type 0} (json : Json V) (client : Client V N) (settings : Settings) where
  listen-reconnects :
      (frames : List Frame) (s : N × WsDebugState)
      → (listen json client settings frames s).1.reconnect_count ≡ s.1.reconnect_count
  unfolding listen
  listen-reconnects [] s = refl
  listen-reconnects (Frame.text at received_at content ∷ frames) (n, d) =
      let done =
        handle_vps_command json client settings.rule_engine_url at received_at content
          settings.network_filter_url n d in
      listen-reconnects frames (done.1, done.2)
      ∙ handle_vps_command-reconnects json client settings.rule_engine_url at received_at content
          settings.network_filter_url n d
  listen-reconnects (Frame.close ∷ frames) s = refl
  listen-reconnects (Frame.broken e ∷ frames) s = refl
  listen-reconnects (Frame.other ∷ frames) s = listen-reconnects frames s

  -- Nothing that follows a closing on the same connection is handled.
  pub listen-close :
      (before after : List Frame) (s : N × WsDebugState)
      → listen json client settings (before ++ Frame.close ∷ after) s
        ≡ listen json client settings before s
  unfolding listen
  listen-close [] after s = refl
  listen-close (Frame.text at received_at content ∷ frames) after (n, d) =
      let done =
        handle_vps_command json client settings.rule_engine_url at received_at content
          settings.network_filter_url n d in
      listen-close frames after (done.1, done.2)
  listen-close (Frame.close ∷ frames) after s = refl
  listen-close (Frame.broken e ∷ frames) after s = refl
  listen-close (Frame.other ∷ frames) after s = listen-close frames after s

  run_round-ends :
      (r : Round) (s : N × WsDebugState)
      → ((run_round json client settings r s).1.connected ≡ false)
        × ((run_round json client settings r s).1.reconnect_count
            ≡ (s.1.reconnect_count + 1) % u32_mod)
  unfolding run_round serve
  run_round-ends r (n, d) = elim (Option-cases (r.connection)) [
    | inl e ↦ ground (arith, e)
    | inr ((t, frames), e) ↦
        let synced =
          sync_active_blocks json client settings.vps_api_url settings.network_filter_url
            settings.api_key n in
        let checked = client.alive (settings.network_filter_url ++ codes "/health") synced in
        let served : WsDebugState = record d {
          connected = true;
          last_connected_at = some t;
          last_disconnected_at = some r.started_at;
          reconnect_count = (d.reconnect_count + 1) % u32_mod;
          network_filter_reachable = some checked.0;
        } in
        ground (arith, e, listen-reconnects frames (checked.1, served))
  ]

  -- From a state that says that there is no connection, with a count of rounds below 2^32,
  -- however the connections of some rounds went, the state after them says that there is none,
  -- and the rounds are counted modulo 2^32.
  pub run_vps_command_listener-ends :
      (rs : List Round) (s : N × WsDebugState)
      → s.1.connected ≡ false
      → s.1.reconnect_count < u32_mod
      → ((run_vps_command_listener json client settings rs s).1.connected ≡ false)
        × ((run_vps_command_listener json client settings rs s).1.reconnect_count
            ≡ (s.1.reconnect_count + length rs) % u32_mod)
  unfolding run_vps_command_listener
  run_vps_command_listener-ends [] s off bound = (off, ground (arith, bound))
  run_vps_command_listener-ends (r ∷ rs) s off bound =
      let ends = run_round-ends r s in
      let rest =
        run_vps_command_listener-ends rs (run_round json client settings r s) ends.0
          (ground (arith, ends.1)) in
      (rest.0, ground (arith, rest.1, ends.1, bound))
