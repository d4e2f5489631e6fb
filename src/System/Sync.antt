-- ===== src/System/Sync.antt =====
-- The synchronisation of the cloud's blocks with the network filter, and whole connections.
use netsentry_sensor.Common.{
  ℕ, ◌+◌, ◌≤◌, ◌≡◌, true, false, some, List, [], ◌∷◌, ◌++◌, All, arith, ltb, if◌then◌else◌, ap, ◌∙◌,
  u32_mod, is_empty, Option-cases, Bool-cases, inl, inr,
}
use netsentry_sensor.Collector.Commands.{
  Body, Client, sync_block, sync_blocks, blocks_of, sync_active_blocks,
}
use netsentry_sensor.Collector.Commands.Protocol.{Reads}
use netsentry_sensor.Collector.Commands.Sessions.{Settings, listen, serve}
use netsentry_sensor.Collector.Debug.{WsDebugState}
use netsentry_sensor.Collector.Json.{Json, str_or, u64_or}
use netsentry_sensor.Common.Text.{Text, codes, text_eq}
use netsentry_sensor.Forwarder.Service.{Calendar, trim_end_slashes}
use netsentry_sensor.NetworkFilter.Api.Answers.{block_ip-blocks}
use netsentry_sensor.NetworkFilter.Api.Documents.{Database}
use netsentry_sensor.NetworkFilter.Api.Handlers.{block_ip}
use netsentry_sensor.NetworkFilter.Api.Messages.{BlockRequest, HandlerClock, normalize_ipv4_target}
use netsentry_sensor.NetworkFilter.Filter.{Times, hours_secs}
use netsentry_sensor.NetworkFilter.Firewall.{Machine, apply_iptables_block}
use netsentry_sensor.NetworkFilter.State.{World}
use netsentry_sensor.Shared.Protocols.{Serializer}
use netsentry_sensor.System.{with_filter, post_block, as_block_request, with_filter-block}
use netsentry_sensor.System.Session.{
  Arrival, IsHeard, HasRoom, IsWilling, all_told, count_requests, Blocks, State, IsServing, Agrees,
  put, frames_of, after_all, listen-after_all,
}

module _ {V : Type 0} (json : Json V) where
  abbrev ip_of : V → Text
  ip_of v = str_or json v (codes "ip") []

  abbrev severity_of : V → ℕ
  severity_of v = u64_or json v (codes "severity") 5

  -- the requests of an entry of the cloud's list, and of the list
  abbrev pub posts : V → ℕ
  posts v = if is_empty (ip_of v) then 0 else 1

  unfoldable pub count_posts : List V → ℕ
  count_posts [] = 0
  count_posts (v ∷ vs) = posts v + count_posts vs

  module _ (expiry : (base secs : ℕ) → ℕ) (clock : ℕ → HandlerClock) where
    -- the blocks after one entry, as the `i`-th request, and after all
    abbrev pub synced : ℕ → V → Blocks → Blocks
    synced i v blocks =
        if is_empty (ip_of v)
        then blocks
        else if ltb (severity_of v) u32_mod
        then put (normalize_ipv4_target (ip_of v))
            (some (expiry (clock i).block.expiry_base (hours_secs 24))) blocks
        else blocks

    unfoldable pub after_sync : ℕ → List V → Blocks → Blocks
    after_sync i [] blocks = blocks
    after_sync i (v ∷ vs) blocks = after_sync (i + posts v) vs (synced i v blocks)

module _ {V K G D M : Type 0} (json : Json V) (m : Machine K) (times : Times) (calendar : Calendar)
    (db : Database D) (dns : Text → List Text) (clock : ℕ → HandlerClock) (rest : Client V M)
    (settings : Settings) (limit : ℕ) (expiry utc_expiry date : (base secs : ℕ) → ℕ)
    (room : HasRoom times calendar clock limit expiry utc_expiry date) (willing : IsWilling m)
    (day : 24 ≤ limit) where
  post_block-Agrees :
      (i : ℕ) (ip reason source : Text) (level : ℕ) (w : World K G) (d : D) (blocks : Blocks)
      → Agrees w blocks
      → (w' : World K G) × (d' : D) × ((post_block m times calendar db dns
            (clock i)
            (Body.block ip reason 24 level source)
            w
            d).1
          ≡ some (w', d'))
        × Agrees w' (
            if ltb level u32_mod
            then put
                (normalize_ipv4_target ip)
                (some (expiry (clock i).block.expiry_base (hours_secs 24)))
                blocks
            else blocks)
  unfolding post_block as_block_request block_ip
  post_block-Agrees i ip reason source level w d blocks agrees =
      let request : BlockRequest = record {
        ip = ip;
        reason = reason;
        threat_level = level;
        duration_hours = 24;
        source = source;
      } in
      elim (Bool-cases (ltb level u32_mod)) [
        | inr large ↦ (w, d, ground (arith, large), λ now j. ground (arith, large, agrees now j))
        | inl fits ↦ elim (Option-cases (normalize_ipv4_target ip)) [
          | inl invalid ↦ (
            w,
            d,
            ground (arith, fits, invalid),
            λ now j. ground (arith, fits, invalid, agrees now j),
          )
          | inr (target, valid) ↦
              let (a, w1, d1, done, blocked) =
                block_ip-blocks m times calendar db (clock i) w d dns request target
                  (utc_expiry (clock i).block.utc_now (hours_secs 24)) valid (room.utcs i 24 day)
                  (expiry (clock i).block.expiry_base (hours_secs 24))
                  (date (clock i).document_at 24) (apply_iptables_block m target w.kernel).1
                  (room.instants i 24 day) (room.dates i 24 day)
                  (ground (arith, willing.blocks ip target w.kernel valid)) in
              (
                w1,
                d1,
                ground (arith, fits, done),
                λ now j. ground (arith, fits, valid, agrees now j, blocked now j),
              )
        ]
      ]

  sync_block-IsServing :
      (v : V) (s : M) (i : ℕ) (w : World K G) (d : D) (blocks : Blocks)
      → Agrees w blocks
      → IsServing
          (sync_block json
            (with_filter m times calendar db dns clock settings.network_filter_url rest)
            settings.network_filter_url
            v
            (s, i, some (w, d)))
          s
          (i + posts json v)
          (synced json expiry clock i v blocks)
  unfolding sync_block
  sync_block-IsServing v s i w d blocks agrees =
      let ip = ip_of json v in
      let reason = str_or json v (codes "reason") (codes "vps_sync") in
      let body = Body.block ip reason 24 (severity_of json v) (codes "vps_sync") in
      let posted =
        with_filter-block m times calendar db dns clock settings.network_filter_url rest body s i w
          d in
      let (w1, d1, done, agrees1) =
        post_block-Agrees i ip reason (codes "vps_sync") (severity_of json v) w d blocks agrees in
      elim (Bool-cases (is_empty ip)) [
        | inl e ↦ (w, d, ground (arith, e), λ now j. ground (arith, e, agrees now j))
        | inr e ↦
            (w1, d1, ground (arith, e, posted, done), λ now j. ground (arith, e, agrees1 now j))
      ]

  -- Where the clocks have room for a day and the firewall is willing: after the entries of the cloud's
  -- list no handler has panicked, and each address that an entry names with a severity in range is
  -- blocked for a day from the last such entry on, other addresses as before.
  pub sync_blocks-after_sync :
      (vs : List V) (s : M) (i : ℕ) (w : World K G) (d : D) (blocks : Blocks)
      → Agrees w blocks
      → IsServing
          (sync_blocks json
            (with_filter m times calendar db dns clock settings.network_filter_url rest)
            settings.network_filter_url
            vs
            (s, i, some (w, d)))
          s
          (i + count_posts json vs)
          (after_sync json expiry clock i vs blocks)
  unfolding sync_blocks after_sync count_posts
  sync_blocks-after_sync [] s i w d blocks agrees = (w, d, ground arith, agrees)
  sync_blocks-after_sync (v ∷ vs) s i w d blocks agrees =
      let (w1, d1, e, agrees1) = sync_block-IsServing v s i w d blocks agrees in
      let (w2, d2, e', agrees2) =
        sync_blocks-after_sync vs s (i + posts json v) w1 d1 (synced json expiry clock i v blocks)
          agrees1 in
      let next : State K G D M → State K G D M =
        sync_blocks json
          (with_filter m times calendar db dns clock settings.network_filter_url rest)
          settings.network_filter_url vs in
      (w2, d2, ground (arith, ap next e ∙ e'), agrees2)

-- what the cloud lists as blocked when it is asked
abbrev pub active : {V M : Type 0} → Json V → Client V M → Settings → M → List V
active json rest settings s =
    blocks_of json rest
      (rest.get_json (trim_end_slashes settings.vps_api_url ++ codes "/prevention/blocked")
        settings.api_key s).0

-- the rest after that request, and after a connection
abbrev pub listed : {V M : Type 0} → Client V M → Settings → M → M
listed rest settings s =
    (rest.get_json (trim_end_slashes settings.vps_api_url ++ codes "/prevention/blocked")
      settings.api_key s).1

abbrev pub after_connection : {F V M : Type 0} → Client V M → Settings → List (Arrival F) → M → M
after_connection rest settings arrivals s =
    all_told rest settings arrivals
      (rest.alive (settings.network_filter_url ++ codes "/health") (listed rest settings s)).1

module _ {F V K G D M : Type 0} (json : Json V) (to : Serializer F V) (h : Reads json to)
    (m : Machine K) (times : Times) (calendar : Calendar) (db : Database D) (dns : Text → List Text)
    (clock : ℕ → HandlerClock) (rest : Client V M) (settings : Settings) (limit : ℕ)
    (expiry utc_expiry date : (base secs : ℕ) → ℕ)
    (room : HasRoom times calendar clock limit expiry utc_expiry date) (willing : IsWilling m)
    (day : 24 ≤ limit)
    (apart : (text_eq
          (settings.rule_engine_url ++ codes "/rules/apply")
          (settings.network_filter_url ++ codes "/block")
        ≡ false)
      × (text_eq
            (settings.rule_engine_url ++ codes "/rules/apply")
            (settings.network_filter_url ++ codes "/unblock")
          ≡ false)) where
  -- A connection, from its synchronisation to its end, where the clocks have room for a day and for
  -- each block, the firewall is willing, the rule engine is at a URL of its own, and every message is
  -- heard: no handler has panicked, and an address is blocked at the network filter exactly until the
  -- end that the last command for it sets, not at all if that was an unblock; without a command, for a
  -- day from the last entry for it in the cloud's list, if its severity is in range; otherwise as
  -- before. The rest has answered for the list and the health check, and got the rules.
  pub serve-after_all :
      (connected_at : ℕ) (arrivals : List (Arrival F)) (s : M) (i : ℕ) (w : World K G) (d : D)
      (dbg : WsDebugState) (blocks : Blocks)
      → All (IsHeard json to limit) arrivals
      → Agrees w blocks
      → IsServing
          (serve json
            (with_filter m times calendar db dns clock settings.network_filter_url rest)
            settings
            connected_at
            (frames_of arrivals)
            (s, i, some (w, d))
            dbg).0
          (after_connection rest settings arrivals s)
          (i + count_posts json (active json rest settings s) + count_requests arrivals)
          (after_all expiry clock
            (i + count_posts json (active json rest settings s))
            arrivals
            (after_sync json expiry clock i (active json rest settings s) blocks))
  unfolding serve sync_active_blocks with_filter
  serve-after_all connected_at arrivals s i w d dbg blocks heard agrees =
      let client : Client V (State K G D M) =
        with_filter m times calendar db dns clock settings.network_filter_url rest in
      let vs = active json rest settings s in
      let s1 = listed rest settings s in
      let url = settings.network_filter_url ++ codes "/health" in
      let (w1, d1, e, agrees1) =
        sync_blocks-after_sync json m times calendar db dns clock rest settings limit expiry
          utc_expiry date room willing day vs s1 i w d blocks agrees in
      let connected : State K G D M → WsDebugState = λ n. record dbg {
        connected = true;
        last_connected_at = some connected_at;
        network_filter_reachable = some (client.alive url n).0;
      } in
      let (w2, d2, e', agrees2) =
        listen-after_all json to h m times calendar db dns clock rest settings limit expiry
          utc_expiry date room willing apart arrivals (rest.alive url s1).1
          (i + count_posts json vs) w1 d1 (connected (s1, i + count_posts json vs, some (w1, d1)))
          (after_sync json expiry clock i vs blocks) heard agrees1 in
      let listened : State K G D M → State K G D M = λ n.
        (listen json client settings (frames_of arrivals)
          ((client.alive url n).1, connected n)).0 in
      (w2, d2, ap listened e ∙ e', agrees2)
