-- ===== src/System/Rounds.antt =====
-- The command listener over its connections to the cloud, each served by the network filter.
use netsentry_sensor.Common.{
  ℕ, ◌+◌, ◌≤◌, ◌≡◌, ◌%◌, ◌∙◌, refl, false, some, none, List, [], ◌∷◌, ◌++◌, map, All, ap, u32_mod,
}
use netsentry_sensor.Collector.Commands.{Client}
use netsentry_sensor.Collector.Commands.Protocol.{Reads}
use netsentry_sensor.Collector.Commands.Sessions.{
  Settings, Round, serve, run_round, run_vps_command_listener,
}
use netsentry_sensor.Collector.Debug.{WsDebugState}
use netsentry_sensor.Collector.Json.{Json}
use netsentry_sensor.Common.Text.{Text, codes, text_eq}
use netsentry_sensor.Forwarder.Service.{Calendar}
use netsentry_sensor.NetworkFilter.Api.Documents.{Database}
use netsentry_sensor.NetworkFilter.Api.Messages.{HandlerClock}
use netsentry_sensor.NetworkFilter.Filter.{Times}
use netsentry_sensor.NetworkFilter.Firewall.{Machine}
use netsentry_sensor.NetworkFilter.State.{World}
use netsentry_sensor.Shared.Protocols.{Serializer}
use netsentry_sensor.System.{with_filter}
use netsentry_sensor.System.Session.{
  HasRoom, IsWilling, count_requests, Arrival, IsHeard, Blocks, State, Agrees, frames_of, after_all,
}
use netsentry_sensor.System.Sync.{
  count_posts, after_sync, active, after_connection, serve-after_all,
}

-- A round of the listener: without a connection, or with one and what the cloud sends over it.
pub data Visit (F : Type 0) : Type 0 where
  refused : (started_at : ℕ) → Visit F
  met : (started_at connected_at : ℕ) (arrivals : List (Arrival F)) → Visit F

abbrev pub round_of : {F : Type 0} → Visit F → Round
round_of (Visit.refused t) = record { started_at = t; connection = none }
round_of (Visit.met t at arrivals) = record {
  started_at = t;
  connection = some (at, frames_of arrivals);
}

abbrev pub rounds_of : {F : Type 0} → List (Visit F) → List Round
rounds_of visits = map round_of visits

abbrev pub IsHeardIn : {F V : Type 0} → Json V → Serializer F V → (limit : ℕ) → Visit F → Type 0
IsHeardIn json to limit (Visit.refused t) = Unit
IsHeardIn json to limit (Visit.met t at arrivals) = All (IsHeard json to limit) arrivals

abbrev lost : (started_at : ℕ) → WsDebugState → WsDebugState
lost t dbg = record dbg {
  connected = false;
  last_disconnected_at = some t;
  reconnect_count = (dbg.reconnect_count + 1) % u32_mod;
}

module _ {F V M : Type 0} (json : Json V) (rest : Client V M) (settings : Settings)
    (expiry : (base secs : ℕ) → ℕ) (clock : ℕ → HandlerClock) where
  -- the blocks after one connection, from the cloud's list and the commands
  abbrev pub after_visit : M → ℕ → List (Arrival F) → Blocks → Blocks
  after_visit s i arrivals blocks =
      let vs = active json rest settings s in
      after_all expiry clock (i + count_posts json vs) arrivals
        (after_sync json expiry clock i vs blocks)

  -- The blocks after several rounds, where the rest is in the state `s` at the start and the next
  -- request to the filter is the `i`-th.
  unfoldable pub after_visits : M → ℕ → List (Visit F) → Blocks → Blocks
  after_visits s i [] blocks = blocks
  after_visits s i (Visit.refused started_at ∷ visits) blocks = after_visits s i visits blocks
  after_visits s i (Visit.met started_at connected_at arrivals ∷ visits) blocks =
      after_visits (after_connection rest settings arrivals s)
        (i + count_posts json (active json rest settings s) + count_requests arrivals) visits
        (after_visit s i arrivals blocks)

module _ {F V K G D M : Type 0} (json : Json V) (to : Serializer F V) (h : Reads json to)
    (m : Machine K) (times : Times) (calendar : Calendar) (db : Database D) (dns : Text → List Text)
    (clock : ℕ → HandlerClock) (rest : Client V M) (settings : Settings) (limit : ℕ)
    (expiry utc_expiry date : (base secs : ℕ) → ℕ)
    (room : HasRoom times calendar clock limit expiry utc_expiry date) (willing : IsWilling m)
    (day : 24 ≤ limit)
    (apart : (text_eq
          (settings.rule_engine_url ++ codes "/rules/apply")
          (settings.network_filter_url ++ codes "/block")
        ≡ false)
      × (text_eq
            (settings.rule_engine_url ++ codes "/rules/apply")
            (settings.network_filter_url ++ codes "/unblock")
          ≡ false)) where
  -- The rounds of the command listener, in which the cloud may be out of reach or connections end,
  -- where the readings of the clocks have room for a day and for each block, the firewall takes every
  -- block and removal of an address, the rule engine is at a URL of its own, and every message is heard,
  -- each block for a positive number of whole hours: no handler has panicked, and an address is blocked
  -- at the network filter exactly until the end that the rounds set in their order. A round without a
  -- connection sets none; a connection sets, first, a day for each entry of the list that the cloud
  -- gives then, if its severity is in range, and then what its commands say: a block an end after as
  -- many seconds as it names, an unblock that there is no block.
  pub run_vps_command_listener-after_visits :
      (visits : List (Visit F)) (s : M) (i : ℕ) (w : World K G) (d : D) (dbg : WsDebugState)
      (blocks : Blocks)
      → All (IsHeardIn json to limit) visits
      → Agrees w blocks
      → (s' : M) × (i' : ℕ) × (w' : World K G) × (d' : D) × ((run_vps_command_listener json
            (with_filter m times calendar db dns clock settings.network_filter_url rest)
            settings
            (rounds_of visits)
            ((s, i, some (w, d)), dbg)).0
          ≡ (s', i', some (w', d')))
        × Agrees w' (after_visits json rest settings expiry clock s i visits blocks)
  unfolding run_vps_command_listener run_round after_visits
  run_vps_command_listener-after_visits [] s i w d dbg blocks heard agrees =
      (s, i, w, d, refl, agrees)
  run_vps_command_listener-after_visits (Visit.refused t ∷ visits) s i w d dbg blocks (_, heard)
        agrees =
      run_vps_command_listener-after_visits visits s i w d (lost t dbg) blocks heard agrees
  run_vps_command_listener-after_visits (Visit.met t at arrivals ∷ visits) s i w d dbg blocks
        (now, heard) agrees =
      let client : Client V (State K G D M) =
        with_filter m times calendar db dns clock settings.network_filter_url rest in
      let served =
        serve json client settings at (frames_of arrivals) (s, i, some (w, d)) (lost t dbg) in
      let (w1, d1, e, agrees1) =
        serve-after_all json to h m times calendar db dns clock rest settings limit expiry
          utc_expiry date room willing day apart at arrivals s i w d (lost t dbg) blocks now
          agrees in
      let (s2, i2, w2, d2, e', agrees2) =
        run_vps_command_listener-after_visits visits (after_connection rest settings arrivals s)
          (i + count_posts json (active json rest settings s) + count_requests arrivals) w1 d1
          served.1 (after_visit json rest settings expiry clock s i arrivals blocks) heard
          agrees1 in
      let run : State K G D M → State K G D M =
        λ n. (run_vps_command_listener json client settings (rounds_of visits) (n, served.1)).0 in
      (s2, i2, w2, d2, ap run e ∙ e', agrees2)
