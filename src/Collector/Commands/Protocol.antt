-- ===== src/Collector/Commands/Protocol.antt =====
-- What the collector does with a message of the protocol, read by its type.
use netsentry_sensor.Common.{
  ℕ, ◌≡◌, ◌<◌, Option, none, some, [], ◌∷◌, ◌++◌, refl, if◌then◌else◌, arith, u64_mod,
}
use netsentry_sensor.Collector.Commands.{
  Body, Client, Handled, hours_of, noted, block_body, run_command, handle_vps_command,
}
use netsentry_sensor.Collector.Debug.{WsDebugState}
use netsentry_sensor.Collector.Json.{Json, get_str, get_u64}
use netsentry_sensor.Common.Dict.{Dict}
use netsentry_sensor.Common.Outcome.{ok}
use netsentry_sensor.Common.Text.{Text, codes, text_eq}
use netsentry_sensor.Shared.Protocols.{
  WsPayload, WsMessage, Serializer, IsTyped, optional, type_name, message_fields, message_value,
  block_command, unblock_command, rule_update, command_ack, alert, metrics, ping, pong,
}

-- the value of the last field with a key
unfoldable pub last_of : {V : Type 0} → Text → Dict V → Option V
last_of k [] = none
last_of k ((j, v) ∷ m) = elim (last_of k m) [
  | some w ↦ some w
  | none ↦ if text_eq j k then some v else none
]

-- The documented behaviour of `serde_json::Value` for what a `Serialize` writes: the last field of a
-- key counts.
pub record Reads {F V : Type 0} (json : Json V) (to : Serializer F V) : Type 0 where
  pub get_object : (m : Dict V) (k : Text) → json.get (to.object m) k ≡ last_of k m
  pub str_as_str : (t : Text) → json.as_str (to.str t) ≡ some t
  pub null_as_str : json.as_str to.null ≡ none
  pub number_as_u64 : (n : ℕ) → n < u64_mod → json.as_u64 (to.number n) ≡ some n

module _ {F V N : Type 0} (json : Json V) (client : Client V N)
    (rule_engine_url network_filter_url : Text) (at received_at : ℕ) where
  -- What the collector does with a typed message: the duration of a block is in hours, and the action of
  -- a rule update plays no part.
  unfoldable pub react : WsPayload F → N → WsDebugState → Handled N
  react (block_command c) n d =
      noted json client at received_at (codes "block_command") c.ip c.reason
        (client.post (network_filter_url ++ codes "/block")
          (Body.block c.ip c.reason (hours_of c.duration_secs) c.severity (codes "vps_command")) n)
        d
  react (unblock_command c) n d =
      noted json client at received_at (codes "unblock_command") c.ip c.reason
        (client.post (network_filter_url ++ codes "/unblock") (Body.unblock c.ip c.reason) n) d
  react (rule_update r) n d = (
    ok tt,
    (client.post (rule_engine_url ++ codes "/rules/apply")
        (Body.rule r.suricata_rule r.iptables_rule) n).1,
    d,
  )
  react _ n d = (ok tt, n, d)

module _ {F V : Type 0} (json : Json V) (to : Serializer F V) (h : Reads json to) where
  field_str :
      (m : Dict V) (k t : Text)
      → last_of k m ≡ some (to.str t)
      → get_str json (to.object m) k ≡ some t
  field_str m k t e = ground (arith, h.get_object m k, h.str_as_str t, e)

  field_number :
      (m : Dict V) (k : Text) (n : ℕ)
      → last_of k m ≡ some (to.number n)
      → n < u64_mod
      → get_u64 json (to.object m) k ≡ some n
  field_number m k n e small = ground (arith, h.get_object m k, h.number_as_u64 n small, e)

  field_optional :
      (m : Dict V) (k : Text) (o : Option Text)
      → last_of k m ≡ some (optional to to.str o)
      → get_str json (to.object m) k ≡ o
  field_optional m k none e = ground (arith, h.get_object m k, h.null_as_str, e)
  field_optional m k (some t) e = ground (arith, h.get_object m k, h.str_as_str t, e)

module _ {F V N : Type 0} (json : Json V) (to : Serializer F V) (h : Reads json to)
    (client : Client V N) (rule_engine_url network_filter_url : Text) (at received_at : ℕ)
    (id : Text) (timestamp : ℕ) where
  abbrev ran : WsPayload F → N → WsDebugState → Handled N
  ran p n d =
      run_command json client rule_engine_url network_filter_url at received_at
        (message_value to (record { id = id; timestamp = timestamp; payload = p })) n d

  abbrev asked : WsPayload F → N → WsDebugState → Handled N
  asked = react json client rule_engine_url network_filter_url at received_at

  abbrev parts : WsPayload F → Dict V
  parts p = message_fields to (record { id = id; timestamp = timestamp; payload = p })

  message_value-type :
      (p : WsPayload F) → get_str json (to.object (parts p)) (codes "type") ≡ some (type_name p)
  unfolding last_of text_eq codes
  message_value-type (block_command c) = field_str json to h _ _ _ refl
  message_value-type (unblock_command c) = field_str json to h _ _ _ refl
  message_value-type (rule_update r) = field_str json to h _ _ _ refl
  message_value-type (command_ack a) = field_str json to h _ _ _ refl
  message_value-type (alert a) = field_str json to h _ _ _ refl
  message_value-type (metrics s) = field_str json to h _ _ _ refl
  message_value-type (ping b) = field_str json to h _ _ _ refl
  message_value-type (pong b) = field_str json to h _ _ _ refl

  run_command-WsPayload :
      (p : WsPayload F) (n : N) (d : WsDebugState) → IsTyped p → ran p n d ≡ asked p n d
  unfolding run_command react block_body message_value last_of text_eq codes
  run_command-WsPayload (block_command c) n d (short, weak) =
      let m = parts (block_command c) in
      rw (
        message_value-type (block_command c),
        field_str json to h m (codes "ip") c.ip refl,
        field_str json to h m (codes "reason") c.reason refl,
        field_number json to h m (codes "duration_secs") c.duration_secs refl short,
        field_number json to h m (codes "severity") c.severity refl (omega arith),
      )
  run_command-WsPayload (unblock_command c) n d typed =
      let m = parts (unblock_command c) in
      rw (
        message_value-type (unblock_command c),
        field_str json to h m (codes "ip") c.ip refl,
        field_str json to h m (codes "reason") c.reason refl,
      )
  run_command-WsPayload (rule_update r) n d typed =
      let m = parts (rule_update r) in
      rw (
        message_value-type (rule_update r),
        field_optional json to h m (codes "suricata_rule") r.suricata_rule refl,
        field_optional json to h m (codes "iptables_rule") r.iptables_rule refl,
      )
  run_command-WsPayload (command_ack a) n d typed = rw (message_value-type (command_ack a))
  run_command-WsPayload (alert a) n d typed = rw (message_value-type (alert a))
  run_command-WsPayload (metrics s) n d typed = rw (message_value-type (metrics s))
  run_command-WsPayload (ping b) n d typed = rw (message_value-type (ping b))
  run_command-WsPayload (pong b) n d typed = rw (message_value-type (pong b))

module _ {F V N : Type 0} (json : Json V) (to : Serializer F V) (h : Reads json to)
    (client : Client V N) (rule_engine_url network_filter_url : Text) (at received_at : ℕ) where
  -- The handler on a text that reads as the object of a message of the protocol, its numbers within
  -- their types, in terms of the typed message.
  pub handle_vps_command-react :
      (m : WsMessage F) (text : Text) (n : N) (d : WsDebugState)
      → IsTyped m.payload
      → json.parse text ≡ ok (message_value to m)
      → handle_vps_command json client rule_engine_url at received_at text network_filter_url n d
        ≡ react json client rule_engine_url network_filter_url at received_at m.payload n d
  unfolding handle_vps_command
  handle_vps_command-react m text n d typed parsed =
      rw (parsed, handle_vps_command)
        (run_command-WsPayload json to h client rule_engine_url network_filter_url at received_at
          m.id m.timestamp m.payload n d typed)
