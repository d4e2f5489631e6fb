-- ===== src/Shared/Protocols/Keys.antt =====
-- The keys of the object that a message becomes.
use netsentry_sensor.Common.{ℕ, ◌≡◌, Bool, true, false, List, [], ◌∷◌, refl, is_some, if◌then◌else◌}
use netsentry_sensor.Common.Dict.{Dict, lookup}
use netsentry_sensor.Common.Text.{Text, codes, text_eq}
use netsentry_sensor.Shared.Protocols.{
  WsPayload, WsMessage, Serializer, message_fields, block_command, unblock_command, rule_update,
  command_ack, alert, metrics, ping, pong,
}

-- the keys that stand again further on
unfoldable pub repeated : {V : Type 0} → Dict V → List Text
repeated [] = []
repeated ((k, _) ∷ m) = let rest = repeated m in if is_some (lookup k m) then k ∷ rest else rest

abbrev pub is_alert : {F : Type 0} → WsPayload F → Bool
is_alert (alert _) = true
is_alert _ = false

keys :
    {F V : Type 0} (to : Serializer F V) (id : Text) (timestamp : ℕ) (p : WsPayload F)
    → repeated (message_fields to (record { id = id; timestamp = timestamp; payload = p }))
      ≡ (if is_alert p then codes "timestamp" ∷ [] else [])
unfolding repeated lookup codes text_eq
keys to id timestamp (block_command c) = refl
keys to id timestamp (unblock_command c) = refl
keys to id timestamp (rule_update r) = refl
keys to id timestamp (command_ack a) = refl
keys to id timestamp (alert a) = refl
keys to id timestamp (metrics s) = refl
keys to id timestamp (ping h) = refl
keys to id timestamp (pong h) = refl

-- An alert's own time stands beside that of the message under one key, `timestamp`. No other key of
-- a message stands twice, and none of a message of another type.
pub message_fields-repeated :
    {F V : Type 0} (to : Serializer F V) (m : WsMessage F)
    → repeated (message_fields to m) ≡ (if is_alert m.payload then codes "timestamp" ∷ [] else [])
message_fields-repeated to m = keys to m.id m.timestamp m.payload
