-- ===== src/Collector/Delivery.antt =====
-- raspi-collector: the events, what converts and sends them, and the counts that are kept of it
-- (services/mod.rs, controllers/mod.rs and models/mod.rs). Times are in nanoseconds since 1970.
pub mod Handlers
pub mod Tail
pub mod Ledger
pub mod Alerts
use netsentry_sensor.Common.{
  ℕ, ◌+◌, ◌-◌, ◌/◌, ◌≡◌, Bool, true, false, Option, none, some, List, [], ◌∷◌, ◌++◌, map, length,
  leb, ltb, is_empty, unwrap_or, if◌then◌else◌, ◌>>=◌, add64, nanos_per_sec,
}
use netsentry_sensor.Collector.Commands.{is_success}
use netsentry_sensor.Collector.Json.{Json, get_str}
use netsentry_sensor.Common.Outcome.{Result, ok, err}
use netsentry_sensor.Common.Text.{Text, codes}

pub record RawLogEvent : Type 0 where
  pub id : Text
  pub timestamp : ℕ
  pub source_ip : Text
  pub dest_ip : Text
  pub source_port : ℕ
  pub dest_port : ℕ
  pub protocol : Text
  pub payload : Text
  pub severity : ℕ
  pub event_type : Text

-- `V` is the type of JSON values.
pub record TrafficEvent (V : Type 0) : Type 0 where
  pub id : Text
  pub timestamp : ℕ
  pub source_ip : Text
  pub dest_ip : Text
  pub source_port : ℕ
  pub dest_port : ℕ
  pub protocol : Text
  pub payload : V
  pub threat_level : ℕ
  pub event_type : Text

-- `F` is the type of floating-point numbers.
pub record CollectorMetrics (F : Type 0) : Type 0 where
  pub events_collected : ℕ
  pub events_sent : ℕ
  pub last_collection : Option ℕ
  pub collection_rate : F
  pub failed_sends : ℕ

-- The cloud, as `reqwest` shows it: an event or a batch is posted to a URL, with a key where there is
-- one. The answer is a status, with its body where that is read, or the text of an error.
pub record Cloud (V N : Type 0) : Type 0 where
  pub post_event :
      (url : Text) → Option Text → TrafficEvent V → N → Result (ℕ × Result V Text) Text × N
  pub post_batch : (url : Text) → Option Text → List (TrafficEvent V) → N → Result ℕ Text × N
  pub print_status : ℕ → Text

-- the division of two counts as floating-point numbers, and zero
pub record Rates (F : Type 0) : Type 0 where
  pub quotient : ℕ → ℕ → F
  pub nothing : F

pub record Endpoint : Type 0 where
  pub vps_endpoint : Text
  pub api_key : Text

-- the key is left out where it is empty
abbrev pub key_of : Endpoint → Option Text
key_of e = if is_empty e.api_key then none else some e.api_key

unfoldable pub convert_to_traffic_event : {V : Type 0} → Json V → RawLogEvent → TrafficEvent V
convert_to_traffic_event json raw = record {
  id = raw.id;
  timestamp = raw.timestamp;
  source_ip = raw.source_ip;
  dest_ip = raw.dest_ip;
  source_port = raw.source_port;
  dest_port = raw.dest_port;
  protocol = raw.protocol;
  payload = elim (json.parse raw.payload) [ ok v ↦ v | err _ ↦ json.raw raw.payload ];
  threat_level = raw.severity;
  event_type = raw.event_type;
}

module _ {V N : Type 0} (cloud : Cloud V N) where
  -- the outcome of an event: the identifier that the cloud gives it
  abbrev pub event_answer : Json V → Result (ℕ × Result V Text) Text → Result Text Text
  event_answer json (err e) = err e
  event_answer json (ok (status, body)) =
      if is_success status
      then elim body [
        | err e ↦ err e
        | ok v ↦ ok (unwrap_or (get_str json v (codes "event_id")) (codes "unknown"))
      ]
      else err (codes "VPS returned status: " ++ cloud.print_status status)

  unfoldable pub send_to_vps : Json V → Endpoint → TrafficEvent V → N → Result Text Text × N
  send_to_vps json e event n =
      let sent = cloud.post_event (e.vps_endpoint ++ codes "/traffic") (key_of e) event n in
      (event_answer json sent.0, sent.1)

  abbrev pub batch_answer : Result ℕ Text → Result (Unit {0}) Text
  batch_answer (err e) = err e
  batch_answer (ok status) =
      if is_success status
      then ok tt
      else err (codes "VPS batch returned status: " ++ cloud.print_status status)

  unfoldable pub send_batch_to_vps :
      Endpoint → List (TrafficEvent V) → N → Result (Unit {0}) Text × N
  send_batch_to_vps e events n =
      let sent = cloud.post_batch (e.vps_endpoint ++ codes "/traffic/batch") (key_of e) events n in
      (batch_answer sent.0, sent.1)

module _ {F : Type 0} where
  -- whole seconds; a difference that is not positive yields zero
  unfoldable pub calculate_collection_rate : Rates F → (now : ℕ) → CollectorMetrics F → F
  calculate_collection_rate rates now m = elim (m.last_collection) [
    | none ↦ rates.nothing
    | some last ↦
        let seconds = (now - last) / nanos_per_sec in
        if ltb 0 seconds then rates.quotient m.events_collected seconds else rates.nothing
  ]

  -- under one lock: `k` events are collected
  abbrev pub count_collected : (k at : ℕ) → CollectorMetrics F → CollectorMetrics F
  count_collected k at m = record m {
    events_collected = add64 m.events_collected k;
    last_collection = some at;
  }

  -- what the handlers do under that lock: the rate is taken after the time is set
  unfoldable pub count_received : Rates F → (k at now : ℕ) → CollectorMetrics F → CollectorMetrics F
  unfolding calculate_collection_rate
  count_received rates k at now m =
      let counted = count_collected k at m in
      record counted { collection_rate = calculate_collection_rate rates now counted }

  -- under a later lock: `k` events are sent, or not
  unfoldable pub count_outcome :
      {A : Type 0} → (k : ℕ) → Result A Text → CollectorMetrics F → CollectorMetrics F
  count_outcome k (ok _) m = record m { events_sent = add64 m.events_sent k }
  count_outcome k (err _) m = record m { failed_sends = add64 m.failed_sends k }
