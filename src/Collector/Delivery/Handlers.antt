-- ===== src/Collector/Delivery/Handlers.antt =====
-- raspi-collector/src/controllers/mod.rs: the handlers that take events. Each counts the events, sends
-- them, and counts the outcome; the response is `Ok` whatever the outcome.
use netsentry_sensor.Common.{
  ℕ, ◌+◌, ◌-◌, ◌*◌, ◌%◌, Bool, true, false, Option, List, [], ◌∷◌, ◌++◌, map, length, ltb, ◌==◌,
  if◌then◌else◌, nanos_per_sec,
}
use netsentry_sensor.Collector.Delivery.{
  RawLogEvent, CollectorMetrics, Cloud, Rates, Endpoint, convert_to_traffic_event, send_to_vps,
  send_batch_to_vps, count_received, count_outcome,
}
use netsentry_sensor.Collector.Json.{Json}
use netsentry_sensor.Common.Outcome.{Result, ok, err}
use netsentry_sensor.Common.Text.{Text, codes, print_uint}

pub record CollectorResponse : Type 0 where
  pub success : Bool
  pub message : Text
  pub event_id : Text
  pub forwarded : Bool

-- The responses to batches; `batch_size` is `events_generated` in that of a simulation.
pub record BatchResponse : Type 0 where
  pub success : Bool
  pub message : Text
  pub batch_size : ℕ
  pub forwarded : Bool

pub record MetricsResponse (F : Type 0) : Type 0 where
  pub events_collected : ℕ
  pub events_sent : ℕ
  pub last_collection : Option ℕ
  pub collection_rate : F
  pub failed_sends : ℕ
  pub success_rate : F

abbrev pub collected_response : (id : Text) → Result Text Text → CollectorResponse
collected_response id (ok event_id) = record {
  success = true;
  message = codes "Log collected and forwarded successfully";
  event_id = event_id;
  forwarded = true;
}
collected_response id (err e) = record {
  success = false;
  message = codes "Failed to forward: " ++ e;
  event_id = id;
  forwarded = false;
}

abbrev pub batch_response : (sent failed : Text) (size : ℕ) → Result (Unit {0}) Text → BatchResponse
batch_response sent failed size (ok _) = record {
  success = true;
  message = sent;
  batch_size = size;
  forwarded = true;
}
batch_response sent failed size (err e) = record {
  success = false;
  message = failed ++ e;
  batch_size = size;
  forwarded = false;
}

-- the `i`-th event of a simulation
unfoldable pub simulated_event : (id : Text) (now i : ℕ) → RawLogEvent
simulated_event id now i =
    let kind = i % 4 in
    let host = i % 3 in
    record {
      id = id;
      timestamp = now - i * nanos_per_sec;
      source_ip =
          if host == 0
          then codes "192.168.1.100"
          else if host == 1
          then codes "192.168.1.101"
          else codes "192.168.1.102";
      dest_ip =
          if host == 0
          then codes "10.0.0.1"
          else if host == 1
          then codes "8.8.8.8"
          else codes "172.16.0.1";
      source_port = 12345 + i;
      dest_port =
          if kind == 1 then 53 else if kind == 2 then 80 else if kind == 3 then 443 else 8080;
      protocol = if kind == 1 then codes "UDP" else codes "TCP";
      payload =
          if kind == 0
          then codes
              "{\"action\": \"allowed\", \"gid\": 1, \"signature_id\": 2000001, \"rev\": 1, \"signature\": \"Potential security threat\", \"category\": \"attempted-recon\", \"severity\": 2}"
          else if kind == 1
          then codes "{\"queries\": [{\"rrname\": \"example.com\"}]}"
          else if kind == 2
          then codes
              "{\"hostname\": \"example.com\", \"url\": \"/index.html\", \"http_user_agent\": \"Mozilla/5.0\"}"
          else codes "{}";
      severity = if kind == 0 then 2 else 1;
      event_type =
          if kind == 0
          then codes "alert"
          else if kind == 1
          then codes "dns"
          else if kind == 2
          then codes "http"
          else codes "tls";
    }

-- `ids` are the identifiers that are drawn, one for each event.
abbrev pub simulated_events : (now i : ℕ) (ids : List Text) → List RawLogEvent
simulated_events now i [] = []
simulated_events now i (id ∷ ids) = simulated_event id now i ∷ simulated_events now (i + 1) ids

module _ {V N F : Type 0} (json : Json V) (cloud : Cloud V N) (rates : Rates F) (e : Endpoint) where
  unfoldable pub collect_log :
      (at now : ℕ)
      → RawLogEvent
      → CollectorMetrics F
      → N
      → CollectorResponse × CollectorMetrics F × N
  collect_log at now event m n =
      let received = count_received rates 1 at now m in
      let sent = send_to_vps cloud json e (convert_to_traffic_event json event) n in
      (collected_response event.id sent.0, count_outcome 1 sent.0 received, sent.1)

  -- what the two handlers of batches have in common
  unfoldable pub collect_events :
      (sent failed : Text) (at now : ℕ)
      → List RawLogEvent
      → CollectorMetrics F
      → N
      → BatchResponse × CollectorMetrics F × N
  collect_events sent failed at now events m n =
      let size = length events in
      let received = count_received rates size at now m in
      let done = send_batch_to_vps cloud e (map (convert_to_traffic_event json) events) n in
      (batch_response sent failed size done.0, count_outcome size done.0 received, done.1)

  unfoldable pub collect_batch_logs :
      (at now : ℕ)
      → List RawLogEvent
      → CollectorMetrics F
      → N
      → BatchResponse × CollectorMetrics F × N
  unfolding collect_events
  collect_batch_logs at now events m n =
      collect_events
        (codes "Batch of "
          ++ print_uint (length events)
          ++ codes " logs collected and forwarded successfully")
        (codes "Failed to forward batch: ") at now events m n

  -- `ids` has ten elements in the source, whose loop runs over `0..10`.
  unfoldable pub simulate_logs :
      (now at later : ℕ) (ids : List Text)
      → CollectorMetrics F
      → N
      → BatchResponse × CollectorMetrics F × N
  unfolding collect_events
  simulate_logs now at later ids m n =
      let events = simulated_events now 0 ids in
      collect_events
        (codes "Generated and forwarded "
          ++ print_uint (length events)
          ++ codes " simulated events")
        (codes "Failed to forward simulated events: ") at later events m n

-- `percent a b` is `a as f64 / b as f64 * 100.0`
unfoldable pub get_metrics :
    {F : Type 0} → Rates F → (percent : ℕ → ℕ → F) → CollectorMetrics F → MetricsResponse F
get_metrics rates percent m = record {
  events_collected = m.events_collected;
  events_sent = m.events_sent;
  last_collection = m.last_collection;
  collection_rate = m.collection_rate;
  failed_sends = m.failed_sends;
  success_rate =
      if ltb 0 m.events_collected then percent m.events_sent m.events_collected else rates.nothing;
}
