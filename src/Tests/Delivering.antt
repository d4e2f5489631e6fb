-- ===== src/Tests/Delivering.antt =====
-- The collector's deliveries at concrete inputs.
use netsentry_sensor.Common.{
  ℕ, ◌<◌, ◌≡◌, refl, false, Option, none, List, [], ◌∷◌, ◌++◌, is_empty, length, u16_mod,
}
use netsentry_sensor.Collector.Delivery.{
  RawLogEvent, TrafficEvent, Cloud, Rates, Endpoint, count_received,
}
use netsentry_sensor.Collector.Delivery.Alerts.{
  parse_eve_line, alert_of, is_noise, level_of, event_of, IsLevel, parse_eve_line-alert,
}
use netsentry_sensor.Collector.Delivery.Handlers.{collect_log, collect_batch_logs, simulate_logs}
use netsentry_sensor.Collector.Delivery.Ledger.{
  Ledger, Step, Reach, IsBalanced, default_metrics, Reach-IsBalanced,
}
use netsentry_sensor.Collector.Delivery.Ledger.Refinement.{ledger, handlers-Reach}
use netsentry_sensor.Collector.Delivery.Tail.{Tail, flush_batch, events_in, in_order}
use netsentry_sensor.Collector.Delivery.Tail.Opening.{
  Opening, woken_by, tail_from_end, tail_from_end-in_order,
}
use netsentry_sensor.Collector.Delivery.Tail.Reading.{Wake, read_lines}
use netsentry_sensor.Common.Outcome.{ok, err}
use netsentry_sensor.Common.Text.{Text, codes, text_eq, starts_with, strip_prefix}
use netsentry_sensor.Tests.Values.{Value, alert, json}

abbrev parse_time : Text → Option ℕ
parse_time s = none

abbrev seen : TrafficEvent Value
seen = event_of json parse_time (codes "id1") 9 alert (codes "203.0.113.9")

parse_eve_line-alert_example :
    (seen.event_type ≡ codes "alert")
    × (is_empty seen.source_ip ≡ false)
    × (seen.source_port < u16_mod)
    × (seen.dest_port < u16_mod)
    × IsLevel seen.threat_level
unfolding parse_eve_line alert_of is_noise starts_with strip_prefix text_eq codes level_of
parse_eve_line-alert_example =
    parse_eve_line-alert json parse_time (codes "id1") (codes "a") 9 seen refl

-- a cloud that records the events of the batches, and refuses them
abbrev Delivered : Type 0
Delivered = List (TrafficEvent Value)

abbrev cloud : Cloud Value Delivered
cloud = record {
  post_event = λ url key event n. (err (codes "timed out"), n);
  post_batch = λ url key events n. (ok 500, n ++ events);
  print_status = λ s. codes "500";
}

abbrev endpoint : Endpoint
endpoint = record { vps_endpoint = codes "http://cloud"; api_key = codes "k" }

abbrev rates : Rates ℕ
rates = record { quotient = λ a b. a; nothing = 0 }

abbrev tail : Tail Value Delivered ℕ
tail = record { batch = []; metrics = default_metrics rates; network = [] }

-- the second line is cut by a tick
abbrev woken : List Wake
woken =
    Wake.part (codes " ")
    ∷ Wake.line_end (codes "id1") 9 10 (codes "a ")
    ∷ Wake.part (codes "x")
    ∷ Wake.tick 11
    ∷ Wake.line_end (codes "id3") 12 13 (codes "a")
    ∷ Wake.end_of_file (codes "id4") 14 15
    ∷ []

-- the log is missing at first, and opens at the third try
abbrev tries : List Opening
tries = Opening.missing ∷ Opening.missing ∷ Opening.opened woken ∷ []

tail_from_end-in_order_example :
    (in_order
        (λ n. n)
        (tail_from_end json parse_time cloud endpoint tries (default_metrics rates) []).1
      ≡ [] ++ events_in json parse_time (read_lines [] (woken_by tries)))
    × (length
          (tail_from_end json parse_time cloud endpoint tries (default_metrics rates) []).1.batch
        < 50)
tail_from_end-in_order_example =
    tail_from_end-in_order json parse_time cloud endpoint (λ n. n) (λ url key events n. refl) tries
      (default_metrics rates) []

abbrev start : Ledger ℕ
start = ledger (default_metrics rates) []

abbrev busy : Ledger ℕ
busy = ledger (count_received rates 3 5 6 (default_metrics rates)) (3 ∷ [])

Reach-IsBalanced_example : IsBalanced busy
Reach-IsBalanced_example =
    Reach-IsBalanced rates busy
      (Reach.next start busy Reach.start (Step.received 3 5 6 (default_metrics rates) []))

abbrev event : RawLogEvent
event = record {
  id = codes "e1";
  timestamp = 4;
  source_ip = codes "203.0.113.9";
  dest_ip = codes "10.0.0.2";
  source_port = 4000;
  dest_port = 80;
  protocol = codes "TCP";
  payload = codes "x";
  severity = 2;
  event_type = codes "alert";
}

handlers-Reach_example :
    Reach rates start
      (ledger (collect_log json cloud rates endpoint 5 6 event (default_metrics rates) []).1 [])
    × Reach rates start (
        ledger
          (collect_batch_logs json cloud rates endpoint 5 6
            (event ∷ event ∷ [])
            (default_metrics rates)
            []).1
          [])
    × Reach rates start (
        ledger
          (simulate_logs json cloud rates endpoint 6 5 7
            (codes "s1" ∷ codes "s2" ∷ [])
            (default_metrics rates)
            []).1
          [])
    × Reach rates start (ledger (flush_batch cloud endpoint 5 tail).metrics [])
handlers-Reach_example =
    handlers-Reach rates (default_metrics rates) [] json cloud endpoint [] 5 6 7 event
      (event ∷ event ∷ []) (codes "s1" ∷ codes "s2" ∷ []) tail
