-- ===== src/Collector/Delivery/Ledger/Refinement.antt =====
-- The handlers and the tail take the steps of the ledger.
use netsentry_sensor.Common.{ℕ, ◌≡◌, List, [], length, map, refl}
use mathlib.Core.Path.{subst}
use netsentry_sensor.Collector.Delivery.{
  RawLogEvent, CollectorMetrics, Cloud, Rates, Endpoint, convert_to_traffic_event, send_to_vps,
  send_batch_to_vps, count_collected, count_received, count_outcome,
}
use netsentry_sensor.Collector.Delivery.Handlers.{
  collect_log, collect_events, collect_batch_logs, simulate_logs, simulated_events,
}
use netsentry_sensor.Collector.Delivery.Ledger.{Ledger, Step, Reach}
use netsentry_sensor.Collector.Delivery.Tail.{Tail, flush_batch}
use netsentry_sensor.Collector.Json.{Json}
use netsentry_sensor.Common.Outcome.{Result, ok, err}
use netsentry_sensor.Common.Text.{Text}

abbrev pub erased : {A : Type 0} → Result A Text → Result (Unit {0}) Text
erased (ok _) = ok tt
erased (err e) = err e

count_outcome-erased :
    {F A : Type 0} (k : ℕ) (r : Result A Text) (m : CollectorMetrics F)
    → count_outcome k (erased r) m ≡ count_outcome k r m
unfolding count_outcome
count_outcome-erased k (ok a) m = refl
count_outcome-erased k (err e) m = refl

abbrev pub ledger : {F : Type 0} → CollectorMetrics F → List ℕ → Ledger F
ledger m sizes = record { metrics = m; in_flight = sizes }

module _ {F : Type 0} (rates : Rates F) (m : CollectorMetrics F) (sizes : List ℕ) where
  receive_and_settle :
      (k at now : ℕ) (r : Result (Unit {0}) Text)
      → Reach rates
          (ledger m sizes)
          (ledger (count_outcome k r (count_received rates k at now m)) sizes)
  receive_and_settle k at now r =
      Reach.next _ _ (Reach.next _ _ Reach.start (Step.received k at now m sizes))
        (Step.settled k r (count_received rates k at now m) [] sizes)

  module _ {V N : Type 0} (json : Json V) (cloud : Cloud V N) (e : Endpoint) (n : N) where
    -- Each of the handlers and the flush of a batch takes the metrics along steps of the ledger, and
    -- leaves as many events on their way as there were.
    pub handlers-Reach :
        (at now later : ℕ) (event : RawLogEvent) (events : List RawLogEvent) (ids : List Text)
        (s : Tail V N F)
        → Reach rates
            (ledger m sizes)
            (ledger (collect_log json cloud rates e at now event m n).1 sizes)
          × Reach rates
              (ledger m sizes)
              (ledger (collect_batch_logs json cloud rates e at now events m n).1 sizes)
          × Reach rates
              (ledger m sizes)
              (ledger (simulate_logs json cloud rates e now at later ids m n).1 sizes)
          × Reach rates (ledger s.metrics sizes) (ledger (flush_batch cloud e at s).metrics sizes)
    unfolding collect_log collect_batch_logs simulate_logs collect_events flush_batch
    handlers-Reach at now later event events ids s =
        let sent = send_to_vps cloud json e (convert_to_traffic_event json event) n in
        let simulated = simulated_events now 0 ids in
        (
          subst (λ x. Reach rates (ledger m sizes) (ledger x sizes))
              (count_outcome-erased 1 sent.0 (count_received rates 1 at now m))
              (receive_and_settle 1 at now (erased sent.0)),
          receive_and_settle (length events) at now
              (send_batch_to_vps cloud e (map (convert_to_traffic_event json) events) n).0,
          receive_and_settle (length simulated) at later
              (send_batch_to_vps cloud e (map (convert_to_traffic_event json) simulated) n).0,
          Reach.next _ _
              (Reach.next _ _ Reach.start (Step.collected (length s.batch) at s.metrics sizes))
              (Step.settled (length s.batch) (send_batch_to_vps cloud e s.batch s.network).0
                (count_collected (length s.batch) at s.metrics) [] sizes),
        )
