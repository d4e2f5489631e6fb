-- ===== src/Collector/Delivery/Ledger.antt =====
-- The counts of the collector under handlers that run at the same time: each takes the lock once to count
-- its events as collected and once more to count the outcome, and others may come in between.
pub mod Refinement
use netsentry_sensor.Common.{
  ℕ, ◌+◌, ◌%◌, ◌<◌, ◌≡◌, List, [], ◌∷◌, ◌++◌, arith, refl, u64_mod, nanos_per_sec, none,
}
use netsentry_sensor.Collector.Delivery.{
  CollectorMetrics, Rates, count_collected, count_received, count_outcome,
  calculate_collection_rate,
}
use netsentry_sensor.Common.Outcome.{Result, ok, err}
use netsentry_sensor.Common.Text.{Text}

-- The metrics, and the sizes of what is collected and has no outcome yet.
pub record Ledger (F : Type 0) : Type 0 where
  pub metrics : CollectorMetrics F
  pub in_flight : List ℕ

-- What happens under one lock: a handler receives `k` events, the tail collects `k` for a batch, or the
-- outcome of one of the sends comes in.
pub data Step {F : Type 0} (rates : Rates F) : Ledger F → Ledger F → Type 0 where
  received :
      (k at now : ℕ) (m : CollectorMetrics F) (sizes : List ℕ)
      → Step rates
          (record { metrics = m; in_flight = sizes })
          (record { metrics = count_received rates k at now m; in_flight = k ∷ sizes })
  collected :
      (k at : ℕ) (m : CollectorMetrics F) (sizes : List ℕ)
      → Step rates
          (record { metrics = m; in_flight = sizes })
          (record { metrics = count_collected k at m; in_flight = k ∷ sizes })
  settled :
      (k : ℕ) (r : Result (Unit {0}) Text) (m : CollectorMetrics F) (before after : List ℕ)
      → Step rates
          (record { metrics = m; in_flight = before ++ k ∷ after })
          (record { metrics = count_outcome k r m; in_flight = before ++ after })

pub data Reach {F : Type 0} (rates : Rates F) (s : Ledger F) : Ledger F → Type 0 where
  start : Reach rates s s
  next : (t u : Ledger F) → Reach rates s t → Step rates t u → Reach rates s u

unfoldable pub sum : List ℕ → ℕ
sum [] = 0
sum (k ∷ ks) = k + sum ks

sum-append : (xs ys : List ℕ) → sum (xs ++ ys) ≡ sum xs + sum ys
unfolding sum
sum-append [] ys = omega arith
sum-append (x ∷ xs) ys = omega (arith, sum-append xs ys)

-- `CollectorMetrics::default`
unfoldable pub default_metrics : {F : Type 0} → Rates F → CollectorMetrics F
default_metrics rates = record {
  events_collected = 0;
  events_sent = 0;
  last_collection = none;
  collection_rate = rates.nothing;
  failed_sends = 0;
}

-- Everything that is collected is sent, failed or on its way.
abbrev pub IsBalanced : {F : Type 0} → Ledger F → Type 0
IsBalanced s =
    s.metrics.events_collected
    ≡ (s.metrics.events_sent + s.metrics.failed_sends + sum s.in_flight) % u64_mod

module _ {F : Type 0} (rates : Rates F) where
  Step-IsBalanced : (s t : Ledger F) → Step rates s t → IsBalanced s → IsBalanced t
  unfolding sum count_received count_outcome
  Step-IsBalanced _ _ (Step.received k at now m sizes) h = ground (arith, h)
  Step-IsBalanced _ _ (Step.collected k at m sizes) h = ground (arith, h)
  Step-IsBalanced _ _ (Step.settled k (ok u) m before after) h =
      ground (arith, h, sum-append before (k ∷ after), sum-append before after)
  Step-IsBalanced _ _ (Step.settled k (err e) m before after) h =
      ground (arith, h, sum-append before (k ∷ after), sum-append before after)

  -- From fresh metrics, however the handlers interleave, the events collected are those sent,
  -- those that failed and those on their way, modulo 2^64.
  pub Reach-IsBalanced :
      (t : Ledger F)
      → Reach rates (record { metrics = default_metrics rates; in_flight = [] }) t
      → IsBalanced t
  unfolding default_metrics sum
  Reach-IsBalanced _ Reach.start = refl
  Reach-IsBalanced _ (Reach.next t u before step) =
      Step-IsBalanced t u step (Reach-IsBalanced t before)

  -- Where the two readings of the clock under the lock lie within one second, the rate that is kept is
  -- that of no events, whatever was collected.
  pub count_received-rate :
      (k at now : ℕ) (m : CollectorMetrics F)
      → now < at + nanos_per_sec
      → (count_received rates k at now m).collection_rate ≡ rates.nothing
  unfolding count_received calculate_collection_rate
  count_received-rate k at now m h = ground arith
