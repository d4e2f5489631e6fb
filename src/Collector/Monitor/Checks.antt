-- ===== src/Collector/Monitor/Checks.antt =====
-- raspi-collector/src/services/mod.rs, `start_connection_monitoring`: the health checks of the cloud.
use netsentry_sensor.Common.{
  ℕ, ◌+◌, ◌-◌, ◌/◌, ◌≤◌, ◌<◌, ◌≡◌, refl, Bool, true, false, List, [], ◌∷◌, ◌++◌, length, All, arith,
  leb, if◌then◌else◌, add64, u64_mod, inl, inr,
}
use netsentry_sensor.Collector.Commands.{is_success}
use netsentry_sensor.Collector.Monitor.{
  ConnectionMonitor, Floats, update_check, get_status, disconnected,
}
use netsentry_sensor.Collector.Monitor.Reports.{update_check-consecutive}
use netsentry_sensor.Common.Outcome.{Result, ok, err, Result-cases}
use netsentry_sensor.Common.Text.{Text, codes}

-- What one tick sees: the readings of the two clocks and the answer to the request for
-- `{vps_endpoint}/health`.
pub record Tick : Type 0 where
  pub started_at : ℕ
  pub answered_at : ℕ
  pub now : ℕ
  pub answer : Result ℕ Text

abbrev pub succeeded : Tick → Bool
succeeded t = elim (t.answer) [ ok status ↦ is_success status | err _ ↦ false ]

module _ {F : Type 0} (fl : Floats F) where
  -- `elapsed().as_millis() as f64`
  abbrev response_time : Tick → F
  response_time t = fl.of_u64 ((t.answered_at - t.started_at) / 1000000)

  unfoldable pub check_connection : Tick → ConnectionMonitor F → ConnectionMonitor F
  check_connection t m = elim (t.answer) [
    | ok status ↦ update_check t.now (is_success status) (response_time t) m
    | err _ ↦ update_check t.now false (response_time t) m
  ]

  unfoldable pub start_connection_monitoring : List Tick → ConnectionMonitor F → ConnectionMonitor F
  unfolding check_connection
  start_connection_monitoring [] m = m
  start_connection_monitoring (t ∷ ts) m = start_connection_monitoring ts (check_connection t m)

module _ {F : Type 0} (fl : Floats F) where
  check_connection-consecutive :
      (t : Tick) (m : ConnectionMonitor F)
      → (check_connection fl t m).consecutive_failures
        ≡ (if succeeded t then 0 else add64 m.consecutive_failures 1)
  unfolding check_connection
  check_connection-consecutive t m = elim (Result-cases (t.answer)) [
    | inl (status, e) ↦
        ground (arith, e, update_check-consecutive t.now (is_success status) (response_time fl t) m)
    | inr (x, e) ↦ ground (arith, e, update_check-consecutive t.now false (response_time fl t) m)
  ]

  start_connection_monitoring-append :
      (ts us : List Tick) (m : ConnectionMonitor F)
      → start_connection_monitoring fl (ts ++ us) m
        ≡ start_connection_monitoring fl us (start_connection_monitoring fl ts m)
  unfolding start_connection_monitoring
  start_connection_monitoring-append [] us m = refl
  start_connection_monitoring-append (t ∷ ts) us m =
      start_connection_monitoring-append ts us (check_connection fl t m)

  consecutive_failures-counts :
      (fs : List Tick) (m : ConnectionMonitor F)
      → All (λ t. succeeded t ≡ false) fs
      → m.consecutive_failures + length fs < u64_mod
      → (start_connection_monitoring fl fs m).consecutive_failures
        ≡ m.consecutive_failures + length fs
  unfolding start_connection_monitoring
  consecutive_failures-counts [] m h few = omega arith
  consecutive_failures-counts (t ∷ fs) m (failed, h) few =
      let one = check_connection-consecutive t m in
      ground (arith, failed, one, consecutive_failures-counts fs (check_connection fl t m) h)

  -- After any ticks, then one whose check succeeds and then some whose checks fail, fewer than 2 to
  -- the 64 and at least one: the report says "degraded" after one or two failures, and
  -- "disconnected" from the third on.
  pub start_connection_monitoring-failures :
      (before fs : List Tick) (t : Tick) (m : ConnectionMonitor F) (later : ℕ)
      → succeeded t ≡ true
      → All (λ f. succeeded f ≡ false) fs
      → 1 ≤ length fs
      → length fs < u64_mod
      → (get_status fl later (start_connection_monitoring fl (before ++ t ∷ fs) m)).status
        ≡ (if leb 3 (length fs) then disconnected else codes "degraded")
  unfolding get_status start_connection_monitoring
  start_connection_monitoring-failures before fs t m later up failed some' few =
      let m1 = start_connection_monitoring fl before m in
      let m2 = check_connection fl t m1 in
      let parts = start_connection_monitoring-append before (t ∷ fs) m in
      let counted : (start_connection_monitoring fl fs m2).consecutive_failures ≡ length fs =
        ground (
          arith,
          up,
          check_connection-consecutive t m1,
          consecutive_failures-counts fs m2 failed,
        ) in
      rw parts (ground (arith, counted))
