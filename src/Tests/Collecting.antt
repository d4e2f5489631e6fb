-- ===== src/Tests/Collecting.antt =====
-- The collector at concrete inputs. Floating-point numbers are whole numbers here.
use netsentry_sensor.Common.{
  ℕ, ◌+◌, ◌*◌, ◌/◌, ◌≡◌, refl, true, false, [], ◌∷◌, ◌++◌, arith, leb, ltb, if◌then◌else◌,
}
use netsentry_sensor.Collector.Monitor.{
  Floats, ConnectionMonitor, disconnected, default_monitor, get_status,
}
use netsentry_sensor.Collector.Monitor.Consistent.{
  IsConsistent, run_checks, run_checks-IsConsistent,
}
use netsentry_sensor.Collector.Monitor.Checks.{
  Tick, start_connection_monitoring, start_connection_monitoring-failures,
}
use netsentry_sensor.Common.Outcome.{ok, err}
use netsentry_sensor.Common.Text.{codes}

abbrev floats : Floats ℕ
floats = record {
  of_u64 = λ n. n;
  plus = λ a b. a + b;
  times = λ a b. a * b;
  over = λ a b. a / b;
  least = λ a b. if leb a b then a else b;
  exceeds = λ a b. ltb b a;
}

abbrev fresh : ConnectionMonitor ℕ
fresh = default_monitor 100 101

run_checks-IsConsistent_example :
    IsConsistent (run_checks ((200, true, 30) ∷ (150, false, 40) ∷ []) fresh)
run_checks-IsConsistent_example =
    run_checks-IsConsistent ((200, true, 30) ∷ (150, false, 40) ∷ []) 100 101

abbrev answered : ℕ → Tick
answered status = record { started_at = 100; answered_at = 5000100; now = 200; answer = ok status }

abbrev lost : Tick
lost = record { started_at = 100; answered_at = 5000100; now = 200; answer = err (codes "timeout") }

start_connection_monitoring-failures_example :
    (get_status floats 300 (
      start_connection_monitoring floats
        ((lost ∷ []) ++ answered 200 ∷ answered 503 ∷ lost ∷ lost ∷ [])
        fresh)).status
    ≡ (if leb 3 3 then disconnected else codes "degraded")
start_connection_monitoring-failures_example =
    start_connection_monitoring-failures floats (lost ∷ []) (answered 503 ∷ lost ∷ lost ∷ [])
      (answered 200) fresh 300 refl (refl, (refl, (refl, tt))) (omega arith) (omega arith)
