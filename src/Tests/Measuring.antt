-- ===== src/Tests/Measuring.antt =====
-- The telemetry at concrete inputs.
use netsentry_sensor.Common.{
  ℕ, ◌≤◌, ◌≡◌, true, not, some, [], ◌∷◌, All, length, arith, ltb, is_empty,
}
use netsentry_sensor.Common.Text.{codes}
use netsentry_sensor.Telemetry.{SystemMetrics, Floats, Readings, collect}
use netsentry_sensor.Telemetry.Checker.{check, is_over, IsTrue, check-IsTrue}

-- whole numbers in place of floating-point numbers
abbrev floats : Floats ℕ
floats = record {
  percent = λ a b. a;
  mebibytes = λ a. a;
  gibibytes = λ a. a;
  literal = λ n. n;
  gt = λ a b. ltb b a;
  print_tenths = λ a. codes "x";
}

abbrev readings : Readings ℕ
readings = record {
  global_cpu_usage = 80;
  total_memory = 0;
  used_memory = 0;
  disks = [];
  networks = [];
  components = record { label = codes "cpu"; temperature = some 85 } ∷ [];
  uptime = 5;
  load_one = 1;
}

abbrev metrics : SystemMetrics ℕ
metrics = collect floats (λ s. s) (codes "pi") 7 readings

above : (x : ℕ) → ltb 90 x ≡ true → ltb 75 x ≡ true
above x h = ground (arith, h)

hot : (x : ℕ) → ltb 80 x ≡ true → ltb 70 x ≡ true
hot x h = ground (arith, h)

check-IsTrue_example :
    (is_empty (check floats 8 metrics) ≡ not (is_over floats metrics))
    × (length (check floats 8 metrics) ≤ 4)
    × All (IsTrue floats metrics.device_id) (check floats 8 metrics)
check-IsTrue_example = check-IsTrue floats 8 metrics above hot
