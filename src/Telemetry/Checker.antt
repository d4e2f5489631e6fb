-- ===== src/Telemetry/Checker.antt =====
-- telemetry/src/services/mod.rs, `ThresholdChecker`.
use netsentry_sensor.Common.{
  ℕ, ◌+◌, ◌≤◌, ◌≡◌, Bool, true, false, ◌||◌, not, Option, none, some, List, [], ◌∷◌, ◌++◌, All,
  All-append, length, length-append, refl, is_empty, if◌then◌else◌, arith, Bool-cases, inl, inr,
}
use netsentry_sensor.Common.Text.{Text, codes}
use netsentry_sensor.Telemetry.{SystemMetrics, Floats}

pub record ThresholdAlert (F : Type 0) : Type 0 where
  pub device_id : Text
  pub metric : Text
  pub value : F
  pub threshold : F
  pub severity : Text
  pub message : Text
  pub timestamp : ℕ

module _ {F : Type 0} (floats : Floats F) (device_id : Text) (now : ℕ) where
  abbrev pub alert :
      (metric : Text) (value : F) (limit : ℕ) (severity before after : Text) → ThresholdAlert F
  alert metric value limit severity before after = record {
    device_id = device_id;
    metric = metric;
    value = value;
    threshold = floats.literal limit;
    severity = severity;
    message = before ++ floats.print_tenths value ++ after;
    timestamp = now;
  }

  abbrev pub over : F → ℕ → Bool
  over value limit = floats.gt value (floats.literal limit)

  unfoldable pub check_cpu : F → List (ThresholdAlert F)
  check_cpu cpu =
      if over cpu 90
      then alert (codes "cpu_usage_percent") cpu 90 (codes "critical") (codes "CPU usage ")
          (codes "% exceeds critical threshold 90%")
        ∷ []
      else if over cpu 75
      then alert (codes "cpu_usage_percent") cpu 75 (codes "warning") (codes "CPU usage ")
          (codes "% exceeds warning threshold 75%")
        ∷ []
      else []

  unfoldable pub check_memory : F → List (ThresholdAlert F)
  check_memory memory =
      if over memory 85
      then alert (codes "memory_usage_percent") memory 85 (codes "critical") (codes "Memory usage ")
          (codes "% exceeds critical threshold 85%")
        ∷ []
      else []

  unfoldable pub check_disk : F → List (ThresholdAlert F)
  check_disk disk =
      if over disk 90
      then alert (codes "disk_usage_percent") disk 90 (codes "critical") (codes "Disk usage ")
          (codes "% exceeds critical threshold 90%")
        ∷ []
      else []

  unfoldable pub check_temperature : Option F → List (ThresholdAlert F)
  check_temperature none = []
  check_temperature (some temp) =
      if over temp 80
      then alert (codes "temperature_celsius") temp 80 (codes "critical") (codes "CPU temperature ")
          (codes "°C exceeds critical threshold 80°C")
        ∷ []
      else if over temp 70
      then alert (codes "temperature_celsius") temp 70 (codes "warning") (codes "CPU temperature ")
          (codes "°C exceeds warning threshold 70°C")
        ∷ []
      else []

-- The alerts take their time from one reading of the clock here.
unfoldable pub check :
    {F : Type 0} → Floats F → (now : ℕ) → SystemMetrics F → List (ThresholdAlert F)
unfolding check_cpu check_memory check_disk check_temperature
check floats now m =
    check_cpu floats m.device_id now m.cpu_usage_percent
    ++ check_memory floats m.device_id now m.memory_usage_percent
    ++ check_disk floats m.device_id now m.disk_usage_percent
    ++ check_temperature floats m.device_id now m.temperature_celsius

abbrev pub is_hot : {F : Type 0} → Floats F → Option F → Bool
is_hot floats none = false
is_hot floats (some t) = floats.gt t (floats.literal 70)

-- The lowest thresholds of the four metrics.
abbrev pub is_over : {F : Type 0} → Floats F → SystemMetrics F → Bool
is_over floats m =
    floats.gt m.cpu_usage_percent (floats.literal 75)
    || floats.gt m.memory_usage_percent (floats.literal 85)
    || floats.gt m.disk_usage_percent (floats.literal 90)
    || is_hot floats m.temperature_celsius

-- an alert that says what is so
abbrev pub IsTrue : {F : Type 0} → Floats F → Text → ThresholdAlert F → Type 0
IsTrue floats device_id a = (floats.gt a.value a.threshold ≡ true) × (a.device_id ≡ device_id)

-- alerts of which there are some exactly under a condition, and at most `k`
abbrev pub IsReport : {F : Type 0} → Floats F → Text → Bool → ℕ → List (ThresholdAlert F) → Type 0
IsReport floats device_id b k xs =
    (is_empty xs ≡ not b) × (length xs ≤ k) × All (IsTrue floats device_id) xs

module _ {F : Type 0} (floats : Floats F) (device_id : Text) where
  append-IsReport :
      (b c : Bool) (k l : ℕ) (xs ys : List (ThresholdAlert F))
      → IsReport floats device_id b k xs
      → IsReport floats device_id c l ys
      → IsReport floats device_id (b || c) (k + l) (xs ++ ys)
  append-IsReport b c k l [] ys (e, n, h) (e', n', h') =
      (ground (arith, e, e'), omega (arith, n'), h')
  append-IsReport b c k l (x ∷ xs) ys (e, n, (p, h)) (e', n', h') = (
    ground (arith, e),
    omega (arith, n, n', length-append xs ys),
    (p, All-append (IsTrue floats device_id) xs ys h h'),
  )

  -- a metric with one threshold
  one-IsReport :
      (a : ThresholdAlert F)
      → a.device_id ≡ device_id
      → IsReport floats device_id
          (floats.gt a.value a.threshold)
          1
          (if floats.gt a.value a.threshold then a ∷ [] else [])
  one-IsReport a d = elim (Bool-cases (floats.gt a.value a.threshold)) [
    | inl e ↦ rw e (refl, omega arith, ((e, d), tt))
    | inr e ↦ rw e (refl, omega arith, tt)
  ]

  -- a metric with a critical threshold above that of a warning
  two-IsReport :
      (critical warning : ThresholdAlert F)
      → critical.device_id ≡ device_id
      → warning.device_id ≡ device_id
      → (floats.gt critical.value critical.threshold ≡ true
          → floats.gt warning.value warning.threshold ≡ true)
      → IsReport floats device_id (floats.gt warning.value warning.threshold) 1 (
          if floats.gt critical.value critical.threshold
          then critical ∷ []
          else if floats.gt warning.value warning.threshold
          then warning ∷ []
          else [])
  two-IsReport critical warning dc dw up =
      elim (Bool-cases (floats.gt critical.value critical.threshold)) [
        | inl e ↦ rw e (rw (up e) refl, omega arith, ((e, dc), tt))
        | inr e ↦ rw e (one-IsReport warning dw)
      ]

check_temperature-IsReport :
    {F : Type 0} (floats : Floats F) (device_id : Text) (now : ℕ)
    → ((x : F) → floats.gt x (floats.literal 80) ≡ true → floats.gt x (floats.literal 70) ≡ true)
    → (t : Option F)
    → IsReport floats device_id (is_hot floats t) 1 (check_temperature floats device_id now t)
unfolding check_temperature
check_temperature-IsReport floats device_id now up none = (refl, omega arith, tt)
check_temperature-IsReport floats device_id now up (some t) =
    two-IsReport floats device_id _ _ refl refl (up t)

-- Where a number above 90 is above 75 and one above 80 is above 70, there is an alert exactly if one of the
-- metrics is over its lowest threshold; there are four at most, and each is about the device and has a value
-- over its threshold.
pub check-IsTrue :
    {F : Type 0} (floats : Floats F) (now : ℕ) (m : SystemMetrics F)
    → ((x : F) → floats.gt x (floats.literal 90) ≡ true → floats.gt x (floats.literal 75) ≡ true)
    → ((x : F) → floats.gt x (floats.literal 80) ≡ true → floats.gt x (floats.literal 70) ≡ true)
    → (is_empty (check floats now m) ≡ not (is_over floats m))
      × (length (check floats now m) ≤ 4)
      × All (IsTrue floats m.device_id) (check floats now m)
unfolding check check_cpu check_memory check_disk
check-IsTrue floats now m cpu temperature =
    let d = m.device_id in
    let usage =
      append-IsReport floats d _ _ _ _ (check_cpu floats d now m.cpu_usage_percent)
        (check_memory floats d now m.memory_usage_percent)
        (two-IsReport floats d _ _ refl refl (cpu m.cpu_usage_percent))
        (one-IsReport floats d _ refl) in
    append-IsReport floats d _ _ _ _ _ _
      (append-IsReport floats d _ _ _ _ _ (check_disk floats d now m.disk_usage_percent) usage
        (one-IsReport floats d _ refl))
      (check_temperature-IsReport floats d now temperature m.temperature_celsius)
