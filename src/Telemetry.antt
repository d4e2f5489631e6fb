-- ===== src/Telemetry.antt =====
-- src/services/edge/telemetry/src: what is measured, the alerts on it, and a round of the collection.
-- `F` is the type of floating-point numbers.
pub mod Checker
pub mod Rounds
pub mod Service
use netsentry_sensor.Common.{
  ℕ, ◌+◌, ◌-◌, ◌%◌, Bool, true, false, ◌||◌, Option, none, some, List, [], ◌∷◌, ◌++◌, ltb, is_some,
  if◌then◌else◌, ◌>>=◌, add64, u64_mod,
}
use netsentry_sensor.Common.Text.{Text, codes, text_eq, contains}

pub record SystemMetrics (F : Type 0) : Type 0 where
  pub device_id : Text
  pub cpu_usage_percent : F
  pub memory_usage_percent : F
  pub memory_used_mb : F
  pub memory_total_mb : F
  pub disk_usage_percent : F
  pub disk_used_gb : F
  pub disk_total_gb : F
  pub network_rx_bytes : ℕ
  pub network_tx_bytes : ℕ
  pub temperature_celsius : Option F
  pub uptime_seconds : ℕ
  pub load_average_1m : F
  pub timestamp : ℕ

-- Floating-point numbers: `percent a b` is `a as f64 / b as f64 * 100.0`, `mebibytes` and `gibibytes` divide
-- by powers of 1024.0, `literal n` is `n.0`, `gt` is `>`, and `print_tenths` the format `{:.1}`.
pub record Floats (F : Type 0) : Type 0 where
  pub percent : ℕ → ℕ → F
  pub mebibytes : ℕ → F
  pub gibibytes : ℕ → F
  pub literal : ℕ → F
  pub gt : F → F → Bool
  pub print_tenths : F → Text

pub record Disk : Type 0 where
  pub total_space : ℕ
  pub available_space : ℕ

pub record Network : Type 0 where
  pub name : Text
  pub total_received : ℕ
  pub total_transmitted : ℕ

pub record Component (F : Type 0) : Type 0 where
  pub label : Text
  pub temperature : Option F

-- What `sysinfo` reads after a refresh.
pub record Readings (F : Type 0) : Type 0 where
  pub global_cpu_usage : F
  pub total_memory : ℕ
  pub used_memory : ℕ
  pub disks : List Disk
  pub networks : List Network
  pub components : List (Component F)
  pub uptime : ℕ
  pub load_one : F

-- `a - b` of type `u64` in a release build
abbrev pub sub64 : ℕ → ℕ → ℕ
sub64 a b = (a + (u64_mod - b % u64_mod)) % u64_mod

-- the used and the total bytes of all mounts, added to those before
unfoldable pub sum_disks : List Disk → (used total : ℕ) → ℕ × ℕ
sum_disks [] used total = (used, total)
sum_disks (d ∷ ds) used total =
    sum_disks ds (add64 used (sub64 d.total_space d.available_space)) (add64 total d.total_space)

-- the received and the sent bytes of all interfaces but the loopback
unfoldable pub sum_networks : List Network → (rx tx : ℕ) → ℕ × ℕ
sum_networks [] rx tx = (rx, tx)
sum_networks (n ∷ ns) rx tx =
    if text_eq n.name (codes "lo")
    then sum_networks ns rx tx
    else sum_networks ns (add64 rx n.total_received) (add64 tx n.total_transmitted)

module _ {F : Type 0} (floats : Floats F) (lower : Text → Text) where
  abbrev pub is_cpu : Component F → Bool
  is_cpu c =
      let label = lower c.label in
      contains label (codes "cpu")
      || contains label (codes "core")
      || contains label (codes "thermal")

  -- the temperature of the first component that is one of the processor, where it has one
  unfoldable pub cpu_temperature : List (Component F) → Option F
  cpu_temperature [] = none
  cpu_temperature (c ∷ cs) =
      let rest = cpu_temperature cs in if is_cpu c then c.temperature else rest

  abbrev pub usage : (used total : ℕ) → F
  usage used total = if ltb 0 total then floats.percent used total else floats.literal 0

  -- `lower` is `str::to_lowercase`.
  unfoldable pub collect : (device_id : Text) (now : ℕ) → Readings F → SystemMetrics F
  unfolding sum_disks sum_networks cpu_temperature
  collect device_id now r =
      let disk = sum_disks r.disks 0 0 in
      let network = sum_networks r.networks 0 0 in
      record {
        device_id = device_id;
        cpu_usage_percent = r.global_cpu_usage;
        memory_usage_percent = usage r.used_memory r.total_memory;
        memory_used_mb = floats.mebibytes r.used_memory;
        memory_total_mb = floats.mebibytes r.total_memory;
        disk_usage_percent = usage disk.0 disk.1;
        disk_used_gb = floats.gibibytes disk.0;
        disk_total_gb = floats.gibibytes disk.1;
        network_rx_bytes = network.0;
        network_tx_bytes = network.1;
        temperature_celsius = cpu_temperature r.components;
        uptime_seconds = r.uptime;
        load_average_1m = r.load_one;
        timestamp = now;
      }
