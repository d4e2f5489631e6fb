-- ===== src/Collector/Monitor.antt =====
-- raspi-collector/src/models/mod.rs: `ConnectionMonitor`. Times are `DateTime<Utc>` in nanoseconds
-- since 1970; the wall clock may be set back between two readings.
pub mod Consistent
pub mod Reports
pub mod Checks
use netsentry_sensor.Common.{
  ℕ, ◌+◌, ◌-◌, ◌/◌, ◌%◌, ◌≡◌, Bool, true, false, not, ◌&&◌, ◌||◌, Option, none, some, List, [], ◌∷◌,
  ◌++◌, length, pop_front, last?, is_empty, ltb, leb, ◌==◌, if◌then◌else◌, unwrap_or, add64,
  u64_max, u64_mod, seconds_between, nanos_per_sec,
}
use netsentry_sensor.Common.Text.{Text, codes, text_eq}

-- The operations on floating-point numbers that are used.
pub record Floats (F : Type 0) : Type 0 where
  pub of_u64 : ℕ → F
  pub plus : F → F → F
  pub times : F → F → F
  pub over : F → F → F
  pub least : F → F → F
  pub exceeds : F → F → Bool

abbrev pub connected : Text
connected = codes "connected"

abbrev pub disconnected : Text
disconnected = codes "disconnected"

pub record ConnectionMonitor (F : Type 0) : Type 0 where
  pub current_status : Text
  pub start_time : ℕ
  pub last_connected : Option ℕ
  pub last_disconnected : Option ℕ
  pub total_uptime : ℕ
  pub total_downtime : ℕ
  pub total_checks : ℕ
  pub successful_checks : ℕ
  pub failed_checks : ℕ
  pub response_times : List F
  pub consecutive_failures : ℕ
  pub longest_uptime : ℕ
  pub shortest_downtime : ℕ
  pub current_uptime_start : Option ℕ
  pub current_downtime_start : Option ℕ

pub record ConnectionStatus (F : Type 0) : Type 0 where
  pub status : Text
  pub uptime_duration : ℕ
  pub uptime_percentage : F
  pub last_connected : Option ℕ
  pub last_disconnected : Option ℕ
  pub total_checks : ℕ
  pub successful_checks : ℕ
  pub failed_checks : ℕ
  pub average_response_time : F
  pub response_time_last_check : F
  pub consecutive_failures : ℕ
  pub longest_uptime : ℕ
  pub shortest_downtime : ℕ

-- `start` and `down` are the two readings of the clock.
unfoldable pub default_monitor : {F : Type 0} (start down : ℕ) → ConnectionMonitor F
default_monitor start down = record {
  current_status = disconnected;
  start_time = start;
  last_connected = none;
  last_disconnected = none;
  total_uptime = 0;
  total_downtime = 0;
  total_checks = 0;
  successful_checks = 0;
  failed_checks = 0;
  response_times = [];
  consecutive_failures = 0;
  longest_uptime = 0;
  shortest_downtime = u64_max;
  current_uptime_start = none;
  current_downtime_start = some down;
}

-- at most a hundred response times are kept
unfoldable pub push_response {ℓ} : {A : Type ℓ} → A → List A → List A
push_response x xs = (if leb 100 (length xs) then pop_front xs else xs) ++ x ∷ []

module _ {F : Type 0} where
  -- the end of a downtime
  unfoldable pub close_downtime : ℕ → Option ℕ → ConnectionMonitor F → ConnectionMonitor F
  close_downtime now none m = m
  close_downtime now (some start) m =
      let duration = seconds_between now start in
      record m {
        total_downtime = add64 m.total_downtime duration;
        shortest_downtime =
            if ltb duration m.shortest_downtime then duration else m.shortest_downtime;
        current_downtime_start = none;
      }

  unfoldable pub close_uptime : ℕ → Option ℕ → ConnectionMonitor F → ConnectionMonitor F
  close_uptime now none m = m
  close_uptime now (some start) m =
      let duration = seconds_between now start in
      record m {
        total_uptime = add64 m.total_uptime duration;
        longest_uptime = if ltb m.longest_uptime duration then duration else m.longest_uptime;
        current_uptime_start = none;
      }

  unfoldable pub note_success : ℕ → ConnectionMonitor F → ConnectionMonitor F
  note_success now m =
      let m1 : ConnectionMonitor F = record m {
        successful_checks = add64 m.successful_checks 1;
        consecutive_failures = 0;
      } in
      if text_eq m.current_status connected
      then m1
      else record (close_downtime now m.current_downtime_start m1) {
        current_status = connected;
        last_connected = some now;
        current_uptime_start = some now;
      }

  unfoldable pub note_failure : ℕ → ConnectionMonitor F → ConnectionMonitor F
  note_failure now m =
      let m1 : ConnectionMonitor F = record m {
        failed_checks = add64 m.failed_checks 1;
        consecutive_failures = add64 m.consecutive_failures 1;
      } in
      if text_eq m.current_status disconnected
      then m1
      else record (close_uptime now m.current_uptime_start m1) {
        current_status = disconnected;
        last_disconnected = some now;
        current_downtime_start = some now;
      }

  -- the last two parts of `update_check`
  unfoldable pub stretch_uptime : ℕ → Option ℕ → ConnectionMonitor F → ConnectionMonitor F
  stretch_uptime now none m = m
  stretch_uptime now (some start) m =
      let uptime = seconds_between now start in
      if ltb m.longest_uptime uptime then record m { longest_uptime = uptime } else m

  unfoldable pub shrink_downtime : ℕ → Option ℕ → ConnectionMonitor F → ConnectionMonitor F
  shrink_downtime now none m = m
  shrink_downtime now (some start) m =
      let downtime = seconds_between now start in
      if ltb downtime m.shortest_downtime && ltb 0 downtime
      then record m { shortest_downtime = downtime }
      else m

  unfoldable pub finish_check : ℕ → ConnectionMonitor F → ConnectionMonitor F
  unfolding stretch_uptime shrink_downtime
  finish_check now m =
      let m1 : ConnectionMonitor F = stretch_uptime now m.current_uptime_start m in
      shrink_downtime now m1.current_downtime_start m1

  unfoldable pub update_check : ℕ → Bool → F → ConnectionMonitor F → ConnectionMonitor F
  unfolding note_success note_failure finish_check
  update_check now success response_time m =
      let m1 : ConnectionMonitor F = record m {
        total_checks = add64 m.total_checks 1;
        response_times = push_response response_time m.response_times;
      } in
      finish_check now (if success then note_success now m1 else note_failure now m1)

abbrev uptime_since : ℕ → Option ℕ → ℕ
uptime_since now none = 0
uptime_since now (some start) = seconds_between now start

-- `(now - start).num_seconds().max(0) as u64`
abbrev session_since : ℕ → Option ℕ → ℕ
session_since now none = 0
session_since now (some start) = (now - start) / nanos_per_sec % u64_mod

module _ {F : Type 0} (fl : Floats F) where
  -- the loop of `iter().sum()`
  sum_from : F → List F → F
  sum_from acc [] = acc
  sum_from acc (x ∷ xs) = sum_from (fl.plus acc x) xs

  abbrev average : List F → F
  average xs =
      if is_empty xs
      then fl.of_u64 0
      else fl.over (sum_from (fl.of_u64 0) xs) (fl.of_u64 (length xs))

  abbrev percentage : (total_time uptime : ℕ) → F
  percentage total_time uptime =
      if ltb 0 total_time
      then fl.least (fl.times (fl.over (fl.of_u64 uptime) (fl.of_u64 total_time)) (fl.of_u64 100))
          (fl.of_u64 100)
      else fl.of_u64 0

  unfoldable pub status_text : (last_response : F) → ConnectionMonitor F → Text
  status_text last_response m =
      if leb 3 m.consecutive_failures
      then disconnected
      else if leb 1 m.consecutive_failures || fl.exceeds last_response (fl.of_u64 1000)
      then codes "degraded"
      else m.current_status

  unfoldable pub get_status : ℕ → ConnectionMonitor F → ConnectionStatus F
  unfolding sum_from status_text
  get_status now m =
      let last_response = unwrap_or (last? m.response_times) (fl.of_u64 0) in
      record {
        status = status_text last_response m;
        uptime_duration = uptime_since now m.current_uptime_start;
        uptime_percentage =
            percentage (seconds_between now m.start_time)
              (add64 m.total_uptime (session_since now m.current_uptime_start));
        last_connected = m.last_connected;
        last_disconnected = m.last_disconnected;
        total_checks = m.total_checks;
        successful_checks = m.successful_checks;
        failed_checks = m.failed_checks;
        average_response_time = average m.response_times;
        response_time_last_check = last_response;
        consecutive_failures = m.consecutive_failures;
        longest_uptime = m.longest_uptime;
        shortest_downtime = if m.shortest_downtime == u64_max then 0 else m.shortest_downtime;
      }
