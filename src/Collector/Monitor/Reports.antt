-- ===== src/Collector/Monitor/Reports.antt =====
-- What the monitor reports after checks.
use netsentry_sensor.Common.{
  ℕ, ◌+◌, ◌≤◌, ◌<◌, ◌^◌, ◌≡◌, Bool, true, false, some, List, arith, length, last?, last?-append,
  pop_front, leb, if◌then◌else◌, add64, u64_max, nanos_per_sec,
}
use netsentry_sensor.Common.Text.{codes, text_eq, text_eq_iff}
use netsentry_sensor.Collector.Monitor.{
  Floats, ConnectionMonitor, connected, disconnected, push_response, close_downtime, close_uptime,
  update_check, get_status,
}
use netsentry_sensor.Collector.Monitor.Consistent.{
  IsConsistent, update_check-responses, update_check-IsConsistent,
}

last?-push_response : {A : Type 0} (x : A) (xs : List A) → last? (push_response x xs) ≡ some x
unfolding push_response
last?-push_response x xs = last?-append (if leb 100 (length xs) then pop_front xs else xs) x

module _ {F : Type 0} (now : ℕ) (success : Bool) (t : F) (m : ConnectionMonitor F) where
  pub update_check-consecutive :
      (update_check now success t m).consecutive_failures
      ≡ (if success then 0 else add64 m.consecutive_failures 1)
  unfolding update_check close_downtime close_uptime
  update_check-consecutive = ground arith

  -- Whatever the clock does, a check never lowers the longest uptime and never raises the shortest
  -- downtime.
  pub update_check_records :
      (m.longest_uptime ≤ (update_check now success t m).longest_uptime)
      × ((update_check now success t m).shortest_downtime ≤ m.shortest_downtime)
  unfolding update_check close_downtime close_uptime
  update_check_records = (ground arith, ground arith)

-- On a consistent monitor whose count of failures in a row does not overflow: after a check that
-- succeeded within a second the report says "connected"; after one that succeeded more slowly,
-- "degraded"; after a failure, "degraded", and "disconnected" from the third failure in a row on.
pub get_status-update_check :
    {F : Type 0} (fl : Floats F) (now later : ℕ) (success : Bool) (t : F) (m : ConnectionMonitor F)
    → IsConsistent m
    → m.consecutive_failures < u64_max
    → (get_status fl later (update_check now success t m)).status ≡ (
        if success
        then (if fl.exceeds t (fl.of_u64 1000) then codes "degraded" else connected)
        else (if leb 2 m.consecutive_failures then disconnected else codes "degraded"))
unfolding get_status
get_status-update_check fl now later true t m h few =
    let up = (update_check-IsConsistent now true t m h).1 in
    ground (
      arith,
      update_check-responses now true t m,
      last?-push_response t m.response_times,
      update_check-consecutive now true t m,
      text_eq_iff (update_check now true t m).current_status connected,
    )
get_status-update_check fl now later false t m h few = ground (
  arith,
  update_check-responses now false t m,
  last?-push_response t m.response_times,
  update_check-consecutive now false t m,
)

-- If the clock of a connected monitor is set back to one second or more before the start of the
-- current uptime, itself below 2^63 nanoseconds, a successful check leaves a longest uptime of at
-- least 2^63 seconds.
pub update_check-clock_back :
    {F : Type 0} (now start : ℕ) (t : F) (m : ConnectionMonitor F)
    → text_eq m.current_status connected ≡ true
    → m.current_uptime_start ≡ some start
    → now + nanos_per_sec ≤ start
    → start < 2 ^ 63
    → 2 ^ 63 ≤ (update_check now true t m).longest_uptime
unfolding update_check
update_check-clock_back now start t m up began back range = ground arith
