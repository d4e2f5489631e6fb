-- ===== src/Shared/Utils.antt =====
-- src/shared/utils/src/lib.rs: retries with backoff, and durations printed. Durations are in nanoseconds.
pub mod Retries
pub mod Networks
use netsentry_sensor.Common.{
  ℕ, zero, suc, ◌+◌, ◌-◌, ◌*◌, ◌/◌, ◌%◌, Bool, true, false, Option, none, some, List, [], ◌∷◌, ◌++◌,
  leb, ltb, if◌then◌else◌, nanos_per_sec, u64_mod,
}
use netsentry_sensor.Common.Outcome.{Result, ok, err}
use netsentry_sensor.Common.Text.{Text, codes, print_uint}

-- `Duration::MAX`
abbrev pub duration_max : ℕ
duration_max = u64_mod * nanos_per_sec - 1

-- `std::cmp::min`
abbrev pub lesser : ℕ → ℕ → ℕ
lesser a b = if leb a b then a else b

-- What a loop of retries comes to: a result with the state of the operation and the bounds in
-- milliseconds of the waits before it, a panic, or more rounds than the fuel has.
pub data Retried (T E S : Type 0) : Type 0 where
  returned : Result T E → S → (waits : List ℕ) → Retried T E S
  panicked : Retried T E S
  unfinished : Retried T E S

abbrev pub waited : {T E S : Type 0} → ℕ → Retried T E S → Retried T E S
waited w (Retried.returned r s waits) = Retried.returned r s (w ∷ waits)
waited w Retried.panicked = Retried.panicked
waited w Retried.unfinished = Retried.unfinished

module _ {T E S : Type 0} (operation : S → Result T E × S) (max_attempts max_delay : ℕ) where
  -- The rounds of the loop, from one after `attempt` rounds on; `delay * 2` panics out of range.
  unfoldable pub rounds : (fuel attempt delay : ℕ) → S → Retried T E S
  rounds zero attempt delay s = Retried.unfinished
  rounds (suc fuel) attempt delay s =
      let rest = rounds fuel (attempt + 1) (lesser (delay * 2) max_delay) (operation s).1 in
      elim ((operation s).0) [
        | ok t ↦ Retried.returned (ok t) (operation s).1 []
        | err e ↦
            if leb max_attempts (attempt + 1)
            then Retried.returned (err e) (operation s).1 []
            else if leb (delay * 2) duration_max
            then waited (delay / 1000000 % u64_mod) rest
            else Retried.panicked
      ]

  -- The number of attempts is a `u8`, so that 256 rounds are enough.
  unfoldable pub retry_with_backoff : (base_delay : ℕ) → S → Retried T E S
  unfolding rounds
  retry_with_backoff base_delay s = rounds 256 0 base_delay s

-- the hours, the minutes and the seconds that a duration is printed with
unfoldable pub parts_of : (total_seconds : ℕ) → ℕ × ℕ × ℕ
parts_of total_seconds = (total_seconds / 3600, total_seconds % 3600 / 60, total_seconds % 60)

unfoldable pub format_duration : (duration : ℕ) → Text
unfolding parts_of
format_duration duration =
    let (hours, minutes, seconds) = parts_of (duration / nanos_per_sec) in
    if ltb 0 hours
    then print_uint hours
      ++ codes "h "
      ++ print_uint minutes
      ++ codes "m "
      ++ print_uint seconds
      ++ codes "s"
    else if ltb 0 minutes
    then print_uint minutes ++ codes "m " ++ print_uint seconds ++ codes "s"
    else print_uint seconds ++ codes "s"
