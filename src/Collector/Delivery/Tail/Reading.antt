-- ===== src/Collector/Delivery/Tail/Reading.antt =====
-- raspi-collector/src/services/mod.rs, the loop of `tail_eve_json` from the bytes of the log on. The
-- reading of a line stands in a `select!` beside the tick, with a buffer of its own: where the tick comes
-- first, what was read of the line is dropped with the buffer.
use netsentry_sensor.Common.{ℕ, Option, List, [], ◌∷◌, ◌++◌, is_empty, if◌then◌else◌}
use netsentry_sensor.Collector.Delivery.{Cloud, Endpoint}
use netsentry_sensor.Collector.Delivery.Tail.{TailEvent, Tail, tail_events}
use netsentry_sensor.Collector.Json.{Json}
use netsentry_sensor.Common.Text.{Text}

-- What happens while the loop waits: `part` is read without the end of its line, `line_end` up to it,
-- the file is at its end, reading fails, or the tick comes. For `id`, `now` and `at` see `TailEvent`.
pub data Wake : Type 0 where
  part : (bytes : Text) → Wake
  line_end : (id : Text) (now at : ℕ) (bytes : Text) → Wake
  end_of_file : (id : Text) (now at : ℕ) → Wake
  failed : Wake
  tick : (at : ℕ) → Wake

-- What `read_line` returns, with `buffer` as what it has read. At the end of the file it returns what it
-- has, if it has something.
unfoldable pub read_lines : (buffer : Text) → List Wake → List TailEvent
read_lines buffer [] = []
read_lines buffer (Wake.part bytes ∷ ws) = read_lines (buffer ++ bytes) ws
read_lines buffer (Wake.line_end id now at bytes ∷ ws) =
    TailEvent.line id now at (buffer ++ bytes) ∷ read_lines [] ws
read_lines buffer (Wake.end_of_file id now at ∷ ws) =
    (if is_empty buffer then TailEvent.idle else TailEvent.line id now at buffer) ∷ read_lines [] ws
read_lines buffer (Wake.failed ∷ ws) = TailEvent.idle ∷ read_lines [] ws
read_lines buffer (Wake.tick at ∷ ws) = TailEvent.tick at ∷ read_lines [] ws

module _ {V N F : Type 0} (json : Json V) (parse_time : Text → Option ℕ) (cloud : Cloud V N)
    (e : Endpoint) where
  unfoldable pub tail_eve_json : List Wake → Tail V N F → Tail V N F
  unfolding read_lines
  tail_eve_json ws s = tail_events json parse_time cloud e (read_lines [] ws) s
