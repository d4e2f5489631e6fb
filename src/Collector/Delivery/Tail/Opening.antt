-- ===== src/Collector/Delivery/Tail/Opening.antt =====
-- raspi-collector/src/services/mod.rs, `tail_eve_json` from its start: the file is tried every ten
-- seconds until it opens, and read from its end on.
use netsentry_sensor.Common.{
  ℕ, ◌<◌, ◌≡◌, Bool, true, false, Option, List, [], ◌∷◌, ◌++◌, length, arith, ◌∙◌, ap, refl,
}
use mathlib.Core.List.{append-nil}
use netsentry_sensor.Collector.Delivery.{TrafficEvent, CollectorMetrics, Cloud, Endpoint}
use netsentry_sensor.Collector.Delivery.Tail.{Tail, events_in, in_order, tail_events-in_order}
use netsentry_sensor.Collector.Delivery.Tail.Reading.{Wake, read_lines, tail_eve_json}
use netsentry_sensor.Collector.Json.{Json}
use netsentry_sensor.Common.Text.{Text}

-- A try to open the file as the world gives it: `missing` where it does not open, `unseekable` where it
-- opens and its end is not found, else what the loop then wakes up for.
pub data Opening : Type 0 where
  missing : Opening
  unseekable : (e : Text) → Opening
  opened : List Wake → Opening

-- what the loop wakes up for in a run: what follows the first opening, if its end is found
unfoldable pub woken_by : List Opening → List Wake
woken_by [] = []
woken_by (Opening.missing ∷ tries) = woken_by tries
woken_by (Opening.unseekable e ∷ tries) = []
woken_by (Opening.opened xs ∷ tries) = xs

module _ {V N F : Type 0} (json : Json V) (parse_time : Text → Option ℕ) (cloud : Cloud V N)
    (e : Endpoint) where
  abbrev unread : CollectorMetrics F → N → Tail V N F
  unread m n = record { batch = []; metrics = m; network = n }

  -- the task from its start: whether it still runs, and its state
  unfoldable pub tail_from_end : List Opening → CollectorMetrics F → N → Bool × Tail V N F
  tail_from_end [] m n = (true, unread m n)
  tail_from_end (Opening.missing ∷ tries) m n = tail_from_end tries m n
  tail_from_end (Opening.unseekable why ∷ tries) m n = (false, unread m n)
  tail_from_end (Opening.opened xs ∷ tries) m n =
      (true, tail_eve_json json parse_time cloud e xs (unread m n))

  -- From the start of the task, whatever its tries to open the log: where a post, whatever its answer,
  -- adds its events to the record of what was posted, the events of the lines that `read_line` returns
  -- after the first opening have been posted in their order, each once, but for those that wait in the
  -- batch, which are the last and less than fifty. Of a line in which a tick falls only the part after
  -- the tick is returned. Nothing is posted while the log is missing or if its end is not found.
  pub tail_from_end-in_order :
      (posted : N → List (TrafficEvent V))
      (records : (url : Text) (key : Option Text) (events : List (TrafficEvent V)) (n : N)
        → posted (cloud.post_batch url key events n).1 ≡ posted n ++ events)
      (tries : List Opening) (m : CollectorMetrics F) (n : N)
      → (in_order posted (tail_from_end tries m n).1
          ≡ posted n ++ events_in json parse_time (read_lines [] (woken_by tries)))
        × (length (tail_from_end tries m n).1.batch < 50)
  unfolding tail_from_end woken_by tail_eve_json read_lines
  tail_from_end-in_order posted records [] m n = (refl, omega arith)
  tail_from_end-in_order posted records (Opening.missing ∷ tries) m n =
      tail_from_end-in_order posted records tries m n
  tail_from_end-in_order posted records (Opening.unseekable why ∷ tries) m n = (refl, omega arith)
  tail_from_end-in_order posted records (Opening.opened xs ∷ tries) m n =
      let (order, bound) =
        tail_events-in_order cloud e posted records json parse_time (read_lines [] xs) (unread m n)
          (omega arith) in
      (
        order ∙ ap (λ p. p ++ events_in json parse_time (read_lines [] xs)) (append-nil (posted n)),
        bound,
      )
