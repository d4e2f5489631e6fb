-- ===== src/Collector/Delivery/Tail.antt =====
-- raspi-collector/src/services/mod.rs: `flush_batch` and the loop of `tail_eve_json`, after the file has
-- been opened at its end.
pub mod Opening
pub mod Reading
use netsentry_sensor.Common.{
  ℕ, ◌<◌, ◌≡◌, ◌∙◌, Option, none, some, List, [], ◌∷◌, ◌++◌, length, leb, is_empty, if◌then◌else◌,
  arith, sym, ap, Bool-cases, inl, inr,
}
use mathlib.Core.List.{append-nil, append_assoc}
use netsentry_sensor.Collector.Delivery.{
  TrafficEvent, CollectorMetrics, Cloud, Endpoint, send_batch_to_vps, count_collected,
  count_outcome, key_of,
}
use netsentry_sensor.Collector.Delivery.Alerts.{parse_eve_line}
use netsentry_sensor.Collector.Json.{Json}
use netsentry_sensor.Common.Text.{Text, codes, trim}

-- What the loop handles: a line as `read_line` returns it, the end of the file or an error of reading it, after which
-- the source waits, or a tick. `id` and `now` are drawn for the event, `at` when a batch is sent.
pub data TailEvent : Type 0 where
  line : (id : Text) (now at : ℕ) (content : Text) → TailEvent
  idle : TailEvent
  tick : (at : ℕ) → TailEvent

pub record Tail (V N F : Type 0) : Type 0 where
  pub batch : List (TrafficEvent V)
  pub metrics : CollectorMetrics F
  pub network : N

abbrev pub to_list : {A : Type 0} → Option A → List A
to_list none = []
to_list (some a) = a ∷ []

module _ {V : Type 0} (json : Json V) (parse_time : Text → Option ℕ) where
  -- the event of a line, where it has one
  unfoldable pub event_in : TailEvent → Option (TrafficEvent V)
  event_in (TailEvent.line id now at content) =
      if is_empty (trim content) then none else parse_eve_line json parse_time id now (trim content)
  event_in TailEvent.idle = none
  event_in (TailEvent.tick at) = none

  -- the events of a run, in order
  abbrev pub events_in : List TailEvent → List (TrafficEvent V)
  events_in [] = []
  events_in (x ∷ xs) = to_list (event_in x) ++ events_in xs

module _ {V N F : Type 0} (cloud : Cloud V N) (e : Endpoint) where
  unfoldable pub flush_batch : (at : ℕ) → Tail V N F → Tail V N F
  flush_batch at s =
      let count = length s.batch in
      let sent = send_batch_to_vps cloud e s.batch s.network in
      record {
        batch = [];
        metrics = count_outcome count sent.0 (count_collected count at s.metrics);
        network = sent.1;
      }

  unfoldable pub push : (at : ℕ) → Option (TrafficEvent V) → Tail V N F → Tail V N F
  unfolding flush_batch
  push at none s = s
  push at (some event) s =
      let pushed = record s { batch = s.batch ++ event ∷ [] } in
      if leb 50 (length (s.batch ++ event ∷ [])) then flush_batch at pushed else pushed

module _ {V N F : Type 0} (json : Json V) (parse_time : Text → Option ℕ) (cloud : Cloud V N)
    (e : Endpoint) where
  unfoldable pub tail_step : TailEvent → Tail V N F → Tail V N F
  unfolding push event_in
  tail_step (TailEvent.line id now at content) s =
      push cloud e at (event_in json parse_time (TailEvent.line id now at content)) s
  tail_step TailEvent.idle s = s
  tail_step (TailEvent.tick at) s = if is_empty s.batch then s else flush_batch cloud e at s

  unfoldable pub tail_events : List TailEvent → Tail V N F → Tail V N F
  unfolding tail_step
  tail_events [] s = s
  tail_events (x ∷ xs) s = tail_events xs (tail_step x s)

-- all that was posted, and what is still to be
abbrev pub in_order :
    {V N F : Type 0} → (posted : N → List (TrafficEvent V)) → Tail V N F → List (TrafficEvent V)
in_order posted s = posted s.network ++ s.batch

module _ {V N F : Type 0} (cloud : Cloud V N) (e : Endpoint) (posted : N → List (TrafficEvent V))
    (records : (url : Text) (key : Option Text) (events : List (TrafficEvent V)) (n : N)
      → posted (cloud.post_batch url key events n).1 ≡ posted n ++ events) where
  flush_batch-in_order :
      (at : ℕ) (s : Tail V N F) → in_order posted (flush_batch cloud e at s) ≡ in_order posted s
  unfolding flush_batch send_batch_to_vps
  flush_batch-in_order at s =
      let url = e.vps_endpoint ++ codes "/traffic/batch" in
      append-nil (posted (cloud.post_batch url (key_of e) s.batch s.network).1)
      ∙ records url (key_of e) s.batch s.network

  flush_batch-bound : (at : ℕ) (s : Tail V N F) → length (flush_batch cloud e at s).batch < 50
  unfolding flush_batch
  flush_batch-bound at s = omega arith

  push-in_order :
      (at : ℕ) (o : Option (TrafficEvent V)) (s : Tail V N F)
      → length s.batch < 50
      → (in_order posted (push cloud e at o s) ≡ in_order posted s ++ to_list o)
        × (length (push cloud e at o s).batch < 50)
  unfolding push
  push-in_order at none s h = (sym (append-nil (in_order posted s)), h)
  push-in_order at (some event) s h =
      let pushed : Tail V N F = record s { batch = s.batch ++ event ∷ [] } in
      let same : in_order posted pushed ≡ in_order posted s ++ event ∷ [] =
        sym (append_assoc (posted s.network) s.batch (event ∷ [])) in
      elim (Bool-cases (leb 50 (length pushed.batch))) [
        | inl full ↦ rw full (flush_batch-in_order at pushed ∙ same, flush_batch-bound at pushed)
        | inr room ↦ rw room (same, ground (arith, room))
      ]

  module _ (json : Json V) (parse_time : Text → Option ℕ) where
    tail_step-in_order :
        (x : TailEvent) (s : Tail V N F)
        → length s.batch < 50
        → (in_order posted (tail_step json parse_time cloud e x s)
            ≡ in_order posted s ++ to_list (event_in json parse_time x))
          × (length (tail_step json parse_time cloud e x s).batch < 50)
    unfolding tail_step
    tail_step-in_order (TailEvent.line id now at content) s h =
        push-in_order at (event_in json parse_time (TailEvent.line id now at content)) s h
    tail_step-in_order TailEvent.idle s h = (sym (append-nil (in_order posted s)), h)
    tail_step-in_order (TailEvent.tick at) s h = elim (Bool-cases (is_empty s.batch)) [
      | inl e ↦ rw e (sym (append-nil (in_order posted s)), h)
      | inr e ↦
          rw e (
            flush_batch-in_order at s ∙ sym (append-nil (in_order posted s)),
            flush_batch-bound at s,
          )
    ]

    -- the loop keeps the order and the bound
    pub tail_events-in_order :
        (xs : List TailEvent) (s : Tail V N F)
        → length s.batch < 50
        → (in_order posted (tail_events json parse_time cloud e xs s)
            ≡ in_order posted s ++ events_in json parse_time xs)
          × (length (tail_events json parse_time cloud e xs s).batch < 50)
    unfolding tail_events
    tail_events-in_order [] s h = (sym (append-nil (in_order posted s)), h)
    tail_events-in_order (x ∷ xs) s h =
        let (first, bound) = tail_step-in_order x s h in
        let (rest, last) = tail_events-in_order xs (tail_step json parse_time cloud e x s) bound in
        (
          rest
              ∙ ap (λ ys. ys ++ events_in json parse_time xs) first
              ∙ append_assoc (in_order posted s) (to_list (event_in json parse_time x))
                  (events_in json parse_time xs),
          last,
        )
