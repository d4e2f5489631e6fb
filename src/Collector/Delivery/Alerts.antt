-- ===== src/Collector/Delivery/Alerts.antt =====
-- raspi-collector/src/services/mod.rs, `parse_eve_line`: which lines of Suricata's log are alerts.
use netsentry_sensor.Common.{
  ℕ, ◌%◌, ◌<◌, ◌≡◌, ◌⊎◌, Bool, false, ◌||◌, Option, none, some, [], is_empty, unwrap_or, ◌==◌,
  if◌then◌else◌, ◌>>=◌, arith, inl, inr, Option-cases, u16_mod,
}
use mathlib.Core.Option
use netsentry_sensor.Collector.Delivery.{TrafficEvent}
use netsentry_sensor.Collector.Json.{Json, get_str, str_or, u64_or}
use netsentry_sensor.Common.Outcome.{ok, err, Result-cases}
use netsentry_sensor.Common.Text.{Text, codes, text_eq, text_eq_iff, starts_with}

unfoldable pub level_of : ℕ → ℕ
level_of severity =
    if severity == 1 then 9 else if severity == 2 then 6 else if severity == 3 then 3 else 1

abbrev pub IsLevel : ℕ → Type 0
IsLevel n = ◌⊎◌ (n ≡ 9) (◌⊎◌ (n ≡ 6) (◌⊎◌ (n ≡ 3) (n ≡ 1)))

level_of-IsLevel : (n : ℕ) → IsLevel (level_of n)
unfolding level_of
level_of-IsLevel n = ground arith

-- signatures that are left out
unfoldable pub is_noise : Text → Bool
is_noise signature =
    starts_with signature (codes "SURICATA ") || starts_with signature (codes "ET INFO ")

module _ {V : Type 0} (json : Json V) (parse_time : Text → Option ℕ) where
  -- `v["event_type"].as_str() != Some("alert")` does not hold
  abbrev pub is_alert : V → Bool
  is_alert v = elim (get_str json v (codes "event_type")) [
    | none ↦ false
    | some t ↦ text_eq t (codes "alert")
  ]

  -- `v["alert"][key]`, read by `read`
  abbrev pub in_alert : {A : Type 0} → (V → Option A) → V → Text → Option A
  in_alert read v key = json.get v (codes "alert") >>= λ a. json.get a key >>= read

  abbrev pub event_of : (id : Text) (now : ℕ) → V → (src_ip : Text) → TrafficEvent V
  event_of id now v src_ip = record {
    id = id;
    timestamp = unwrap_or (get_str json v (codes "timestamp") >>= parse_time) now;
    source_ip = src_ip;
    dest_ip = str_or json v (codes "dest_ip") [];
    source_port = u64_or json v (codes "src_port") 0 % u16_mod;
    dest_port = u64_or json v (codes "dest_port") 0 % u16_mod;
    protocol = str_or json v (codes "proto") (codes "unknown");
    payload = v;
    threat_level = unwrap_or (Option.map level_of (in_alert json.as_u64 v (codes "severity"))) 1;
    event_type = str_or json v (codes "event_type") (codes "unknown");
  }

  -- an event of the log, once parsed
  unfoldable pub alert_of : (id : Text) (now : ℕ) → V → Option (TrafficEvent V)
  alert_of id now v =
      let signature = unwrap_or (in_alert json.as_str v (codes "signature")) [] in
      let src_ip = str_or json v (codes "src_ip") [] in
      if is_alert v
      then if is_noise signature
        then none
        else if is_empty src_ip
        then none
        else some (event_of id now v src_ip)
      else none

  -- `id` is the new identifier, `now` stands in for a timestamp that cannot be read.
  unfoldable pub parse_eve_line : (id : Text) (now : ℕ) (line : Text) → Option (TrafficEvent V)
  unfolding alert_of
  parse_eve_line id now line = elim (json.parse line) [ err _ ↦ none | ok v ↦ alert_of id now v ]

  -- What is sent as an event has the type of an alert, a source address, ports of 16 bits, and one of
  -- the four levels.
  pub parse_eve_line-alert :
      (id line : Text) (now : ℕ) (e : TrafficEvent V)
      → parse_eve_line id now line ≡ some e
      → (e.event_type ≡ codes "alert")
        × (is_empty e.source_ip ≡ false)
        × (e.source_port < u16_mod)
        × (e.dest_port < u16_mod)
        × IsLevel e.threat_level
  unfolding parse_eve_line alert_of
  parse_eve_line-alert id line now e parsed = elim (Result-cases (json.parse line)) [
    | inr (x, bad) ↦ absurd (ground (arith, bad, parsed))
    | inl (v, good) ↦ elim (Option-cases (get_str json v (codes "event_type"))) [
      | inl missing ↦ absurd (ground (arith, good, missing, parsed))
      | inr (t, type) ↦ elim (Option-cases (in_alert json.as_u64 v (codes "severity"))) [
        | inl a ↦ ground (arith, good, type, a, text_eq_iff t (codes "alert"), parsed)
        | inr (level, a) ↦
            ground
              (arith, good, type, a, level_of-IsLevel level, text_eq_iff t (codes "alert"), parsed)
      ]
    ]
  ]
