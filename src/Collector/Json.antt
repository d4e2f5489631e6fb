-- ===== src/Collector/Json.antt =====
-- `serde_json::Value`, which the collector reads through these calls; `V` is the type of the values.
use netsentry_sensor.Common.{ℕ, Option, List, unwrap_or, ◌>>=◌}
use netsentry_sensor.Common.Outcome.{Result}
use netsentry_sensor.Common.Text.{Text}

-- `raw` is `json!({"raw": text})`. `get` of what is no object, or of a key that is not there, is `none`.
pub record Json (V : Type 0) : Type 0 where
  pub parse : Text → Result V Text
  pub get : V → Text → Option V
  pub as_str : V → Option Text
  pub as_u64 : V → Option ℕ
  pub as_array : V → Option (List V)
  pub raw : Text → V

module _ {V : Type 0} (json : Json V) where
  -- `value.get(key).and_then(|v| v.as_str())`, which is also what `value[key].as_str()` yields
  abbrev pub get_str : V → Text → Option Text
  get_str v key = json.get v key >>= json.as_str

  abbrev pub get_u64 : V → Text → Option ℕ
  get_u64 v key = json.get v key >>= json.as_u64

  -- with `.unwrap_or(default)`
  abbrev pub str_or : V → Text → Text → Text
  str_or v key default = unwrap_or (get_str v key) default

  abbrev pub u64_or : V → Text → ℕ → ℕ
  u64_or v key default = unwrap_or (get_u64 v key) default
