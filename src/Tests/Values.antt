-- ===== src/Tests/Values.antt =====
-- A JSON whose texts are the letters of two values.
use netsentry_sensor.Common.{ℕ, Bool, Option, none, some, [], ◌∷◌, if◌then◌else◌}
use netsentry_sensor.Collector.Json.{Json}
use netsentry_sensor.Common.Outcome.{Result, ok, err}
use netsentry_sensor.Common.Text.{Text, codes, text_eq}

-- values of a JSON of objects, texts, numbers and truth values
pub data Value : Type 0 where
  null : Value
  text : Text → Value
  number : ℕ → Value
  flag : Bool → Value
  field : (key : Text) → Value → (others : Value) → Value

abbrev pub member : Value → Text → Option Value
member (Value.field key v others) k =
    let rest = member others k in if text_eq key k then some v else rest
member _ k = none

abbrev words : Value → Option Text
words (Value.text t) = some t
words _ = none

abbrev amount : Value → Option ℕ
amount (Value.number n) = some n
amount _ = none

abbrev pub command : Value
command = Value.field (codes "type") (Value.text (codes "block_command")) (
    Value.field (codes "ip") (Value.text (codes "203.0.113.9"))
      (Value.field (codes "duration_secs") (Value.number 7300) Value.null))

abbrev pub alert : Value
alert = Value.field (codes "event_type") (Value.text (codes "alert")) (
    Value.field (codes "src_ip") (Value.text (codes "203.0.113.9")) (
      Value.field (codes "alert") (Value.field (codes "severity") (Value.number 1) Value.null)
        Value.null))

-- `b` is the text of the command, `a` that of the alert
abbrev read : Text → Result Value Text
read s =
    if text_eq s (codes "b")
    then ok command
    else if text_eq s (codes "a")
    then ok alert
    else err (codes "expected value")

abbrev pub json : Json Value
json = record {
  parse = read;
  get = member;
  as_str = words;
  as_u64 = amount;
  as_array = λ v. some (command ∷ Value.null ∷ []);
  raw = λ t. Value.text t;
}
