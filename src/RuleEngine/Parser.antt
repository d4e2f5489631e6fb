-- ===== src/RuleEngine/Parser.antt =====
-- rule-engine/src/parser.rs: one line of a Suricata rules file.

use netsentry_sensor.Common.{
  ℕ, ◌+◌, ◌||◌, Option, none, some, List, [], ◌∷◌, ◌++◌, length, take, drop, is_empty, unwrap_or,
  ◌==◌, ◌>>=◌, u64_max, if◌then◌else◌,
}
use netsentry_sensor.Common.Text.{Text, codes, find, trim, starts_with, splitn, parse_uint}
use mathlib.Core.List.{reverse}

pub record ParsedRule : Type 0 where
  pub raw : Text
  pub action : Text
  pub src_ip : Text
  pub dst_ip : Text
  pub msg : Text
  pub sid : Option ℕ

unfoldable pub extract_option : Text → Text → Option Text
extract_option options key = do
  let search = key ++ b':' ∷ []
  found ← find options search
  let slice = drop (found + length search) options
  let stop = unwrap_or (find slice (b';' ∷ [])) (length slice)
  some (trim (take stop slice))

trim_quotes_start : Text → Text
trim_quotes_start [] = []
trim_quotes_start (c ∷ s) = if c == b'"' then trim_quotes_start s else c ∷ s

-- `s.trim_matches('"')`
trim_quotes : Text → Text
unfolding trim_quotes_start
trim_quotes s = reverse (trim_quotes_start (reverse (trim_quotes_start s)))

abbrev rest_of : List Text → Text
rest_of [] = []
rest_of (rest ∷ _) = rest

-- `and_then(|s| s.parse::<u64>().ok())` after the option `sid`
unfoldable pub rule_sid : Text → Option ℕ
unfolding extract_option
rule_sid rest = extract_option rest (codes "sid") >>= parse_uint u64_max

unfoldable pub rule_msg : Text → Text
unfolding extract_option trim_quotes
rule_msg rest = trim_quotes (unwrap_or (extract_option rest (codes "msg")) [])

-- The parts of a line that are read in order; `?` returns `None` where one is missing.
unfoldable pub parse_parts : Text → List Text → Option ParsedRule
parse_parts line (action ∷ _proto ∷ src_ip ∷ _src_port ∷ _arrow ∷ dst_ip ∷ more) = some (record {
  raw = line;
  action = action;
  src_ip = src_ip;
  dst_ip = dst_ip;
  msg = rule_msg (rest_of more);
  sid = rule_sid (rest_of more);
})
parse_parts line _ = none

unfoldable pub parse_trimmed : Text → Option ParsedRule
parse_trimmed line =
    if is_empty line || starts_with line (b'#' ∷ [])
    then none
    else parse_parts line (splitn 7 b' ' line)

unfoldable pub parse_suricata_rule : Text → Option ParsedRule
unfolding parse_trimmed
parse_suricata_rule line = parse_trimmed (trim line)
