-- ===== src/Tests/Rules.antt =====
-- The rule engine at concrete inputs.
use netsentry_sensor.Common.{◌≡◌, refl, true, false, none, some, [], ◌∷◌, arith, if◌then◌else◌}
use netsentry_sensor.Common.Text.{
  Text, codes, text_eq, trim, trim_start, trim_end, unlines, find, starts_with, strip_prefix,
  splitn, parse_uint, scan_digits, is_whitespace, IsLine,
}
use netsentry_sensor.RuleEngine.Executor.{
  Host, Disk, apply_rule_to, remove_rule_by_ip_from, write_rules, load_rules,
}
use netsentry_sensor.RuleEngine.Executor.File.{text_of, HasNoReturn, apply_rule_to_idem}
use netsentry_sensor.RuleEngine.Executor.Lines.{sid_of}
use netsentry_sensor.RuleEngine.Matcher.{RuleMatcher, check, no_match, content, reload_from}
use netsentry_sensor.RuleEngine.Matcher.Sync.{check-remove_rule_by_ip_from}
use netsentry_sensor.RuleEngine.Parser.{
  parse_suricata_rule, parse_trimmed, parse_parts, rule_sid, rule_msg, extract_option,
}

abbrev rule : Text
rule = codes "drop ip 203.0.113.9 any -> any any (msg:b; sid:7;)"

abbrev other : Text
other = codes "drop ip 203.0.113.50 any -> any any (msg:b; sid:8;)"

abbrev host : Host
host = record {
  read_error = none;
  dir_error = none;
  write_error = none;
  torn_file = none;
  socket_ok = true;
  signal_ok = true;
}

abbrev text : Text
text = unlines (rule ∷ other ∷ [])

abbrev disk : Disk
disk = record { file = some text; reloads = [] }

abbrev fresh : Disk
fresh = record { file = none; reloads = [] }

rule_sid_is : sid_of (parse_suricata_rule rule) ≡ some 7
unfolding codes parse_suricata_rule parse_trimmed parse_parts rule_sid rule_msg extract_option find
    starts_with strip_prefix splitn parse_uint scan_digits trim trim_start trim_end is_whitespace
rule_sid_is = refl

rule-IsLine : IsLine rule
unfolding codes
rule-IsLine = ground arith

apply_rule_to_idem_example :
    (apply_rule_to host rule (codes "/r") (apply_rule_to host rule (codes "/r") fresh).1).1.file
    ≡ (apply_rule_to host rule (codes "/r") fresh).1.file
unfolding apply_rule_to load_rules write_rules
apply_rule_to_idem_example =
    apply_rule_to_idem host host rule (codes "/r") fresh 7 rule-IsLine tt rule_sid_is refl refl

text-HasNoReturn : HasNoReturn text
unfolding codes unlines
text-HasNoReturn = ground arith

abbrev matcher : RuleMatcher
matcher = record { blocked_ips = []; poisoned = false }

check-remove_rule_by_ip_from_example :
    check (codes "203.0.113.50") (
      reload_from
        (content (text_of (remove_rule_by_ip_from host (codes "203.0.113.9") disk).1.file))
        matcher)
    ≡ (if text_eq (codes "203.0.113.9") (codes "203.0.113.50")
        then no_match
        else check (codes "203.0.113.50") (reload_from (content text) matcher))
unfolding remove_rule_by_ip_from write_rules
check-remove_rule_by_ip_from_example =
    check-remove_rule_by_ip_from host (codes "203.0.113.9") (codes "203.0.113.50") text disk matcher
      refl text-HasNoReturn refl
