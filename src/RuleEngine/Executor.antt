-- ===== src/RuleEngine/Executor.antt =====
-- rule-engine/src/executor.rs: the file of dynamic rules on disk.
pub mod File
pub mod Lines
use netsentry_sensor.Common.{
  ℕ, ◌≡◌, refl, Bool, true, false, not, Option, none, some, List, [], ◌∷◌, ◌++◌, map, keep, ◌==◌,
  if◌then◌else◌,
}
use netsentry_sensor.Common.Outcome.{Result, ok, err}
use netsentry_sensor.Common.Text.{Text, codes, text_eq, trim, lines, join, unlines}
use netsentry_sensor.RuleEngine.Parser.{ParsedRule, parse_suricata_rule}
use mathlib.Core.List.{flatten}

-- How `reload_suricata` reached Suricata.
pub data Reload : Type 0 where
  by_socket by_signal not_reloaded : Reload

-- The outcomes of the two commands: whether each could be run and was successful.
unfoldable pub reload_suricata : Bool → Bool → Reload
reload_suricata true _ = by_socket
reload_suricata false true = by_signal
reload_suricata false false = not_reloaded

-- The rules file, if it exists, and the reloads that Suricata was asked for, the last one first.
pub record Disk : Type 0 where
  pub file : Option Text
  pub reloads : List Reload

-- What the operating system does during one call: an error of the read, of `create_dir_all` and of
-- the write, the file that a failed write leaves behind, and the outcomes of the reload commands.
pub record Host : Type 0 where
  pub read_error : Option Text
  pub dir_error : Option Text
  pub write_error : Option Text
  pub torn_file : Option Text
  pub socket_ok : Bool
  pub signal_ok : Bool

abbrev sid_is : ℕ → Option ℕ → Bool
sid_is sid none = false
sid_is sid (some n) = n == sid

abbrev rule_has_sid : ℕ → Option ParsedRule → Bool
rule_has_sid sid none = false
rule_has_sid sid (some p) = sid_is sid p.sid

-- the test of the closure in `iter_mut().any`
unfoldable pub has_sid : ℕ → Text → Bool
has_sid sid line = rule_has_sid sid (parse_suricata_rule line)

abbrev cons_some : Text → Option (List Text) → Option (List Text)
cons_some l none = none
cons_some l (some ls) = some (l ∷ ls)

-- The first line with the SID is replaced; `none` if there is none.
unfoldable pub replace_sid : ℕ → Text → List Text → Option (List Text)
replace_sid sid rule [] = none
replace_sid sid rule (l ∷ ls) =
    let later = replace_sid sid rule ls in
    if has_sid sid l then some (rule ∷ ls) else cons_some l later

abbrev replace_or_append : Text → List Text → Option (List Text) → List Text
replace_or_append rule ls none = ls ++ rule ∷ []
replace_or_append rule ls (some replaced) = replaced

abbrev apply_sid : Text → List Text → Option ℕ → List Text
apply_sid rule ls none = ls ++ rule ∷ []
apply_sid rule ls (some sid) = replace_or_append rule ls (replace_sid sid rule ls)

abbrev apply_parsed : Text → List Text → Option ParsedRule → List Text
apply_parsed rule ls none = ls ++ rule ∷ []
apply_parsed rule ls (some p) = apply_sid rule ls p.sid

-- The lines of the file after the rule is applied.
unfoldable pub apply_lines : Text → List Text → List Text
apply_lines rule ls = apply_parsed (trim rule) ls (parse_suricata_rule rule)

abbrev newline : Text
newline = b'\n' ∷ []

-- `lines.join("\n") + "\n"`
unfoldable pub render : List Text → Text
render ls = join newline ls ++ newline

-- `fs::write`, and what follows it.
unfoldable pub write_rules : Host → Text → Text → Disk → Result (Unit {0}) Text × Disk
write_rules h message content d = elim h.write_error [
  | some e ↦ (err (message ++ e), record d { file = h.torn_file })
  | none ↦ (
    ok tt,
    record d { file = some content; reloads = reload_suricata h.socket_ok h.signal_ok ∷ d.reloads },
  )
]

-- The text of the file, empty if there is none.
unfoldable pub load_rules : Host → Text → Option Text → Result Text Text
load_rules h path (some content) = elim h.read_error [
  | some e ↦ err (codes "Failed to read rules file " ++ (path ++ (codes ": " ++ e)))
  | none ↦ ok content
]
load_rules h path none = elim h.dir_error [
  | some e ↦ err (codes "Failed to create rules directory: " ++ e)
  | none ↦ ok []
]

abbrev apply_loaded : Host → Text → Text → Disk → Result Text Text → Result (Unit {0}) Text × Disk
apply_loaded h rule path d (err e) = (err e, d)
apply_loaded h rule path d (ok content) =
    write_rules h (codes "Failed to write rules file " ++ (path ++ codes ": "))
      (render (apply_lines rule (lines content))) d

unfoldable pub apply_rule_to : Host → Text → Text → Disk → Result (Unit {0}) Text × Disk
apply_rule_to h rule path d = apply_loaded h rule path d (load_rules h path d.file)

abbrev keeps_parsed : Text → Option ParsedRule → Bool
keeps_parsed ip none = true
keeps_parsed ip (some p) = not (text_eq p.src_ip ip)

-- Comments and lines that do not parse stay.
unfoldable pub keeps_line : Text → Text → Bool
keeps_line ip line = keeps_parsed ip (parse_suricata_rule line)

unfoldable pub remove_rule_by_ip_from : Host → Text → Disk → Result (Unit {0}) Text × Disk
remove_rule_by_ip_from h ip d = elim d.file [
  | none ↦ (ok tt, d)
  | some existing ↦ elim h.read_error [
    | some e ↦ (err (codes "Failed to read rules file: " ++ e), d)
    | none ↦
        write_rules h (codes "Failed to write rules file: ")
          (unlines (keep (keeps_line ip) (lines existing))) d
  ]
]

unfoldable pub default_rules_path : Text
default_rules_path = codes "/etc/suricata/rules/idps-dynamic.rules"

unfoldable pub apply_rule : Host → Text → Disk → Result (Unit {0}) Text × Disk
apply_rule h rule d = apply_rule_to h rule default_rules_path d

unfoldable pub remove_rule_by_ip : Host → Text → Disk → Result (Unit {0}) Text × Disk
remove_rule_by_ip h ip d = remove_rule_by_ip_from h ip d
