-- ===== src/RuleEngine/Api.antt =====
-- rule-engine/src/main.rs: the handlers of the HTTP interface.
use netsentry_sensor.Common.{
  Bool, true, false, Option, none, some, List, [], ◌∷◌, ◌++◌, is_empty, if◌then◌else◌,
}
use netsentry_sensor.Common.Outcome.{Result, ok, err}
use netsentry_sensor.Common.Text.{Text, codes, trim, join}
use netsentry_sensor.RuleEngine.Executor.{Disk, Host, apply_rule, remove_rule_by_ip}

pub record ApplyRuleRequest : Type 0 where
  pub suricata_rule : Option Text
  pub iptables_rule : Option Text

pub record RuleResponse : Type 0 where
  pub success : Bool
  pub message : Text

-- What running `iptables` with the words of a rule comes to.
pub data CommandStatus : Type 0 where
  exit_success : CommandStatus
  exit_failure : (status : Text) → CommandStatus
  exec_error : (error : Text) → CommandStatus

-- `applied` and `errors`, as the handler goes on
pub record Progress : Type 0 where
  pub applied : Bool
  pub errors : List Text

abbrev add_error : Text → Progress → Progress
add_error e p = record p { errors = p.errors ++ e ∷ [] }

abbrev note_suricata : Result (Unit {0}) Text → Progress → Progress
note_suricata (ok _) p = record p { applied = true }
note_suricata (err e) p = add_error (codes "Suricata: " ++ e) p

unfoldable pub suricata_part : Host → Option Text → Disk → Progress → Progress × Disk
suricata_part h none d p = (p, d)
suricata_part h (some rule) d p =
    let (r, d') = apply_rule h rule d in
    if is_empty (trim rule) then (p, d) else (note_suricata r p, d')

abbrev note_iptables : CommandStatus → Progress → Progress
note_iptables exit_success p = record p { applied = true }
note_iptables (exit_failure s) p = add_error (codes "iptables exited with " ++ s) p
note_iptables (exec_error e) p = add_error (codes "iptables exec error: " ++ e) p

-- `run` is what the command does with a rule.
unfoldable pub iptables_part : (run : Text → CommandStatus) → Option Text → Progress → Progress
iptables_part run none p = p
iptables_part run (some rule) p = if is_empty (trim rule) then p else note_iptables (run rule) p

unfoldable pub respond : Progress → RuleResponse
respond p =
    if is_empty p.errors
    then record {
      success = p.applied;
      message = if p.applied then codes "Rule(s) applied" else codes "Nothing to apply";
    }
    else record { success = false; message = join (codes "; ") p.errors }

abbrev start : Progress
start = record { applied = false; errors = [] }

unfoldable pub handle_apply :
    Host → (run : Text → CommandStatus) → ApplyRuleRequest → Disk → RuleResponse × Disk
unfolding suricata_part iptables_part respond
handle_apply h run req d =
    let (p, d') = suricata_part h req.suricata_rule d start in
    (respond (iptables_part run req.iptables_rule p), d')

abbrev removal_response : Text → Result (Unit {0}) Text → RuleResponse
removal_response ip (ok _) = record {
  success = true;
  message = codes "Rules for " ++ (ip ++ codes " removed");
}
removal_response ip (err e) = record { success = false; message = e }

unfoldable pub handle_remove : Host → Text → Disk → RuleResponse × Disk
handle_remove h ip d = let (r, d') = remove_rule_by_ip h ip d in (removal_response ip r, d')
