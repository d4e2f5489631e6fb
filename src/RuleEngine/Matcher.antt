-- ===== src/RuleEngine/Matcher.antt =====
-- rule-engine/src/matcher.rs: the set of blocked source addresses in memory.
pub mod Sync
use netsentry_sensor.Common.{
  ◌≡◌, refl, Bool, true, false, not, ◌&&◌, ◌||◌, Option, none, some, List, [], ◌∷◌, ◌++◌, is_empty,
  keep, any, if◌then◌else◌,
}
use netsentry_sensor.Common.Text.{Text, codes, text_eq, lines}
use netsentry_sensor.RuleEngine.Parser.{ParsedRule, parse_suricata_rule}

pub data MatchResult : Type 0 where
  block : (reason : Text) → MatchResult
  no_match : MatchResult

-- The lock is poisoned once a thread has panicked with the write guard in its hands.
pub record RuleMatcher : Type 0 where
  pub blocked_ips : List Text
  pub poisoned : Bool

-- `HashSet::contains`, `insert` and `remove`
unfoldable pub set_contains : Text → List Text → Bool
set_contains ip ips = any (λ x. text_eq x ip) ips

unfoldable pub set_insert : Text → List Text → List Text
set_insert ip ips = if set_contains ip ips then ips else ip ∷ ips

unfoldable pub set_remove : Text → List Text → List Text
set_remove ip ips = keep (λ x. not (text_eq x ip)) ips

-- The address that a rule blocks, if it is a `drop` rule for one.
abbrev pub drop_target : Option ParsedRule → Option Text
drop_target none = none
drop_target (some p) =
    if text_eq p.action (codes "drop")
      && (not (is_empty p.src_ip) && not (text_eq p.src_ip (codes "any")))
    then some p.src_ip
    else none

abbrev insert_target : Option Text → List Text → List Text
insert_target none ips = ips
insert_target (some ip) ips = set_insert ip ips

-- the loop over the lines of the file
unfoldable pub load_ips : List Text → List Text → List Text
load_ips [] ips = ips
load_ips (l ∷ ls) ips = load_ips ls (insert_target (drop_target (parse_suricata_rule l)) ips)

-- The file is absent, or could not be read, or has a text.
pub data ReadFile : Type 0 where
  absent unreadable : ReadFile
  content : Text → ReadFile

unfoldable pub reload_from : ReadFile → RuleMatcher → RuleMatcher
reload_from absent m = m
reload_from unreadable m = m
reload_from (content c) m =
    if m.poisoned then m else record m { blocked_ips = load_ips (lines c) [] }

unfoldable pub new : ReadFile → RuleMatcher
new f = reload_from f (record { blocked_ips = []; poisoned = false })

unfoldable pub check : Text → RuleMatcher → MatchResult
check src_ip m =
    if m.poisoned
    then no_match
    else if set_contains src_ip m.blocked_ips
    then block (codes "Matched local DROP rule for " ++ src_ip)
    else no_match

unfoldable pub add_blocked_ip : Text → RuleMatcher → RuleMatcher
add_blocked_ip ip m =
    if m.poisoned then m else record m { blocked_ips = set_insert ip m.blocked_ips }

unfoldable pub remove_blocked_ip : Text → RuleMatcher → RuleMatcher
remove_blocked_ip ip m =
    if m.poisoned then m else record m { blocked_ips = set_remove ip m.blocked_ips }
