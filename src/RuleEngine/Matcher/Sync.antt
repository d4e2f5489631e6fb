-- ===== src/RuleEngine/Matcher/Sync.antt =====
-- The matcher against the rules file.
use netsentry_sensor.Common.{
  ◌≡◌, refl, Bool, false, not, ◌||◌, ◌&&◌, Option, none, some, List, [], ◌∷◌, ◌++◌, arith, keep,
  any, if◌then◌else◌, Option-cases, inl, inr,
}
use netsentry_sensor.Common.Outcome.{ok}
use netsentry_sensor.Common.Text.{Text, codes, text_eq, text_eq_iff, lines}
use netsentry_sensor.RuleEngine.Parser.{parse_suricata_rule}
use netsentry_sensor.RuleEngine.Executor.{Host, Disk, remove_rule_by_ip_from, keeps_line}
use netsentry_sensor.RuleEngine.Executor.File.{text_of, HasNoReturn, remove_rule_by_ip_from-ok}
use netsentry_sensor.RuleEngine.Matcher.{
  block, no_match, RuleMatcher, set_contains, set_insert, set_remove, drop_target, load_ips,
  insert_target, content, reload_from, check, add_blocked_ip, remove_blocked_ip,
}

abbrev is_target : Text → Option Text → Bool
is_target ip none = false
is_target ip (some t) = text_eq t ip

-- The line is a `drop` rule for the address.
unfoldable pub blocks : Text → Text → Bool
blocks ip line = is_target ip (drop_target (parse_suricata_rule line))

pub set_contains-insert :
    (i j : Text) (ips : List Text)
    → set_contains j (set_insert i ips) ≡ (text_eq i j || set_contains j ips)
unfolding set_insert set_contains any
set_contains-insert i j ips = ground (arith, text_eq_iff i j)

pub set_contains-remove :
    (i j : Text) (ips : List Text)
    → set_contains j (set_remove i ips) ≡ (not (text_eq i j) && set_contains j ips)
unfolding set_remove set_contains any keep
set_contains-remove i j [] = ground arith
set_contains-remove i j (x ∷ xs) =
    ground (arith, set_contains-remove i j xs, text_eq_iff x i, text_eq_iff x j, text_eq_iff i j)

set_contains-target :
    (ip : Text) (t : Option Text) (ips : List Text)
    → set_contains ip (insert_target t ips) ≡ (is_target ip t || set_contains ip ips)
set_contains-target ip none ips = refl
set_contains-target ip (some t) ips = set_contains-insert t ip ips

set_contains-load :
    (ip : Text) (ls : List Text) (ips : List Text)
    → set_contains ip (load_ips ls ips) ≡ (any (blocks ip) ls || set_contains ip ips)
unfolding load_ips any blocks
set_contains-load ip [] ips = refl
set_contains-load ip (l ∷ ls) ips =
    let t = drop_target (parse_suricata_rule l) in
    ground (arith, set_contains-load ip ls (insert_target t ips), set_contains-target ip t ips)

set_contains-nil : (ip : Text) → set_contains ip [] ≡ false
unfolding set_contains any
set_contains-nil ip = refl

-- The removal keeps every `drop` rule for another address, and no rule for its own.
any-keeps_line :
    (i j : Text) (ls : List Text)
    → any (blocks j) (keep (keeps_line i) ls) ≡ (if text_eq i j then false else any (blocks j) ls)
unfolding any keep keeps_line blocks
any-keeps_line i j [] = ground arith
any-keeps_line i j (l ∷ ls) = elim (Option-cases (parse_suricata_rule l)) [
  | inl e ↦ ground (arith, any-keeps_line i j ls)
  | inr (p, e) ↦ ground (
    arith,
    any-keeps_line i j ls,
    text_eq_iff p.src_ip i,
    text_eq_iff p.src_ip j,
    text_eq_iff i j,
  )
]

-- When a removal has succeeded on a file with no carriage return and the matcher has reloaded, packets
-- from the removed address are no longer blocked, and those from any other address are judged as by a
-- reload before the removal.
pub check-remove_rule_by_ip_from :
    (h : Host) (i j c : Text) (d : Disk) (m : RuleMatcher)
    → d.file ≡ some c
    → HasNoReturn c
    → (remove_rule_by_ip_from h i d).0 ≡ ok tt
    → check j (reload_from (content (text_of (remove_rule_by_ip_from h i d).1.file)) m)
      ≡ (if text_eq i j then no_match else check j (reload_from (content c) m))
unfolding check reload_from
check-remove_rule_by_ip_from h i j c d m e plain r =
    let left = (remove_rule_by_ip_from-ok h i c d e plain r).0 in
    let after = set_contains-load j (lines (text_of (remove_rule_by_ip_from h i d).1.file)) [] in
    ground (
      arith,
      left,
      after,
      set_contains-load j (lines c) [],
      set_contains-nil j,
      any-keeps_line i j (lines c),
    )

-- A sound matcher answers to insertions and removals as a set does.
pub check-add_remove :
    (i j : Text) (m : RuleMatcher)
    → m.poisoned ≡ false
    → (check j (add_blocked_ip i m)
        ≡ (if text_eq i j then block (codes "Matched local DROP rule for " ++ j) else check j m))
      × (check j (remove_blocked_ip i m) ≡ (if text_eq i j then no_match else check j m))
unfolding check add_blocked_ip remove_blocked_ip
check-add_remove i j m sound =
    ground (arith, set_contains-insert i j m.blocked_ips, set_contains-remove i j m.blocked_ips)
