-- ===== src/RuleEngine/Executor/Lines.antt =====
-- What applying and removing a rule does to the lines of the rules file.
use netsentry_sensor.Common.{
  ℕ, ◌≡◌, refl, Bool, true, false, not, Option, none, some, List, [], ◌∷◌, arith, length, keep, any,
  ◌==◌, ◌||◌, if◌then◌else◌, Bool-cases, Option-cases, inl, inr,
}
use netsentry_sensor.Common.Text.{Text, text_eq, text_eq_refl, trim, trim_idem}
use netsentry_sensor.RuleEngine.Parser.{ParsedRule, parse_suricata_rule}
use netsentry_sensor.RuleEngine.Executor.{
  has_sid, rule_has_sid, replace_sid, replace_or_append, cons_some, apply_lines,
}

-- The SID of a rule that parses and has one.
abbrev pub sid_of : Option ParsedRule → Option ℕ
sid_of none = none
sid_of (some p) = p.sid

pub parse-trim : (rule : Text) → parse_suricata_rule (trim rule) ≡ parse_suricata_rule rule
unfolding parse_suricata_rule
parse-trim rule = rw trim_idem

has_sid_of : (sid : ℕ) (o : Option ParsedRule) → sid_of o ≡ some sid → rule_has_sid sid o ≡ true
has_sid_of sid none h = cc
has_sid_of sid (some p) h = rw h (ground arith)

-- a rule has its own SID, trimmed or not
pub has_sid-trim :
    (sid : ℕ) (rule : Text)
    → sid_of (parse_suricata_rule rule) ≡ some sid
    → has_sid sid (trim rule) ≡ true
unfolding has_sid
has_sid-trim sid rule h = rw parse-trim (has_sid_of sid (parse_suricata_rule rule) h)

abbrev put : ℕ → Text → List Text → List Text
put sid t ls = replace_or_append t ls (replace_sid sid t ls)

apply_parsed-put :
    (rule : Text) (ls : List Text) (sid : ℕ)
    → sid_of (parse_suricata_rule rule) ≡ some sid
    → apply_lines rule ls ≡ put sid (trim rule) ls
unfolding apply_lines
apply_parsed-put rule ls sid h = elim (Option-cases (parse_suricata_rule rule)) [
  | inl e ↦ ground arith
  | inr (p, e) ↦ ground arith
]

put-cons_hit :
    (sid : ℕ) (t l : Text) (ls : List Text) → has_sid sid l ≡ true → put sid t (l ∷ ls) ≡ t ∷ ls
unfolding replace_sid
put-cons_hit sid t l ls h = rw h

replace_or_append-cons :
    (t l : Text) (ls : List Text) (o : Option (List Text))
    → replace_or_append t (l ∷ ls) (cons_some l o) ≡ l ∷ replace_or_append t ls o
replace_or_append-cons t l ls none = refl
replace_or_append-cons t l ls (some r) = refl

put-cons_miss :
    (sid : ℕ) (t l : Text) (ls : List Text)
    → has_sid sid l ≡ false
    → put sid t (l ∷ ls) ≡ l ∷ put sid t ls
unfolding replace_sid
put-cons_miss sid t l ls h = rw h (replace_or_append-cons t l ls (replace_sid sid t ls))

put-nil : (sid : ℕ) (t : Text) → put sid t [] ≡ t ∷ []
unfolding replace_sid
put-nil sid t = refl

put_idem :
    (sid : ℕ) (t : Text) (ls : List Text)
    → has_sid sid t ≡ true
    → put sid t (put sid t ls) ≡ put sid t ls
put_idem sid t [] h = rw put-nil (put-cons_hit sid t t [] h)
put_idem sid t (l ∷ ls) h = elim (Bool-cases (has_sid sid l)) [
  | inl e ↦ rw (put-cons_hit sid t l ls e) (put-cons_hit sid t t ls h)
  | inr e ↦ rw (put-cons_miss sid t l ls e, put-cons_miss sid t l _ e, put_idem sid t ls h)
]

-- A second application of a rule with a SID changes nothing.
pub apply_lines_idem :
    (rule : Text) (ls : List Text) (sid : ℕ)
    → sid_of (parse_suricata_rule rule) ≡ some sid
    → apply_lines rule (apply_lines rule ls) ≡ apply_lines rule ls
apply_lines_idem rule ls sid h =
    rw (apply_parsed-put rule _ sid h, apply_parsed-put rule ls sid h)
      (put_idem sid (trim rule) ls (has_sid-trim sid rule h))

abbrev pub lacks_sid : ℕ → Text → Bool
lacks_sid sid l = not (has_sid sid l)

or_true : (b : Bool) → (b || true) ≡ true
or_true true = refl
or_true false = refl

put-lacks_sid :
    (sid : ℕ) (t : Text) (ls : List Text)
    → has_sid sid t ≡ true
    → keep (lacks_sid sid) (put sid t ls) ≡ keep (lacks_sid sid) ls
unfolding keep
put-lacks_sid sid t [] h = rw (put-nil, h)
put-lacks_sid sid t (l ∷ ls) h = elim (Bool-cases (has_sid sid l)) [
  | inl e ↦ rw (put-cons_hit sid t l ls e, e, h)
  | inr e ↦ rw (put-cons_miss sid t l ls e, e, put-lacks_sid sid t ls h)
]

-- how many lines have the SID
abbrev pub count_sid : ℕ → List Text → ℕ
count_sid sid ls = length (keep (has_sid sid) ls)

put-count_sid :
    (sid : ℕ) (t : Text) (ls : List Text)
    → has_sid sid t ≡ true
    → count_sid sid (put sid t ls) ≡ (if count_sid sid ls == 0 then 1 else count_sid sid ls)
unfolding keep
put-count_sid sid t [] h = rw (put-nil, h)
put-count_sid sid t (l ∷ ls) h = elim (Bool-cases (has_sid sid l)) [
  | inl e ↦ rw (put-cons_hit sid t l ls e, e, h) (ground arith)
  | inr e ↦ rw (put-cons_miss sid t l ls e, e, put-count_sid sid t ls h)
]

put-any : (sid : ℕ) (t : Text) (ls : List Text) → any (text_eq t) (put sid t ls) ≡ true
unfolding any
put-any sid t [] = rw (put-nil, text_eq_refl)
put-any sid t (l ∷ ls) = elim (Bool-cases (has_sid sid l)) [
  | inl e ↦ rw (put-cons_hit sid t l ls e, text_eq_refl)
  | inr e ↦ rw (put-cons_miss sid t l ls e, put-any sid t ls) (or_true (text_eq t l))
]

-- Applying a rule with a SID leaves every line without that SID as it was, in order; the number of
-- lines with the SID stays, but for becoming one where there was none; and the trimmed rule is one
-- of the lines.
pub apply_lines-replaces :
    (rule : Text) (ls : List Text) (sid : ℕ)
    → sid_of (parse_suricata_rule rule) ≡ some sid
    → (keep (lacks_sid sid) (apply_lines rule ls) ≡ keep (lacks_sid sid) ls)
      × (count_sid sid (apply_lines rule ls)
          ≡ (if count_sid sid ls == 0 then 1 else count_sid sid ls))
      × (any (text_eq (trim rule)) (apply_lines rule ls) ≡ true)
apply_lines-replaces rule ls sid h = rw (apply_parsed-put rule ls sid h) (
  put-lacks_sid sid (trim rule) ls (has_sid-trim sid rule h),
  put-count_sid sid (trim rule) ls (has_sid-trim sid rule h),
  put-any sid (trim rule) ls,
)
