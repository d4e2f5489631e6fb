-- ===== src/RuleEngine/Executor/File.antt =====
-- The rules file after a call.
use netsentry_sensor.Common.{
  ℕ, ◌≡◌, ap, sym, ◌∙◌, ◌≢◌, ◌⊎◌, Bool, Option, none, some, List, [], ◌∷◌, ◌++◌, arith, All,
  All-append, keep, Option-cases, inl, inr,
}
use netsentry_sensor.Common.Outcome.{ok, err}
use netsentry_sensor.Common.Text.{
  Text, trim, lines, All-trim, IsLine, lines-unlines, lines-IsLine, join-unlines,
}
use netsentry_sensor.RuleEngine.Parser.{parse_suricata_rule}
use netsentry_sensor.RuleEngine.Executor.{
  Host, Disk, apply_rule_to, remove_rule_by_ip_from, write_rules, load_rules, render, apply_lines,
  replace_sid, replace_or_append, cons_some, apply_sid, keeps_line, reload_suricata,
}
use netsentry_sensor.RuleEngine.Executor.Lines.{sid_of, apply_lines_idem}

-- The text of the rules file, empty if there is none.
abbrev pub text_of : Option Text → Text
text_of none = []
text_of (some c) = c

-- No carriage return stands in the text.
abbrev pub HasNoReturn : Text → Type 0
HasNoReturn s = All (λ c. c ≢ b'\r') s

abbrev IsNonempty : List Text → Type 0
IsNonempty [] = ⊥
IsNonempty (_ ∷ _) = Unit

append-IsNonempty : (ls : List Text) (t : Text) → IsNonempty (ls ++ t ∷ [])
append-IsNonempty [] t = tt
append-IsNonempty (l ∷ ls) t = tt

module _ (P : Text → Type 0) (t : Text) (p : P t) where
  -- what a replacement yields has a line, and keeps a property of all lines
  abbrev Good : Option (List Text) → Type 0
  Good none = Unit
  Good (some ls) = IsNonempty ls × All P ls

  cons_some-Good : (l : Text) (o : Option (List Text)) → P l → Good o → Good (cons_some l o)
  cons_some-Good l none q h = tt
  cons_some-Good l (some ls) q (_, h) = (tt, (q, h))

  replace_sid-Good : (sid : ℕ) (ls : List Text) → All P ls → Good (replace_sid sid t ls)
  unfolding replace_sid
  replace_sid-Good sid [] h = tt
  replace_sid-Good sid (l ∷ ls) (q, h) =
      ground (arith, cons_some-Good l (replace_sid sid t ls) q (replace_sid-Good sid ls h))

  replace_or_append-Good :
      (ls : List Text) (o : Option (List Text))
      → All P ls
      → Good o
      → Good (some (replace_or_append t ls o))
  replace_or_append-Good ls none h g = (append-IsNonempty ls t, All-append P ls _ h (p, tt))
  replace_or_append-Good ls (some r) h g = g

  apply_sid-Good : (ls : List Text) (o : Option ℕ) → All P ls → Good (some (apply_sid t ls o))
  apply_sid-Good ls none h = (append-IsNonempty ls t, All-append P ls _ h (p, tt))
  apply_sid-Good ls (some sid) h =
      replace_or_append-Good ls (replace_sid sid t ls) h (replace_sid-Good sid ls h)

apply_lines-Good :
    (P : Text → Type 0) (rule : Text) (ls : List Text)
    → P (trim rule)
    → All P ls
    → IsNonempty (apply_lines rule ls) × All P (apply_lines rule ls)
unfolding apply_lines
apply_lines-Good P rule ls p h = elim (Option-cases (parse_suricata_rule rule)) [
  | inl e ↦ rw e (append-IsNonempty ls (trim rule), All-append P ls _ h (p, tt))
  | inr (r, e) ↦ rw e (apply_sid-Good P (trim rule) p ls r.sid h)
]

lines-render : (ls : List Text) → IsNonempty ls → All IsLine ls → lines (render ls) ≡ ls
unfolding render
lines-render [] h k = elim h [ ]
lines-render (l ∷ ls) h k = rw join-unlines (lines-unlines (l ∷ ls) k)

module _ (rule : Text) (clean : IsLine rule) (content : Text) (plain : HasNoReturn content) where
  applied :
      IsNonempty (apply_lines rule (lines content)) × All IsLine (apply_lines rule (lines content))
  applied =
      apply_lines-Good IsLine rule (lines content) (All-trim _ rule clean)
        (lines-IsLine content plain)

  -- the lines that are read back are those that were written
  pub lines-render-apply :
      lines (render (apply_lines rule (lines content))) ≡ apply_lines rule (lines content)
  lines-render-apply = lines-render _ applied.0 applied.1

  pub render_idem :
      (sid : ℕ)
      → sid_of (parse_suricata_rule rule) ≡ some sid
      → render (apply_lines rule (lines (render (apply_lines rule (lines content)))))
        ≡ render (apply_lines rule (lines content))
  render_idem sid h =
      rw lines-render-apply (ap render (apply_lines_idem rule (lines content) sid h))

keep_of-All : (P : Text → Type 0) (p : Text → Bool) (ls : List Text) → All P ls → All P (keep p ls)
unfolding keep
keep_of-All P p [] h = tt
keep_of-All P p (l ∷ ls) (q, h) = ground (arith, keep_of-All P p ls h)

-- What a call that reports success has written.
pub apply_rule_to-ok :
    (h : Host) (rule path : Text) (d : Disk)
    → (apply_rule_to h rule path d).0 ≡ ok tt
    → (apply_rule_to h rule path d).1 ≡ record {
      file = some (render (apply_lines rule (lines (text_of d.file))));
      reloads = reload_suricata h.socket_ok h.signal_ok ∷ d.reloads;
    }
unfolding apply_rule_to load_rules write_rules
apply_rule_to-ok h rule path d e = ground arith

-- Applying a rule with a SID twice, both times with success, leaves the file as after the first
-- time, where neither the rule nor the file holds a carriage return and the rule is one line.
pub apply_rule_to_idem :
    (h h' : Host) (rule path : Text) (d : Disk) (sid : ℕ)
    → IsLine rule
    → HasNoReturn (text_of d.file)
    → sid_of (parse_suricata_rule rule) ≡ some sid
    → (apply_rule_to h rule path d).0 ≡ ok tt
    → (apply_rule_to h' rule path (apply_rule_to h rule path d).1).0 ≡ ok tt
    → (apply_rule_to h' rule path (apply_rule_to h rule path d).1).1.file
      ≡ (apply_rule_to h rule path d).1.file
apply_rule_to_idem h h' rule path d sid clean plain has e e' =
    let once = apply_rule_to-ok h rule path d e in
    let twice = apply_rule_to-ok h' rule path (apply_rule_to h rule path d).1 e' in
    ap (λ (s : Disk). s.file) twice
    ∙ ap (λ (s : Disk). some (render (apply_lines rule (lines (text_of s.file))))) once
    ∙ ap {B = Option Text} some (render_idem rule clean (text_of d.file) plain sid has)
    ∙ sym (ap (λ (s : Disk). s.file) once)

-- A call that reports success on a file with no carriage return leaves exactly the lines that do not
-- parse to a rule from the address, in their order, and asks Suricata for one reload.
pub remove_rule_by_ip_from-ok :
    (h : Host) (ip content : Text) (d : Disk)
    → d.file ≡ some content
    → HasNoReturn content
    → (remove_rule_by_ip_from h ip d).0 ≡ ok tt
    → (lines (text_of (remove_rule_by_ip_from h ip d).1.file)
        ≡ keep (keeps_line ip) (lines content))
      × ((remove_rule_by_ip_from h ip d).1.reloads
          ≡ reload_suricata h.socket_ok h.signal_ok ∷ d.reloads)
unfolding remove_rule_by_ip_from write_rules
remove_rule_by_ip_from-ok h ip content d e plain r =
    let back =
      lines-unlines (keep (keeps_line ip) (lines content))
        (keep_of-All IsLine (keeps_line ip) _ (lines-IsLine content plain)) in
    ground arith

-- A failed call asks for no reload. The file is as it was, unless the write itself failed.
pub apply_rule_to-err :
    (h : Host) (rule path : Text) (d : Disk) (e : Text)
    → (apply_rule_to h rule path d).0 ≡ err e
    → ((apply_rule_to h rule path d).1.reloads ≡ d.reloads)
      × (((apply_rule_to h rule path d).1.file ≡ d.file) ⊎ (h.write_error ≢ none))
unfolding apply_rule_to load_rules write_rules
apply_rule_to-err h rule path d e r = ground arith
