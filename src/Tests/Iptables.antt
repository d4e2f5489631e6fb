-- ===== src/Tests/Iptables.antt =====
-- A kernel as the list of its rules, with an `iptables` that behaves as documented.
use mathlib.Core.Path.{subst, sym}
use netsentry_sensor.Common.{
  ℕ, ◌+◌, ◌-◌, ◌≡◌, refl, ◌⊎◌, true, false, List, [], ◌∷◌, ◌++◌, arith, ltb, if◌then◌else◌, inl,
  inr,
}
use netsentry_sensor.Common.Outcome.{Result, ok}
use netsentry_sensor.Common.Text.{Text, codes, text_eq, contains, find, starts_with, strip_prefix}
use netsentry_sensor.NetworkFilter.Firewall.{Output, Machine, is_denied}
use netsentry_sensor.NetworkFilter.Firewall.Kernel.{
  rule_eq, rule_eq_iff, host_iptables, used_iptables, IsNsenter, IsUndisturbed, IsIptables,
}

abbrev pub Rules : Type 0
Rules = List (List Text)

abbrev pub count : Rules → List Text → ℕ
count [] r = 0
count (x ∷ xs) r = let rest = count xs r in if rule_eq x r then rest + 1 else rest

abbrev remove_one : List Text → Rules → Rules
remove_one r [] = []
remove_one r (x ∷ xs) = let rest = remove_one r xs in if rule_eq x r then xs else x ∷ rest

abbrev done : Output
done = record { success = true; stderr = [] }

abbrev refused : Output
refused = record { success = false; stderr = codes "Bad rule" }

abbrev run_action : Text → List Text → Rules → Result Output Text × Rules
run_action action r k =
    if text_eq action (codes "-C")
    then (ok (if ltb 0 (count k r) then done else refused), k)
    else if text_eq action (codes "-D")
    then (if ltb 0 (count k r) then (ok done, remove_one r k) else (ok refused, k))
    else (ok done, k ++ r ∷ [])

abbrev exec_rules : Text → List Text → Rules → Result Output Text × Rules
exec_rules program [] k = (ok refused, k)
exec_rules program (action ∷ r) k = run_action action r k

abbrev pub machine : Machine Rules
machine = record {
  exec = exec_rules;
  netns_exists = false;
  netns_path = codes "/host/proc/1/ns/net";
  interface = codes "eth0";
}

count-append :
    (r s : List Text) (k : Rules)
    → count (k ++ r ∷ []) s ≡ (if rule_eq r s then count k s + 1 else count k s)
count-append r s [] = ground arith
count-append r s (x ∷ xs) = ground (arith, count-append r s xs)

count-remove_one :
    (r s : List Text) (k : Rules)
    → ltb 0 (count k r) ≡ true
    → count (remove_one r k) s ≡ (if rule_eq r s then count k s - 1 else count k s)
count-remove_one r s [] h = ground arith
count-remove_one r s (x ∷ xs) h =
    ground (arith, count-remove_one r s xs, rule_eq_iff x r, rule_eq_iff r s, rule_eq_iff x s)

not_denied : (is_denied done.stderr ≡ false) × (is_denied refused.stderr ≡ false)
unfolding is_denied contains find starts_with strip_prefix codes
not_denied = (refl, refl)

checks : text_eq (codes "-C") (codes "-C") ≡ true
unfolding text_eq codes
checks = refl

deletes : (text_eq (codes "-D") (codes "-C") ≡ false) × (text_eq (codes "-D") (codes "-D") ≡ true)
unfolding text_eq codes
deletes = (refl, refl)

adds :
    (action : Text)
    → (action ≡ codes "-I") ⊎ (action ≡ codes "-A")
    → (text_eq action (codes "-C") ≡ false) × (text_eq action (codes "-D") ≡ false)
unfolding text_eq codes
adds action (inl e) =
    subst (λ (a : Text). (text_eq a (codes "-C") ≡ false) × (text_eq a (codes "-D") ≡ false))
      (sym e) (refl, refl)
adds action (inr e) =
    subst (λ (a : Text). (text_eq a (codes "-C") ≡ false) × (text_eq a (codes "-D") ≡ false))
      (sym e) (refl, refl)

machine-IsNsenter : IsNsenter machine true
unfolding host_iptables
machine-IsNsenter = record {
  granted = λ args k k' o e. ground (arith, not_denied);
  refused = λ args k e. absurd (ground arith);
}

pub machine-IsUndisturbed : IsUndisturbed machine true
unfolding used_iptables contains find starts_with strip_prefix codes
machine-IsUndisturbed r k k' o e = ground (arith, checks)

pub machine-IsIptables : IsIptables machine true count
unfolding used_iptables
machine-IsIptables = record {
  nsenter = machine-IsNsenter;
  check_keeps = λ r s k. ground (arith, checks);
  check_tells = λ r k k' o e t. ground (arith, checks);
  check_misses = λ r k k' o e f n. ground (arith, checks);
  add_ok = λ action r s k k' o a e. ground (arith, adds action a, count-append r s k);
  add_err = λ action r s k k' x a e. ground (arith, adds action a);
  delete_ok = λ r s k k' o e. ground (arith, deletes, count-remove_one r s k);
  delete_err = λ r s k k' x e. ground (arith, deletes);
  delete_tells = λ r k k' o e f n. ground (arith, deletes);
}
