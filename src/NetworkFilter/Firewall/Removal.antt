-- ===== src/NetworkFilter/Firewall/Removal.antt =====
-- Unblocking an address in the kernel, as a whole.
use netsentry_sensor.Common.{
  ℕ, ◌≤◌, ◌≡◌, ap, sym, ◌⊎◌, Bool, true, false, List, [], ◌∷◌, arith, All, inl, inr,
}
use mathlib.Core.Path.{subst}
use netsentry_sensor.Common.Outcome.{Result, ok, err}
use netsentry_sensor.Common.Text.{Text, codes}
use netsentry_sensor.NetworkFilter.Firewall.{
  Output, Machine, RuleSpec, rule_specs, apply_iptables_block, after_delete, remove_spec,
  remove_specs, remove_iptables_block,
}
use netsentry_sensor.NetworkFilter.Firewall.Kernel.{
  IsIptables, IsUndisturbed, is_ok, rule_of, rule_eq_iff, used_iptables, finds_no_rule, Run-cases,
  run-used,
}
use netsentry_sensor.NetworkFilter.Firewall.Blocks.{apply_iptables_block-adds_once}

after_delete-kernel :
    {K : Type 0} (ip chain : Text) (o : Output) (k : K) → (after_delete ip chain o k).1 ≡ k
unfolding after_delete
after_delete-kernel ip chain o k = ground arith

after_delete-ok :
    {K : Type 0} (ip chain : Text) (o : Output) (k : K)
    → is_ok (after_delete ip chain o k).0 ≡ true
    → (o.success ≡ true) ⊎ ((o.success ≡ false) × (finds_no_rule o ≡ true))
unfolding after_delete
after_delete-ok ip chain o k h = ground arith

module _ {K : Type 0} (m : Machine K) (enters : Bool) (count : K → List Text → ℕ)
    (laws : IsIptables m enters count) where
  deleted :
      (ip : Text) (spec : RuleSpec) (k k1 : K) (o : Output)
      → used_iptables m enters (codes "-D" ∷ rule_of spec) k ≡ (ok o, k1)
      → is_ok (after_delete ip spec.chain o k1).0 ≡ true
      → count k (rule_of spec) ≤ 1
      → count k1 (rule_of spec) ≡ 0
  deleted ip spec k k1 o e h single = ground (
    arith,
    after_delete-ok ip spec.chain o k1 h,
    laws.delete_tells (rule_of spec) k k1 o e,
    laws.delete_ok (rule_of spec) (rule_of spec) k k1 o e,
    rule_eq_iff (rule_of spec) (rule_of spec),
  )

  -- what one round of the removal does
  abbrev Removal : RuleSpec → K → Result (Unit {0}) Text × K → Type 0
  Removal spec k (r, k') =
      ((s : List Text) → count k' s ≤ count k s)
      × (is_ok r ≡ true → count k (rule_of spec) ≤ 1 → count k' (rule_of spec) ≡ 0)

  remove_spec-effect :
      (ip : Text) (spec : RuleSpec) (k : K) → Removal spec k (remove_spec m ip spec k)
  unfolding remove_spec
  remove_spec-effect ip spec k =
      rw (run-used m enters count laws)
        (elim (Run-cases (used_iptables m enters (codes "-D" ∷ rule_of spec) k)) [
          | inl (o, k1, e) ↦ rw e (
            (λ s.
                rw (after_delete-kernel ip spec.chain o k1)
                  (ground (arith, laws.delete_ok (rule_of spec) s k k1 o e))),
            λ h single.
                rw (after_delete-kernel ip spec.chain o k1) (deleted ip spec k k1 o e h single),
          )
          | inr (x, k1, e) ↦
              rw e (λ s. omega (arith, laws.delete_err (rule_of spec) s k k1 x e), λ h. cc)
        ])

  module _ (ip : Text) where
    specs_shrink :
        (specs : List RuleSpec) (k : K) (s : List Text)
        → count (remove_specs m ip specs k).1 s ≤ count k s
    unfolding remove_specs
    specs_shrink [] k s = omega arith
    specs_shrink (spec ∷ specs) k s = elim (Run-cases (remove_spec m ip spec k)) [
      | inl (u, k1, e) ↦
          let first = rw e at ((remove_spec-effect ip spec k).0 s) in
          rw e (omega (arith, first, specs_shrink specs k1 s))
      | inr (x, k1, e) ↦ rw e (rw e at ((remove_spec-effect ip spec k).0 s))
    ]

    abbrev pub IsGone : K → RuleSpec → Type 0
    IsGone k spec = count k (rule_of spec) ≡ 0

    remove_specs-cons :
        (spec : RuleSpec) (specs : List RuleSpec) (k : K) {k1 : K} {u : Unit {0}}
        → remove_spec m ip spec k ≡ (ok u, k1)
        → remove_specs m ip (spec ∷ specs) k ≡ remove_specs m ip specs k1
    unfolding remove_specs
    remove_specs-cons spec specs k e = rw e

    remove_specs-cons_err :
        (spec : RuleSpec) (specs : List RuleSpec) (k : K) {k1 : K} {x : Text}
        → remove_spec m ip spec k ≡ (err x, k1)
        → remove_specs m ip (spec ∷ specs) k ≡ (err x, k1)
    unfolding remove_specs
    remove_specs-cons_err spec specs k e = rw e

    removed :
        (spec : RuleSpec) (k : K) {k1 : K} {u : Unit {0}}
        → remove_spec m ip spec k ≡ (ok u, k1)
        → count k (rule_of spec) ≤ 1
        → count k1 (rule_of spec) ≡ 0
    removed spec k e single = rw e at (
        (remove_spec-effect ip spec k).1 (ap (λ (x : Result (Unit {0}) Text × K). is_ok x.0) e)
          single)

    specs_remove :
        (specs : List RuleSpec) (k : K)
        → ((s : List Text) → count k s ≤ 1)
        → is_ok (remove_specs m ip specs k).0 ≡ true
        → All (IsGone (remove_specs m ip specs k).1) specs
    specs_remove [] k single r = tt
    specs_remove (spec ∷ specs) k single r = elim (Run-cases (remove_spec m ip spec k)) [
      | inl (u, k1, e) ↦
          let less : (s : List Text) → count k1 s ≤ count k s =
            λ s. rw e at ((remove_spec-effect ip spec k).0 s) in
          let gone = removed spec k e (single (rule_of spec)) in
          let step = remove_specs-cons spec specs k e in
          subst (λ (x : Result (Unit {0}) Text × K). IsGone x.1 spec × All (IsGone x.1) specs)
            (sym step)
            (
              omega (arith, gone, specs_shrink specs k1 (rule_of spec)),
              specs_remove specs k1 (λ s. omega (arith, less s, single s)) (rw step at r),
            )
      | inr (x, k1, e) ↦ let f : false ≡ true = rw (remove_specs-cons_err spec specs k e) at r in cc
    ]

  -- Where `nsenter` and `iptables` behave as documented and no check for a rule fails for another
  -- reason than that there is none: after blocking an address, whatever came of it, a successful
  -- unblocking leaves no rule of `rule_specs` in the namespace that is used, that of the host or the
  -- service's own, if none stood there twice before.
  pub remove-apply_iptables_block :
      (ip : Text) (k : K)
      → IsUndisturbed m enters
      → ((s : List Text) → count k s ≤ 1)
      → is_ok (remove_iptables_block m ip (apply_iptables_block m ip k).1).0 ≡ true
      → All
          (IsGone ip (remove_iptables_block m ip (apply_iptables_block m ip k).1).1)
          (rule_specs m.interface ip)
  unfolding remove_iptables_block
  remove-apply_iptables_block ip k calm single r =
      specs_remove ip _ _
        (λ s. (apply_iptables_block-adds_once m enters count laws ip k s calm (single s)).1) r
