-- ===== src/NetworkFilter/Firewall/Blocks.antt =====
-- Blocking and unblocking an address in the kernel, as a whole.
use netsentry_sensor.Common.{
  ℕ, ◌≤◌, ◌<◌, ◌≡◌, refl, ap, sym, ◌⊎◌, Bool, true, false, Bool-cases, List, [], ◌∷◌, arith, All,
  inl, inr,
}
use mathlib.Core.Path.{subst}
use netsentry_sensor.Common.Outcome.{Result, ok, err}
use netsentry_sensor.Common.Text.{Text, text_eq}
use netsentry_sensor.NetworkFilter.Firewall.{
  Machine, RuleSpec, docker_user, rule_specs, apply_spec, apply_specs, apply_iptables_block,
}
use netsentry_sensor.NetworkFilter.Firewall.Kernel.{
  IsIptables, IsUndisturbed, IsAdd, is_ok, rule_of, rule_eq_iff, Run-cases, apply_spec-effect,
}

module _ {K : Type 0} (m : Machine K) (enters : Bool) (count : K → List Text → ℕ)
    (laws : IsIptables m enters count) where
  spec_grows :
      (ip : Text) (spec : RuleSpec) (k : K) (s : List Text)
      → IsAdd spec
      → count k s ≤ count (apply_spec m ip spec k).1 s
  spec_grows ip spec k s add =
      let (b, counts, absent, present) = apply_spec-effect m enters count laws ip spec k add in
      ground (arith, counts s)

  spec_single :
      (ip : Text) (spec : RuleSpec) (k : K) (s : List Text)
      → IsUndisturbed m enters
      → IsAdd spec
      → count k s ≤ 1
      → count (apply_spec m ip spec k).1 s ≤ 1
  spec_single ip spec k s calm add h =
      let (b, counts, absent, present) = apply_spec-effect m enters count laws ip spec k add in
      ground (arith, counts s, absent calm, rule_eq_iff (rule_of spec) s)

  spec_installs :
      (ip : Text) (spec : RuleSpec) (k : K)
      → IsAdd spec
      → is_ok (apply_spec m ip spec k).0 ≡ true
      → text_eq spec.chain docker_user ≡ false
      → 0 < count (apply_spec m ip spec k).1 (rule_of spec)
  spec_installs ip spec k add h other =
      let (b, counts, absent, present) = apply_spec-effect m enters count laws ip spec k add in
      ground
        (arith, counts (rule_of spec), present h other, rule_eq_iff (rule_of spec) (rule_of spec))

  module _ (ip : Text) where
    specs_grow :
        (specs : List RuleSpec) (k : K) (s : List Text)
        → All IsAdd specs
        → count k s ≤ count (apply_specs m ip specs k).1 s
    unfolding apply_specs
    specs_grow [] k s h = omega arith
    specs_grow (spec ∷ specs) k s (add, h) = elim (Run-cases (apply_spec m ip spec k)) [
      | inl (u, k1, e) ↦
          let first = rw e at (spec_grows ip spec k s add) in
          rw e (omega (arith, first, specs_grow specs k1 s h))
      | inr (x, k1, e) ↦ rw e (rw e at (spec_grows ip spec k s add))
    ]

    specs_single :
        (specs : List RuleSpec) (k : K) (s : List Text)
        → IsUndisturbed m enters
        → All IsAdd specs
        → count k s ≤ 1
        → count (apply_specs m ip specs k).1 s ≤ 1
    unfolding apply_specs
    specs_single [] k s calm h c = c
    specs_single (spec ∷ specs) k s calm (add, h) c = elim (Run-cases (apply_spec m ip spec k)) [
      | inl (u, k1, e) ↦
          rw e (specs_single specs k1 s calm h (rw e at (spec_single ip spec k s calm add c)))
      | inr (x, k1, e) ↦ rw e (rw e at (spec_single ip spec k s calm add c))
    ]

    -- the rule stands in the kernel, unless it is for the chain of Docker
    abbrev pub IsInstalled : K → RuleSpec → Type 0
    IsInstalled k spec = (text_eq spec.chain docker_user ≡ true) ⊎ (0 < count k (rule_of spec))

    first :
        (spec : RuleSpec) (k : K) {k1 : K} {u : Unit {0}}
        → IsAdd spec
        → apply_spec m ip spec k ≡ (ok u, k1)
        → IsInstalled k1 spec
    first spec k add e = elim (Bool-cases (text_eq spec.chain docker_user)) [
      | inl docker ↦ inl docker
      | inr other ↦ inr (
          rw e at (
            spec_installs ip spec k add (ap (λ (x : Result (Unit {0}) Text × K). is_ok x.0) e)
              other))
    ]

    -- more rules take nothing away
    later :
        (spec : RuleSpec) (specs : List RuleSpec) (k : K)
        → All IsAdd specs
        → IsInstalled k spec
        → IsInstalled (apply_specs m ip specs k).1 spec
    later spec specs k h (inl docker) = inl docker
    later spec specs k h (inr there) =
        inr (omega (arith, there, specs_grow specs k (rule_of spec) h))

    apply_specs-cons :
        (spec : RuleSpec) (specs : List RuleSpec) (k : K) {k1 : K} {u : Unit {0}}
        → apply_spec m ip spec k ≡ (ok u, k1)
        → apply_specs m ip (spec ∷ specs) k ≡ apply_specs m ip specs k1
    unfolding apply_specs
    apply_specs-cons spec specs k e = rw e

    apply_specs-cons_err :
        (spec : RuleSpec) (specs : List RuleSpec) (k : K) {k1 : K} {x : Text}
        → apply_spec m ip spec k ≡ (err x, k1)
        → apply_specs m ip (spec ∷ specs) k ≡ (err x, k1)
    unfolding apply_specs
    apply_specs-cons_err spec specs k e = rw e

    specs_install :
        (specs : List RuleSpec) (k : K)
        → All IsAdd specs
        → is_ok (apply_specs m ip specs k).0 ≡ true
        → All (IsInstalled (apply_specs m ip specs k).1) specs
    specs_install [] k h r = tt
    specs_install (spec ∷ specs) k (add, h) r = elim (Run-cases (apply_spec m ip spec k)) [
      | inl (u, k1, e) ↦
          let step = apply_specs-cons spec specs k e in
          subst
            (λ (x : Result (Unit {0}) Text × K). IsInstalled x.1 spec × All (IsInstalled x.1) specs)
            (sym step)
            (later spec specs k1 h (first spec k add e), specs_install specs k1 h (rw step at r))
      | inr (x, k1, e) ↦ let f : false ≡ true = rw (apply_specs-cons_err spec specs k e) at r in cc
    ]

  specs_IsAdd : (ip : Text) → All IsAdd (rule_specs m.interface ip)
  unfolding rule_specs
  specs_IsAdd ip = (inl refl, (inl refl, (inr refl, (inr refl, (inr refl, (inr refl, tt))))))

  -- Where `nsenter` and `iptables` behave as documented and no check for a rule fails for another
  -- reason than that there is none: blocking an address, whatever its outcome, takes no rule of any
  -- address out of the namespace that is used, that of the host or the service's own, and adds no
  -- second copy of a rule.
  pub apply_iptables_block-adds_once :
      (ip : Text) (k : K) (s : List Text)
      → IsUndisturbed m enters
      → count k s ≤ 1
      → (count k s ≤ count (apply_iptables_block m ip k).1 s)
        × (count (apply_iptables_block m ip k).1 s ≤ 1)
  unfolding apply_iptables_block
  apply_iptables_block-adds_once ip k s calm h =
      (specs_grow ip _ k s (specs_IsAdd ip), specs_single ip _ k s calm (specs_IsAdd ip) h)

  -- Where `nsenter` and `iptables` behave as documented and blocking an address succeeds, each rule of
  -- `rule_specs`, but for those of the chain DOCKER-USER, stands in the namespace that is used: that
  -- of the host, or the service's own where the host's has no file or may not be entered.
  pub apply_iptables_block-installs :
      (ip : Text) (k : K)
      → is_ok (apply_iptables_block m ip k).0 ≡ true
      → All (IsInstalled ip (apply_iptables_block m ip k).1) (rule_specs m.interface ip)
  unfolding apply_iptables_block
  apply_iptables_block-installs ip k r = specs_install ip _ k (specs_IsAdd ip) r
