-- ===== src/NetworkFilter/Firewall/Kernel.antt =====
-- The firewall commands over a machine on which `iptables` behaves as documented.
use netsentry_sensor.Common.{
  ℕ, ◌+◌, ◌-◌, ◌<◌, ◌≡◌, refl, ◌∙◌, ◌↔◌, ◌⊎◌, Bool, true, false, ◌&&◌, ◌||◌, List, [], ◌∷◌, ◌++◌,
  arith, if◌then◌else◌, Bool-cases, inl, inr,
}
use netsentry_sensor.Common.Outcome.{Result, ok, err}
use netsentry_sensor.Common.Text.{Text, codes, text_eq, text_eq_iff, contains}
use netsentry_sensor.NetworkFilter.Firewall.{
  Output, Machine, RuleSpec, docker_user, Run, is_denied, run_iptables_command, after_add,
  apply_spec, ◌>>=◌,
}

-- A rule with its chain, as it stands on a command line.
abbrev pub rule_of : RuleSpec → List Text
rule_of spec = spec.chain ∷ spec.args

unfoldable pub rule_eq : List Text → List Text → Bool
rule_eq [] [] = true
rule_eq [] (_ ∷ _) = false
rule_eq (_ ∷ _) [] = false
rule_eq (a ∷ r) (b ∷ s) = text_eq a b && rule_eq r s

pub rule_eq_iff : (r s : List Text) → (rule_eq r s ≡ true) ↔ (r ≡ s)
unfolding rule_eq
rule_eq_iff [] [] = ground arith
rule_eq_iff [] (b ∷ s) = ground arith
rule_eq_iff (a ∷ r) [] = ground arith
rule_eq_iff (a ∷ r) (b ∷ s) = ground (arith, rule_eq_iff r s, text_eq_iff a b)

-- `iptables` in the namespace of the host, by way of `nsenter`
unfoldable pub host_iptables : {K : Type 0} → Machine K → List Text → Run K Output
host_iptables m args =
    m.exec (codes "nsenter") ((codes "--net=" ++ m.netns_path) ∷ codes "iptables" ∷ args)

-- `iptables` in the namespace in which the service ends up: that of the host where its file exists
-- and the service may enter it (`enters`), else the service's own.
unfoldable pub used_iptables : {K : Type 0} → Machine K → (enters : Bool) → List Text → Run K Output
unfolding host_iptables
used_iptables m enters args =
    if m.netns_exists && enters then host_iptables m args else m.exec (codes "iptables") args

-- What the output says that a deletion found no rule.
abbrev pub finds_no_rule : Output → Bool
finds_no_rule o =
    contains o.stderr (codes "No chain/target/match") || contains o.stderr (codes "Bad rule")

-- What `nsenter` does by the rights of the service: without them it says so and runs nothing, with
-- them the output is that of `iptables`, which is not denied either.
pub record IsNsenter {K : Type 0} (m : Machine K) (enters : Bool) : Type 0 where
  pub granted :
      (args : List Text) (k k' : K) (o : Output)
      → enters ≡ true
      → host_iptables m args k ≡ (ok o, k')
      → is_denied o.stderr ≡ false
  pub refused :
      (args : List Text) (k : K)
      → enters ≡ false
      → (o : Output) × (host_iptables m args k ≡ (ok o, k)) × (is_denied o.stderr ≡ true)

-- `count k r` is how often the rule `r` stands in the namespace that is used. A `-C` that succeeds
-- found the rule, and one that fails and says that there is none did not, while one that fails for
-- another reason, such as a lock, tells nothing. `-I` and `-A` add one copy, `-D` takes one away, and
-- a failed command changes nothing.
pub record IsIptables {K : Type 0} (m : Machine K) (enters : Bool) (count : K → List Text → ℕ)
    : Type 0 where
  pub nsenter : IsNsenter m enters
  pub check_keeps :
      (r s : List Text) (k : K) → count (used_iptables m enters (codes "-C" ∷ r) k).1 s ≡ count k s
  pub check_tells :
      (r : List Text) (k k' : K) (o : Output)
      → used_iptables m enters (codes "-C" ∷ r) k ≡ (ok o, k')
      → o.success ≡ true
      → 0 < count k r
  pub check_misses :
      (r : List Text) (k k' : K) (o : Output)
      → used_iptables m enters (codes "-C" ∷ r) k ≡ (ok o, k')
      → o.success ≡ false
      → finds_no_rule o ≡ true
      → count k r ≡ 0
  pub add_ok :
      (action : Text) (r s : List Text) (k k' : K) (o : Output)
      → (action ≡ codes "-I") ⊎ (action ≡ codes "-A")
      → used_iptables m enters (action ∷ r) k ≡ (ok o, k')
      → count k' s ≡ (if o.success && rule_eq r s then count k s + 1 else count k s)
  pub add_err :
      (action : Text) (r s : List Text) (k k' : K) (e : Text)
      → (action ≡ codes "-I") ⊎ (action ≡ codes "-A")
      → used_iptables m enters (action ∷ r) k ≡ (err e, k')
      → count k' s ≡ count k s
  pub delete_ok :
      (r s : List Text) (k k' : K) (o : Output)
      → used_iptables m enters (codes "-D" ∷ r) k ≡ (ok o, k')
      → count k' s ≡ (if o.success && rule_eq r s then count k s - 1 else count k s)
  pub delete_err :
      (r s : List Text) (k k' : K) (e : Text)
      → used_iptables m enters (codes "-D" ∷ r) k ≡ (err e, k')
      → count k' s ≡ count k s
  pub delete_tells :
      (r : List Text) (k k' : K) (o : Output)
      → used_iptables m enters (codes "-D" ∷ r) k ≡ (ok o, k')
      → o.success ≡ false
      → finds_no_rule o ≡ true
      → count k r ≡ 0

-- Each action that `rule_specs` names is an insertion or an append.
abbrev pub IsAdd : RuleSpec → Type 0
IsAdd spec = (spec.insert_action ≡ codes "-I") ⊎ (spec.insert_action ≡ codes "-A")

abbrev pub is_ok : {A : Type 0} → Result A Text → Bool
is_ok (ok _) = true
is_ok (err _) = false

pub Run-cases :
    {K A : Type 0} (x : Result A Text × K)
    → ((a : A) × (k : K) × (x ≡ (ok a, k))) ⊎ ((e : Text) × (k : K) × (x ≡ (err e, k)))
Run-cases (ok a, k) = inl (a, k, refl)
Run-cases (err e, k) = inr (e, k, refl)

after_add-kernel :
    {K : Type 0} (ip chain : Text) (o : Output) (k : K) → (after_add ip chain o k).1 ≡ k
unfolding after_add
after_add-kernel ip chain o k = ground arith

after_add-ok :
    {K : Type 0} (ip chain : Text) (o : Output) (k : K)
    → is_ok (after_add ip chain o k).0 ≡ true
    → text_eq chain docker_user ≡ false
    → o.success ≡ true
unfolding after_add
after_add-ok ip chain o k h other = ground arith

-- Each check that fails says that there is no such rule: none is kept from its answer, by a lock say.
abbrev pub IsUndisturbed : {K : Type 0} → Machine K → Bool → Type 0
IsUndisturbed {K} m enters =
    (r : List Text) (k k' : K) (o : Output)
    → used_iptables m enters (codes "-C" ∷ r) k ≡ (ok o, k')
    → o.success ≡ false
    → finds_no_rule o ≡ true

module _ {K : Type 0} (m : Machine K) (enters : Bool) (count : K → List Text → ℕ)
    (laws : IsIptables m enters count) where
  -- the fallback is taken exactly where the service may not enter the host's namespace
  pub run-used :
      (args : List Text) (k : K) → run_iptables_command m args k ≡ used_iptables m enters args k
  unfolding run_iptables_command used_iptables host_iptables
  run-used args k = elim (Bool-cases enters) [
    | inl e ↦ elim (Run-cases (host_iptables m args k)) [
      | inl (o, k', f) ↦ ground (arith, e, f, laws.nsenter.granted args k k' o e f)
      | inr (x, k', f) ↦ ground (arith, e, f)
    ]
    | inr e ↦ ground (arith, e, laws.nsenter.refused args k e)
  ]

  -- What one round does: it adds a copy of its rule (`b`), only where there was none, or nothing.
  abbrev pub AddEffect : RuleSpec → K → Result (Unit {0}) Text × K → Type 0
  AddEffect spec k (r, k') =
      (b : Bool) × ((s : List Text)
        → count k' s ≡ (if b && rule_eq (rule_of spec) s then count k s + 1 else count k s))
      × (IsUndisturbed m enters → b ≡ true → count k (rule_of spec) ≡ 0)
      × (is_ok r ≡ true
          → text_eq spec.chain docker_user ≡ false
          → (b ≡ true) ⊎ (0 < count k (rule_of spec)))

  after_add-effect :
      (ip : Text) (spec : RuleSpec) (k k1 : K)
      → IsAdd spec
      → ((s : List Text) → count k1 s ≡ count k s)
      → (IsUndisturbed m enters → count k (rule_of spec) ≡ 0)
      → AddEffect spec k (
          (run_iptables_command m (spec.insert_action ∷ rule_of spec) >>= after_add ip spec.chain)
            k1)
  after_add-effect ip spec k k1 add same absent =
      rw run-used
        (elim (Run-cases (used_iptables m enters (spec.insert_action ∷ rule_of spec) k1)) [
          | inl (o, k2, e) ↦ rw e (
            o.success,
            λ s.
                rw (after_add-kernel ip spec.chain o k2)
                  (ground (arith, laws.add_ok _ _ s k1 k2 o add e, same s)),
            λ calm h. absent calm,
            λ h other. inl (after_add-ok ip spec.chain o k2 h other),
          )
          | inr (x, k2, e) ↦
              rw e (false, λ s. laws.add_err _ _ s k1 k2 x add e ∙ same s, λ calm h. cc, λ h. cc)
        ])

  pub apply_spec-effect :
      (ip : Text) (spec : RuleSpec) (k : K) → IsAdd spec → AddEffect spec k (apply_spec m ip spec k)
  unfolding apply_spec
  apply_spec-effect ip spec k add =
      rw run-used (elim (Run-cases (used_iptables m enters (codes "-C" ∷ rule_of spec) k)) [
        | inl (o, k1, e) ↦
            let same : (s : List Text) → count k1 s ≡ count k s =
              λ s. rw e at (laws.check_keeps (rule_of spec) s k) in
            elim (Bool-cases o.success) [
              | inl t ↦
                  rw (e, t)
                    (
                      false,
                      same,
                      λ calm h. cc,
                      λ h other. inr (laws.check_tells (rule_of spec) k k1 o e t),
                    )
              | inr f ↦
                  rw (e, f)
                    (after_add-effect ip spec k k1 add same (λ calm.
                      laws.check_misses (rule_of spec) k k1 o e f (calm (rule_of spec) k k1 o e f)))
            ]
        | inr (x, k1, e) ↦
            rw e (false, λ s. rw e at (laws.check_keeps (rule_of spec) s k), λ calm h. cc, λ h. cc)
      ])
