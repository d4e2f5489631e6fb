-- ===== src/Forwarder/Address.antt =====
-- firewall-forwarder/src/main.rs, `normalize_ipv4_target`.
use netsentry_sensor.Common.{
  ℕ, ◌≡◌, Option, none, some, [], ◌∷◌, arith, unwrap_or, Option-cases, inl, inr,
}
use mathlib.Core.Option
use mathlib.Core.Path.{subst}
use netsentry_sensor.Common.Ipv4.{
  Ipv4, IsAddress, print_ip, parse_ip, parse-print_ip, parse_ip-IsAddress, print_ip-solid,
}
use netsentry_sensor.Common.Text.{Text, codes, trim, trim-solid, strip_prefix, split}

-- `split(sep).next()`, which the source asks of a split that is never empty
abbrev pub first_part : ℕ → Text → Text
first_part sep s = elim (split sep s) [ [] ↦ s | p ∷ _ ↦ p ]

-- `a.or_else(|| b)`
abbrev pub or_else : {A : Type 0} → Option A → Option A → Option A
or_else none o = o
or_else (some x) o = some x

-- the host of an address with a scheme, a path or a port
unfoldable pub host_of : Text → Text
unfolding strip_prefix split
host_of trimmed =
    let host =
      unwrap_or
        (or_else (strip_prefix trimmed (codes "http://")) (strip_prefix trimmed (codes "https://")))
        trimmed in
    first_part b':' (first_part b'/' host)

unfoldable pub normalize_ipv4_target : Text → Option Text
unfolding trim host_of
normalize_ipv4_target value = elim (parse_ip (trim value)) [
  | some ip ↦ some (print_ip ip)
  | none ↦ Option.map print_ip (parse_ip (host_of (trim value)))
]

-- the texts that addresses are printed as
abbrev pub IsCanonical : Text → Type 0
IsCanonical s = (ip : Ipv4) × IsAddress ip × (print_ip ip ≡ s)

normalize_ipv4_target-print_ip :
    (ip : Ipv4) → IsAddress ip → normalize_ipv4_target (print_ip ip) ≡ some (print_ip ip)
unfolding normalize_ipv4_target
normalize_ipv4_target-print_ip ip h =
    ground (arith, trim-solid (print_ip ip) (print_ip-solid ip h), parse-print_ip ip h)

pub normalize_ipv4_target-IsCanonical :
    (value s : Text) → normalize_ipv4_target value ≡ some s → IsCanonical s
unfolding normalize_ipv4_target
normalize_ipv4_target-IsCanonical value s e = elim (Option-cases (parse_ip (trim value))) [
  | inr (ip, direct) ↦ (ip, parse_ip-IsAddress (trim value) ip direct, ground (arith, direct))
  | inl missing ↦ elim (Option-cases (parse_ip (host_of (trim value)))) [
    | inr (ip, host) ↦
        (ip, parse_ip-IsAddress (host_of (trim value)) ip host, ground (arith, missing, host))
    | inl bad ↦ absurd (ground (arith, missing, bad))
  ]
]

-- What comes out is an address as it is printed, and normalising it again changes nothing.
pub normalize_ipv4_target_idem :
    (value s : Text)
    → normalize_ipv4_target value ≡ some s
    → IsCanonical s × (normalize_ipv4_target s ≡ some s)
normalize_ipv4_target_idem value s e =
    let (ip, h, printed) = normalize_ipv4_target-IsCanonical value s e in
    (
      (ip, h, printed),
      subst (λ t. normalize_ipv4_target t ≡ some t) printed (normalize_ipv4_target-print_ip ip h),
    )
