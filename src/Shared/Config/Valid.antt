-- ===== src/Shared/Config/Valid.antt =====
-- Which configurations of the sensor are accepted, and what loading yields.
use netsentry_sensor.Common.{
  ℕ, ◌≤◌, ◌<◌, ◌≡◌, ◌↔◌, ◌⊎◌, true, false, is_empty, arith, ap, inl, inr, Option-cases, u16_mod,
  u32_mod, ◌>>=◌,
}
use netsentry_sensor.Common.Outcome.{ok, err, Result-cases}
use netsentry_sensor.Common.Text.{Text, codes, starts_with, parse_uint, parse_uint-le}
use netsentry_sensor.Shared.Config.{
  EdgeConfig, Outside, validate, when_valid, edge_of_env, from_env, from_yaml_file,
  load_with_fallback, uint_or, u16_max, u32_max,
}

abbrev pub StartsWithEither : (url p q : Text) → Type 0
StartsWithEither url p q = ◌⊎◌ (starts_with url p ≡ true) (starts_with url q ≡ true)

-- what a configuration must be
pub record IsValid (c : EdgeConfig) : Type 0 where
  pub interface_named : is_empty c.pcap_interface ≡ false
  pub vps_ws : StartsWithEither c.vps_ws_url (codes "ws://") (codes "wss://")
  pub vps_packets_ws : StartsWithEither c.vps_packets_ws_url (codes "ws://") (codes "wss://")
  pub network_filter_http :
      StartsWithEither c.network_filter_url (codes "http://") (codes "https://")
  pub rule_engine_http : StartsWithEither c.rule_engine_url (codes "http://") (codes "https://")
  pub mongodb_named : is_empty c.mongodb_uri ≡ false
  pub redis_named : is_empty c.redis_url ≡ false
  pub duration_positive : 1 ≤ c.default_block_duration_hours
  pub port_positive : 1 ≤ c.service_port

validate_complete : (c : EdgeConfig) → validate c ≡ ok tt → IsValid c
unfolding validate
validate_complete c e = record {
  interface_named = ground (arith, e);
  vps_ws = ground (arith, e);
  vps_packets_ws = ground (arith, e);
  network_filter_http = ground (arith, e);
  rule_engine_http = ground (arith, e);
  mongodb_named = ground (arith, e);
  redis_named = ground (arith, e);
  duration_positive = ground (arith, e);
  port_positive = ground (arith, e);
}

validate_sound : (c : EdgeConfig) → IsValid c → validate c ≡ ok tt
unfolding validate
validate_sound c h = ground (
  arith, h.interface_named, h.vps_ws, h.vps_packets_ws, h.network_filter_http, h.rule_engine_http,
  h.mongodb_named, h.redis_named, h.duration_positive, h.port_positive,
)

-- A configuration is accepted exactly if it is valid.
pub validate-IsValid : (c : EdgeConfig) → (validate c ≡ ok tt) ↔ IsValid c
validate-IsValid c = (validate_complete c, validate_sound c)

when_valid-ok :
    (c c' : EdgeConfig) → when_valid validate c ≡ ok c' → (c ≡ c') × (validate c' ≡ ok tt)
when_valid-ok c c' e = elim (Result-cases (validate c)) [
  | inl (u, good) ↦ ground (arith, e, good)
  | inr (x, bad) ↦ absurd (ground (arith, e, bad))
]

uint_or-le :
    {C : Type 0} (o : Outside C) (bound : ℕ) (name : Text) (default : ℕ)
    → default ≤ bound
    → uint_or o bound name default ≤ bound
uint_or-le o bound name default h = elim (Option-cases (o.env name >>= parse_uint bound)) [
  | inl e ↦ ground (arith, e)
  | inr (n, e) ↦ elim (Option-cases (o.env name)) [
    | inl f ↦ ground (arith, f)
    | inr (s, f) ↦ ground (arith, f, e, parse_uint-le bound s n)
  ]
]

from_yaml_file-IsValid :
    (o : Outside EdgeConfig) (path : Text) (c : EdgeConfig)
    → from_yaml_file validate o path ≡ ok c
    → IsValid c
unfolding from_yaml_file
from_yaml_file-IsValid o path c e = elim (Result-cases (o.read_to_string path)) [
  | inr (x, unread) ↦ absurd (ground (arith, e, unread))
  | inl (content, read) ↦ elim (Result-cases (o.from_str content)) [
    | inr (x, bad) ↦ absurd (ground (arith, e, read, bad))
    | inl (c1, parsed) ↦
        let (_, good) = when_valid-ok c1 c (ground (arith, e, read, parsed)) in
        validate_complete c good
  ]
]

from_env-IsValid :
    (o : Outside EdgeConfig) (c : EdgeConfig)
    → from_env o ≡ ok c
    → IsValid c × (c.service_port < u16_mod) × (c.default_block_duration_hours < u32_mod)
unfolding from_env edge_of_env
from_env-IsValid o c e =
    let (same, good) = when_valid-ok (edge_of_env o) c e in
    (
      validate_complete c good,
      ground
          (arith, uint_or-le o u16_max (codes "SERVICE_PORT") 8091, ap (λ x. x.service_port) same),
      ground (
        arith,
        uint_or-le o u32_max (codes "DEFAULT_BLOCK_DURATION_HOURS") 24,
        ap (λ x. x.default_block_duration_hours) same,
      ),
    )

-- A file that can be read and parses to a valid configuration is what is loaded. Only if the file
-- fails it is what the environment has, if that is valid, and then its numbers fit their types; if
-- it is not, loading fails with the message of the environment. Whatever is loaded is valid.
pub load_with_fallback-IsValid :
    (o : Outside EdgeConfig) (path : Text)
    → ((c : EdgeConfig) × (from_yaml_file validate o path ≡ ok c)
        × (load_with_fallback o path ≡ ok c)
        × IsValid c)
      ⊎ ((c : EdgeConfig) × (x : Text) × (from_yaml_file validate o path ≡ err x)
          × (from_env o ≡ ok c)
          × (load_with_fallback o path ≡ ok c)
          × IsValid c
          × (c.service_port < u16_mod)
          × (c.default_block_duration_hours < u32_mod))
      ⊎ ((e : Text) × (x : Text) × (from_yaml_file validate o path ≡ err x)
          × (from_env o ≡ err e)
          × (load_with_fallback o path ≡ err e))
unfolding load_with_fallback
load_with_fallback-IsValid o path = elim (Result-cases (from_yaml_file validate o path)) [
  | inl (c, loaded) ↦
      inl (c, loaded, ground (arith, loaded), from_yaml_file-IsValid o path c loaded)
  | inr (x, bad) ↦ elim (Result-cases (from_env o)) [
    | inl (c, read) ↦
        let (valid, port, hours) = from_env-IsValid o c read in
        inr (inl (c, x, bad, read, ground (arith, bad, read), valid, port, hours))
    | inr (e, failed) ↦ inr (inr (e, x, bad, failed, ground (arith, bad, failed)))
  ]
]
