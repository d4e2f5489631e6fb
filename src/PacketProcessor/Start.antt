-- ===== src/PacketProcessor/Start.antt =====
-- packet-processor/src/main.rs, `main`: the settings, which come from the environment.
pub mod Urls
use netsentry_sensor.Common.{
  ℕ, zero, suc, ◌-◌, Option, none, some, List, [], ◌∷◌, ◌++◌, length, unwrap_or, if◌then◌else◌,
  ◌>>=◌, u16_mod, u64_max,
}
use mathlib.Core.List.{reverse}
use netsentry_sensor.Common.Env.{Env, env_or, env_uint_or}
use netsentry_sensor.Common.Text.{Text, codes, starts_with, strip_prefix, parse_uint}

-- `s.replace(from, to)` for a `from` that is not empty; `skip` characters belong to what was replaced
unfoldable pub replace_from : (skip : ℕ) (from to : Text) → Text → Text
unfolding starts_with
replace_from skip from to [] = []
replace_from (suc skip) from to (c ∷ s) = replace_from skip from to s
replace_from zero from to (c ∷ s) =
    let replaced = to ++ replace_from (length from - 1) from to s in
    let kept = c ∷ replace_from zero from to s in
    if starts_with (c ∷ s) from then replaced else kept

-- at most `fuel` times a prefix less
unfoldable pub drop_prefixes : (fuel : ℕ) (s p : Text) → Text
unfolding strip_prefix
drop_prefixes zero s p = s
drop_prefixes (suc fuel) s p = elim (strip_prefix s p) [
  | none ↦ s
  | some t ↦ drop_prefixes fuel t p
]

-- `s.trim_end_matches(p)` for a `p` that is not empty, so that each match makes `s` shorter
unfoldable pub trim_end_matches : (s p : Text) → Text
unfolding drop_prefixes
trim_end_matches s p = reverse (drop_prefixes (length s) (reverse s) (reverse p))

unfoldable pub derived_url : (vps_endpoint : Text) → Text
unfolding replace_from trim_end_matches
derived_url vps_endpoint =
    let base =
      replace_from 0 (codes "http://") (codes "ws://")
        (replace_from 0 (codes "https://") (codes "wss://") vps_endpoint) in
    trim_end_matches base (codes "/api/vps") ++ codes "/ws/packets"

pub record Settings : Type 0 where
  pub capture_interface : Text
  pub api_key : Text
  pub collector_port : ℕ
  pub network_filter_url : Text
  pub ttl_cleanup_interval_secs : ℕ
  pub packet_stream_ws_url : Text

module _ (env : Env) where
  abbrev first_of : (name other : Text) → Option Text
  first_of name other = elim (env name) [ some v ↦ some v | none ↦ env other ]

  unfoldable pub settings : Settings
  unfolding derived_url parse_uint
  settings =
      let vps_endpoint = env_or env (codes "VPS_ENDPOINT") (codes "https://idps.brentweb.eu") in
      record {
        capture_interface = env_or env (codes "CAPTURE_INTERFACE") (codes "eth0");
        api_key = unwrap_or (first_of (codes "API_KEY") (codes "VPS_API_KEY")) [];
        collector_port =
            unwrap_or
              (parse_uint (u16_mod - 1) (env_or env (codes "COLLECTOR_PORT") (codes "8091"))) 8091;
        network_filter_url =
            env_or env (codes "NETWORK_FILTER_URL") (codes "http://localhost:8092/api/v1");
        ttl_cleanup_interval_secs = env_uint_or env u64_max (codes "TTL_CLEANUP_INTERVAL_SECS") 300;
        packet_stream_ws_url = env_or env (codes "PACKET_STREAM_WS_URL") (derived_url vps_endpoint);
      }
