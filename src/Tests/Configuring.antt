-- ===== src/Tests/Configuring.antt =====
-- The shared configuration and the retries at concrete inputs.
use netsentry_sensor.Common.{
  ℕ, ◌+◌, ◌*◌, ◌%◌, ◌≤◌, ◌<◌, ◌≡◌, refl, ◌⊎◌, none, some, List, [], ◌∷◌, ◌++◌, length, All, arith,
  leb, if◌then◌else◌, u16_mod, u32_mod, u64_mod,
}
use netsentry_sensor.Common.Outcome.{Result, ok, err}
use netsentry_sensor.Common.Text.{Text, codes, print_uint, text_eq}
use netsentry_sensor.Shared.Config.{
  EdgeConfig, Outside, validate, from_env, from_yaml_file, load_with_fallback,
}
use netsentry_sensor.Shared.Config.Durations.{
  parse_duration_seconds, parse_duration_seconds-print_uint,
}
use netsentry_sensor.Shared.Config.Valid.{IsValid, load_with_fallback-IsValid}
use netsentry_sensor.Shared.Utils.{Retried, retry_with_backoff}
use netsentry_sensor.Shared.Utils.Retries.{tries, retry_with_backoff-tries}

parse_duration_seconds-print_uint_example :
    (parse_duration_seconds (λ s. s) (print_uint 24 ++ b'h' ∷ []) ≡ ok (24 * 3600 % u64_mod))
    × (parse_duration_seconds (λ s. s) (print_uint 24 ++ b'm' ∷ []) ≡ ok (24 * 60 % u64_mod))
    × (parse_duration_seconds (λ s. s) (print_uint 24 ++ b's' ∷ []) ≡ ok 24)
parse_duration_seconds-print_uint_example =
    parse_duration_seconds-print_uint (λ s. s) 24 (omega arith) (λ c from to. refl)

-- no file, and a port in the environment
abbrev outside : Outside EdgeConfig
outside = record {
  env = λ name. if text_eq name (codes "SERVICE_PORT") then some (codes "9000") else none;
  read_to_string = λ path. err (codes "not found");
  from_str = λ s. err (codes "bad");
}

abbrev path : Text
path = codes "/etc/edge.yaml"

load_with_fallback-IsValid_example :
    ((c : EdgeConfig) × (from_yaml_file validate outside path ≡ ok c)
      × (load_with_fallback outside path ≡ ok c)
      × IsValid c)
    ⊎ ((c : EdgeConfig) × (x : Text) × (from_yaml_file validate outside path ≡ err x)
        × (from_env outside ≡ ok c)
        × (load_with_fallback outside path ≡ ok c)
        × IsValid c
        × (c.service_port < u16_mod)
        × (c.default_block_duration_hours < u32_mod))
    ⊎ ((e : Text) × (x : Text) × (from_yaml_file validate outside path ≡ err x)
        × (from_env outside ≡ err e)
        × (load_with_fallback outside path ≡ err e))
load_with_fallback-IsValid_example = load_with_fallback-IsValid outside path

-- an operation that succeeds from its third call on
abbrev third : ℕ → Result ℕ Text × ℕ
third n = if leb 2 n then (ok n, n + 1) else (err (codes "refused"), n + 1)

retry_with_backoff-tries_example :
    (waits : List ℕ) × (retry_with_backoff third 5 100000000 10000000 0
      ≡ Retried.returned (tries third 4 0).0 (tries third 4 0).1 waits)
    × (length waits ≤ 4)
    × All (λ w. w ≤ 100) waits
retry_with_backoff-tries_example =
    retry_with_backoff-tries third 5 10000000 100000000 100000000 0 (omega arith) (omega arith)
      (omega arith) (omega arith)
