-- ===== src/Common/Env.antt =====
-- The environment of a process: `env name` is `std::env::var(name)` where it succeeds.
use mathlib.Core.Option.{Option}
use Prim.Native.Nat.{ℕ}
use netsentry_sensor.Common.Tests.{unwrap_or, ◌>>=◌}
use netsentry_sensor.Common.Text.{Text, parse_uint}

abbrev pub Env : Type 0
Env = Text → Option Text

-- `env::var(name).unwrap_or_else(..)`
abbrev pub env_or : Env → (name default : Text) → Text
env_or env name default = unwrap_or (env name) default

-- with `.ok().and_then(|s| s.parse().ok()).unwrap_or(default)`, for the unsigned type with the largest
-- value `bound`
abbrev pub env_uint_or : Env → (bound : ℕ) (name : Text) (default : ℕ) → ℕ
env_uint_or env bound name default = unwrap_or (env name >>= parse_uint bound) default
