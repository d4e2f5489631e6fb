-- ===== src/RuleEngine/Start.antt =====
-- rule-engine/src/main.rs, `main`: the port.
use netsentry_sensor.Common.{ℕ, ◌-◌, u16_mod}
use netsentry_sensor.Common.Env.{Env, env_uint_or}
use netsentry_sensor.Common.Text.{codes}

unfoldable pub port : Env → ℕ
port env = env_uint_or env (u16_mod - 1) (codes "RULE_ENGINE_PORT") 8094
