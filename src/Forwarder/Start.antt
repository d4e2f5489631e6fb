-- ===== src/Forwarder/Start.antt =====
-- firewall-forwarder/src/main.rs, `main`: the state at the start, and the loop of the cleanup task.
use netsentry_sensor.Common.{[]}
use netsentry_sensor.Common.Env.{Env, env_or}
use netsentry_sensor.Common.Text.{codes}
use netsentry_sensor.Forwarder.Service.{AppState}

unfoldable pub state : Env → AppState
state env = record {
  firewall_url = env_or env (codes "FIREWALL_API_URL") (codes "http://192.168.1.1");
  firewall_api_key = env_or env (codes "FIREWALL_API_KEY") [];
  blocked_ips = [];
}
