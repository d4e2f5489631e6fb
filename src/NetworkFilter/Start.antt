-- ===== src/NetworkFilter/Start.antt =====
-- network-filter/src/main.rs: the configuration, and the start: the blocks of the database are
-- restored before requests are served, and a failure of that is only logged.
pub mod Survival
use netsentry_sensor.Common.{ℕ, true, Option, none, some, List, []}
use netsentry_sensor.Common.Env.{Env, env_or}
use netsentry_sensor.Common.Text.{Text, codes}
use netsentry_sensor.NetworkFilter.Api.Documents.{Database}
use netsentry_sensor.NetworkFilter.Api.Startup.{RestoreClock, restore_active_blocks}
use netsentry_sensor.NetworkFilter.Filter.{Times}
use netsentry_sensor.NetworkFilter.Firewall.{Machine}
use netsentry_sensor.NetworkFilter.State.{FilterConfig, World, new}

unfoldable pub filter_config : FilterConfig
filter_config = record {
  vps_timeout_ms = 50;
  block_duration_hours = 24;
  trust_duration_minutes = 60;
  trust_threshold_packets = 100;
  max_processing_time_ms = 30;
  enable_adaptive_learning = true;
}

unfoldable pub mongo_uri : Env → Text
mongo_uri env = env_or env (codes "MONGODB_URI") (codes "mongodb://mongo:27017/idps")

-- The world in which the requests are served; `none` is a panic of the restoring.
unfoldable pub start :
    {K F D : Type 0}
    → Machine K
    → Times
    → Database D
    → (clock : ℕ → RestoreClock) → (zero_float : F) → D
    → K
    → Option (World K F)
unfolding filter_config new restore_active_blocks
start m times db clock zero_float d k =
    elim (restore_active_blocks m times db clock d
      (record { filter = new zero_float filter_config; kernel = k; sent = [] })) [
        | none ↦ none
        | some done ↦ some done.1
      ]
