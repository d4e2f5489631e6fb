-- ===== src/Tests/Commanding.antt =====
-- The collector's commands at concrete inputs.
use netsentry_sensor.Common.{
  ◌+◌, ◌≡◌, refl, true, false, none, some, List, [], ◌∷◌, ◌++◌, arith, u32_mod, ◌%◌,
}
use netsentry_sensor.Collector.Commands.{Body, Client}
use netsentry_sensor.Collector.Commands.Sessions.{Frame, Round, Settings, run_vps_command_listener}
use netsentry_sensor.Collector.Commands.Sessions.Order.{run_vps_command_listener-ends}
use netsentry_sensor.Collector.Debug.{WsDebugState, new}
use netsentry_sensor.Common.Outcome.{ok}
use netsentry_sensor.Common.Text.{Text, codes}
use netsentry_sensor.Tests.Values.{Value, json}

-- a network that records what is posted, and takes it
abbrev pub Posts : Type 0
Posts = List (Text × Body)

abbrev pub client : Client Value Posts
client = record {
  post = λ url b n. (ok 200, n ++ (url, b) ∷ []);
  get_json = λ url key n. (ok (200, ok (Value.field (codes "data") Value.null Value.null)), n);
  alive = λ url n. (true, n);
}

abbrev rules_url : Text
rules_url = codes "http://rules"

abbrev filter_url : Text
filter_url = codes "http://filter"

abbrev pub debug : WsDebugState
debug = new (codes "ws://cloud") filter_url

abbrev settings : Settings
settings = record {
  rule_engine_url = rules_url;
  network_filter_url = filter_url;
  vps_api_url = codes "http://cloud";
  api_key = [];
}

abbrev rounds : List Round
rounds =
    record { started_at = 1; connection = none }
    ∷ record {
      started_at = 2;
      connection = some (3, Frame.text 4 5 (codes "b") ∷ Frame.close ∷ Frame.other ∷ []);
    }
    ∷ []

run_vps_command_listener-ends_example :
    ((run_vps_command_listener json client settings rounds ([], debug)).1.connected ≡ false)
    × ((run_vps_command_listener json client settings rounds ([], debug)).1.reconnect_count
        ≡ (0 + 2) % u32_mod)
unfolding new
run_vps_command_listener-ends_example =
    run_vps_command_listener-ends json client settings rounds ([], debug) refl (omega arith)
