-- ===== src/Tests/Conversing.antt =====
-- The sessions of commands of the cloud, at concrete inputs.
use netsentry_sensor.Common.{
  ℕ, ◌+◌, ◌*◌, ◌≡◌, refl, none, some, List, [], ◌∷◌, All, arith, if◌then◌else◌, nanos_per_sec,
}
use netsentry_sensor.Collector.Commands.Protocol.{last_of, Reads}
use netsentry_sensor.Collector.Commands.Sessions.{Settings, run_vps_command_listener}
use netsentry_sensor.Collector.Json.{Json}
use netsentry_sensor.Common.Dict.{lookup}
use netsentry_sensor.Common.Outcome.{ok}
use netsentry_sensor.Common.Text.{Text, codes, text_eq}
use netsentry_sensor.NetworkFilter.Filter.{is_ip_blocked}
use netsentry_sensor.NetworkFilter.Firewall.{
  remove_iptables_block, apply_specs, rule_specs, run_iptables_command, remove_specs, remove_spec,
  after_delete,
}
use netsentry_sensor.NetworkFilter.State.{World, new}
use netsentry_sensor.Shared.Protocols.{message_value}
use netsentry_sensor.System.{with_filter}
use netsentry_sensor.System.Rounds.{
  Visit, rounds_of, IsHeardIn, after_visits, run_vps_command_listener-after_visits,
}
use netsentry_sensor.System.Session.{Arrival, IsHeard, HasRoom, IsWilling, Blocks, Agrees}
use netsentry_sensor.Tests.Commanding.{Posts, client, debug}
use netsentry_sensor.Tests.Database.{Documents, database}
use netsentry_sensor.Tests.Joining.{
  serializer, member-onto, or_else-none, base, rules, block_message, unblock_message,
}
use netsentry_sensor.Tests.Serving.{times, calendar, willing, works, world, clock, dns}
use netsentry_sensor.Tests.Values.{Value, json}

-- a JSON that reads `b` as the block and everything else as the unblock
abbrev wire : Json Value
wire = record json {
  parse = λ s.
      if text_eq s (codes "b")
      then ok (message_value serializer block_message)
      else ok (message_value serializer unblock_message);
}

wire-Reads : Reads wire serializer
wire-Reads = record {
  get_object = λ d k. ground (arith, member-onto Value.null d k, or_else-none (last_of k d));
  str_as_str = λ t. refl;
  null_as_str = refl;
  number_as_u64 = λ n small. refl;
}

removes : (ip : Text) (k : ℕ) → (remove_iptables_block willing ip k).0 ≡ ok tt
unfolding remove_iptables_block apply_specs rule_specs run_iptables_command remove_specs remove_spec
    after_delete
removes ip k = refl

abbrev told : Arrival ℕ
told = record { at = 1; received_at = 2; text = codes "b"; message = block_message }

abbrev untold : Arrival ℕ
untold = record { at = 3; received_at = 4; text = codes "u"; message = unblock_message }

abbrev arrivals : List (Arrival ℕ)
arrivals = told ∷ untold ∷ told ∷ []

abbrev settings : Settings
settings = record {
  rule_engine_url = rules;
  network_filter_url = base;
  vps_api_url = codes "http://cloud";
  api_key = [];
}

abbrev nothing : Blocks
nothing j = none

abbrev later : (base secs : ℕ) → ℕ
later t s = t + s * nanos_per_sec

arrivals-IsHeard : All (IsHeard wire serializer 24) arrivals
unfolding text_eq codes
arrivals-IsHeard = (
  (omega arith, ((omega arith, omega arith), refl)),
  ((tt, (tt, refl)), ((omega arith, ((omega arith, omega arith), refl)), tt)),
)

nothing-Agrees : Agrees world nothing
unfolding is_ip_blocked lookup new
nothing-Agrees now j = refl

-- the cloud is out of reach at first, and a connection ends
abbrev visits : List (Visit ℕ)
visits =
    Visit.refused 1 ∷ Visit.met 2 5 arrivals ∷ Visit.refused 8 ∷ Visit.met 9 10 (untold ∷ []) ∷ []

visits-IsHeardIn : All (IsHeardIn wire serializer 24) visits
unfolding text_eq codes
visits-IsHeardIn = (tt, (arrivals-IsHeard, (tt, (((tt, (tt, refl)), tt), tt))))

room : HasRoom times calendar (λ i. clock) 24 later later (λ t h. t + h * 3600 * nanos_per_sec)
room = record { instants = λ i h small. refl; utcs = λ i h small. refl; dates = λ i h small. refl }

willing-IsWilling : IsWilling willing
willing-IsWilling = record {
  blocks = λ text ip k valid. works ip k;
  removes = λ text ip k valid. removes ip k;
}

run_vps_command_listener-after_visits_example :
    (s : Posts) × (i : ℕ) × (w : World ℕ ℕ) × (d : Documents) × ((run_vps_command_listener wire
        (with_filter willing times calendar database dns (λ i. clock) base client)
        settings
        (rounds_of visits)
        (([], 0, some (world, [])), debug)).0
      ≡ (s, i, some (w, d)))
    × Agrees w (after_visits wire client settings later (λ i. clock) [] 0 visits nothing)
unfolding text_eq codes
run_vps_command_listener-after_visits_example =
    run_vps_command_listener-after_visits wire serializer wire-Reads willing times calendar database
      dns (λ i. clock) client settings 24 later later (λ t h. t + h * 3600 * nanos_per_sec) room
      willing-IsWilling (omega arith) (refl, refl) visits [] 0 world [] debug nothing
      visits-IsHeardIn nothing-Agrees
