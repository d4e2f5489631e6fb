-- ===== src/Tests/Joining.antt =====
-- Commands of the cloud on their way to the network filter, at concrete inputs.
use netsentry_sensor.Common.{
  ℕ, ◌+◌, ◌*◌, ◌≡◌, refl, ◌⊎◌, true, false, Option, none, some, [], ◌∷◌, arith, ltb, if◌then◌else◌,
  nanos_per_sec, add64, Option-cases,
}
use netsentry_sensor.Collector.Commands.{Handled, hours_of, handle_vps_command}
use netsentry_sensor.Collector.Commands.Protocol.{last_of, Reads}
use netsentry_sensor.Collector.Json.{Json}
use netsentry_sensor.Common.Dict.{Dict}
use netsentry_sensor.Common.Outcome.{ok, err}
use netsentry_sensor.Common.Text.{Text, codes, text_eq, contains}
use netsentry_sensor.NetworkFilter.Filter.{is_ip_blocked}
use netsentry_sensor.NetworkFilter.Firewall.{
  Machine, apply_iptables_block, apply_specs, apply_spec, after_add, rule_specs,
  run_iptables_command,
}
use netsentry_sensor.NetworkFilter.State.{World}
use netsentry_sensor.Shared.Protocols.{
  BlockCommand, UnblockCommand, WsMessage, Serializer, message_value, block_command,
  unblock_command, alert, high,
}
use netsentry_sensor.Tests.Commanding.{Posts, client, debug}
use netsentry_sensor.Tests.Database.{Documents, database}
use netsentry_sensor.System.{with_filter}
use netsentry_sensor.System.Commands.{
  block_command-is_ip_blocked, block_command-duration_zero, unblock_command-is_ip_blocked,
  block_command-duration_zero, block_command-refused,
}
use netsentry_sensor.Tests.Serving.{
  undo_valid, evil, times, calendar, willing, works, world, clock, dns,
}
use netsentry_sensor.Tests.Values.{Value, json, member}

-- the fields put before the others, one after the other
abbrev pub onto : Value → Dict Value → Value
onto others [] = others
onto others ((k, v) ∷ m) = onto (Value.field k v others) m

abbrev pub serializer : Serializer ℕ Value
serializer = record {
  null = Value.null;
  bool = λ b. Value.flag b;
  number = λ n. Value.number n;
  float = λ x. Value.number x;
  str = λ t. Value.text t;
  date = λ n. Value.number n;
  object = λ m. onto Value.null m;
}

abbrev pub or_else : Option Value → Option Value → Option Value
or_else none o = o
or_else (some v) o = some v

pub member-onto :
    (others : Value) (m : Dict Value) (k : Text)
    → member (onto others m) k ≡ or_else (last_of k m) (member others k)
unfolding last_of
member-onto others [] k = refl
member-onto others ((j, v) ∷ m) k =
    ground (arith, member-onto (Value.field j v others) m k, Option-cases (last_of k m))

pub or_else-none : (o : Option Value) → or_else o none ≡ o
or_else-none none = refl
or_else-none (some v) = refl

abbrev pub asked : BlockCommand
asked = record {
  ip = evil;
  reason = codes "scan";
  duration_secs = 7200;
  apply_suricata_rule = false;
  severity = 9;
  detection_event_id = none;
}

abbrev pub block_message : WsMessage ℕ
block_message = record { id = codes "1"; timestamp = 6; payload = block_command asked }

abbrev pub taken_back : UnblockCommand
taken_back = record { ip = evil; reason = codes "mistake"; unblocked_by = none }

abbrev pub unblock_message : WsMessage ℕ
unblock_message = record { id = codes "2"; timestamp = 8; payload = unblock_command taken_back }

abbrev pub evil_alert : WsMessage ℕ
evil_alert = record {
  id = codes "3";
  timestamp = 9;
  payload = alert (record {
    event_id = codes "e";
    severity = high;
    category = codes "scan";
    message = codes "port scan";
    src_ip = evil;
    dest_ip = none;
    src_port = some 4000;
    dest_port = none;
    protocol = none;
    auto_blocked = true;
    timestamp = 5;
  });
}

-- a JSON whose only text is that of a message
abbrev saying : WsMessage ℕ → Json Value
saying m = record json { parse = λ s. ok (message_value serializer m) }

saying-Reads : (m : WsMessage ℕ) → Reads (saying m) serializer
saying-Reads m = record {
  get_object = λ d k. ground (arith, member-onto Value.null d k, or_else-none (last_of k d));
  str_as_str = λ t. refl;
  null_as_str = refl;
  number_as_u64 = λ n small. refl;
}

abbrev pub base : Text
base = codes "http://localhost:8092/api/v1"

abbrev pub rules : Text
rules = codes "http://rule-engine:8094/api/v1"

abbrev run : WsMessage ℕ → World ℕ ℕ → Handled (Posts × ℕ × Option (World ℕ ℕ × Documents))
run m w =
    handle_vps_command (saying m)
      (with_filter willing times calendar database dns (λ i. clock) base client) rules 7 8
      (codes "b") base ([], 0, some (w, [])) debug

block_command-is_ip_blocked_example :
    (w1 : World ℕ ℕ) × (d1 : Documents) × ((run block_message world).1 ≡ ([], 1, some (w1, d1)))
    × ((run block_message world).2.blocks_applied ≡ add64 debug.blocks_applied 1)
    × ((now : ℕ) (j : Text)
        → is_ip_blocked now j w1.filter ≡ (
            if text_eq evil j
            then ltb now (101 + 7200 * nanos_per_sec)
            else is_ip_blocked now j world.filter))
block_command-is_ip_blocked_example =
    block_command-is_ip_blocked (saying block_message) serializer (saying-Reads block_message)
      willing times calendar database dns (λ i. clock) client rules base (codes "b") 7 8 asked
      (codes "1") 6 [] 0 world [] debug (omega arith) refl (omega arith) evil
      (1000 + 7200 * nanos_per_sec) (101 + 7200 * nanos_per_sec) (1001 + 7200 * nanos_per_sec)
      (apply_iptables_block willing evil 0).1 undo_valid refl refl refl
      (ground (arith, works evil 0))

abbrev forever : BlockCommand
forever = record asked { duration_secs = 0 }

abbrev forever_message : WsMessage ℕ
forever_message = record block_message { payload = block_command forever }

block_command-duration_zero_example :
    (w1 : World ℕ ℕ) × (d1 : Documents) × ((run forever_message world).1 ≡ ([], 1, some (w1, d1)))
    × ((run forever_message world).2.blocks_applied ≡ add64 debug.blocks_applied 1)
    × ((now : ℕ) (j : Text)
        → is_ip_blocked now j w1.filter ≡ (
            if text_eq evil j
            then ltb now (101 + 3600 * nanos_per_sec)
            else is_ip_blocked now j world.filter))
block_command-duration_zero_example =
    block_command-duration_zero (saying forever_message) serializer (saying-Reads forever_message)
      willing times calendar database dns (λ i. clock) client rules base (codes "b") 7 8 forever
      (codes "1") 6 [] 0 world [] debug (omega arith) refl refl evil (1000 + 3600 * nanos_per_sec)
      (101 + 3600 * nanos_per_sec) (1001 + 3600 * nanos_per_sec)
      (apply_iptables_block willing evil 0).1 undo_valid refl refl refl
      (ground (arith, works evil 0))

-- a firewall whose commands fail
abbrev refusing : Machine ℕ
refusing = record willing {
  exec = λ program args k. (ok (record { success = false; stderr = codes "denied" }), k + 1);
}

abbrev why : Text
why = elim (apply_iptables_block refusing evil 0).0 [ err e ↦ e | ok _ ↦ [] ]

refuses : apply_iptables_block refusing evil 0 ≡ (err why, (apply_iptables_block refusing evil 0).1)
unfolding apply_iptables_block apply_specs apply_spec after_add rule_specs run_iptables_command
    text_eq codes contains
refuses = refl

abbrev failed : Handled (Posts × ℕ × Option (World ℕ ℕ × Documents))
failed =
    handle_vps_command (saying block_message)
      (with_filter refusing times calendar database dns (λ i. clock) base client) rules 7 8
      (codes "b") base ([], 0, some (world, [])) debug

block_command-refused_example :
    (failed.0 ≡ ok tt)
    × (failed.1
        ≡ ([], 1, some (record world { kernel = (apply_iptables_block refusing evil 0).1 }, [])))
    × (failed.2.commands_received ≡ add64 debug.commands_received 1)
    × (failed.2.blocks_applied ≡ debug.blocks_applied)
unfolding hours_of
block_command-refused_example =
    block_command-refused (saying block_message) serializer (saying-Reads block_message) refusing
      times calendar database dns (λ i. clock) client rules base (codes "b") 7 8 asked (codes "1") 6
      [] 0 world [] debug (omega arith) refl evil why (1000 + 7200 * nanos_per_sec)
      (apply_iptables_block refusing evil 0).1 undo_valid refl refuses

abbrev after : Handled (Posts × ℕ × Option (World ℕ ℕ × Documents))
after = run unblock_message world

unblock_command-is_ip_blocked_example :
    (w1 : World ℕ ℕ) × (d1 : Documents) × (after.1 ≡ ([], 1, some (w1, d1)))
    × (((after.2.unblocks_applied ≡ add64 debug.unblocks_applied 1)
          × ((now : ℕ) (j : Text)
              → is_ip_blocked now j w1.filter
                ≡ (if text_eq evil j then false else is_ip_blocked now j world.filter)))
        ⊎ ((after.2.unblocks_applied ≡ debug.unblocks_applied)
            × (w1.filter ≡ world.filter)
            × (d1 ≡ [])))
unblock_command-is_ip_blocked_example =
    unblock_command-is_ip_blocked (saying unblock_message) serializer (saying-Reads unblock_message)
      willing times calendar database dns (λ i. clock) client rules base (codes "b") 7 8 taken_back
      (codes "2") 8 [] 0 world [] debug refl evil undo_valid
