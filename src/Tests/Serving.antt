-- ===== src/Tests/Serving.antt =====
-- The HTTP interface of the network filter at concrete inputs.
use netsentry_sensor.Common.{
  ℕ, ◌+◌, ◌*◌, ◌≡◌, refl, true, false, ◌||◌, Option, none, some, List, [], ◌∷◌, count,
  nanos_per_sec, keep,
}
use netsentry_sensor.Common.Dict.{lookup, insert}
use netsentry_sensor.Common.Ipv4.{parse_ip, parse_parts, parse_octet, print_ip, print_octet}
use netsentry_sensor.Common.Outcome.{Result, ok}
use netsentry_sensor.Common.Text.{
  Text, codes, text_eq, trim, trim_start, trim_end, is_whitespace, split, strip_prefix,
}
use netsentry_sensor.Forwarder.Service.{Calendar}
use netsentry_sensor.NetworkFilter.Api.Documents.{PersistentBlockedIp}
use netsentry_sensor.NetworkFilter.Api.Handlers.{
  block_ip, persist_block, unblock_ip, persist_unblock,
}
use netsentry_sensor.NetworkFilter.Api.Messages.{
  BlockRequest, UnblockRequest, PreventionResponse, HandlerClock, host_of, normalize_ipv4_target,
  document, response,
}
use netsentry_sensor.NetworkFilter.Api.Records.{active_for, unblock-block_twice}
use netsentry_sensor.NetworkFilter.Api.Restart.{has_entry, names, restore_active_blocks-has_entry}
use netsentry_sensor.NetworkFilter.Api.Startup.{
  RestoreClock, restore_document, restore_documents, restore_active_blocks,
}
use netsentry_sensor.NetworkFilter.Blocking.{restore_blocked_ip, record_block, block_ip_direct}
use netsentry_sensor.NetworkFilter.Blocking
use netsentry_sensor.NetworkFilter.Filter.{Times, is_ip_blocked}
use netsentry_sensor.NetworkFilter.Firewall.{
  Machine, apply_iptables_block, remove_iptables_block, apply_specs, apply_spec, after_add,
  rule_specs, run_iptables_command, remove_specs, remove_spec, after_delete,
}
use netsentry_sensor.NetworkFilter.State.{World, new, default_config}
use netsentry_sensor.Tests.Database.{Documents, database, database-IsDatabase}

abbrev pub evil : Text
evil = codes "203.0.113.9"

abbrev written : Text
written = codes "http://203.0.113.9:80/x"

abbrev pub times : Times
times = record {
  instant_after = λ t s. some (t + s * nanos_per_sec);
  utc_after = λ t s. some (t + s * nanos_per_sec);
}

abbrev pub calendar : Calendar
calendar = record {
  print_time = λ t. t ∷ [];
  parse_time = λ s. none;
  hours_after = λ t h. some (t + h * 3600 * nanos_per_sec);
}

-- a firewall that takes every command, and counts them
abbrev pub willing : Machine ℕ
willing = record {
  exec = λ program args k. (ok (record { success = true; stderr = [] }), k + 1);
  netns_exists = false;
  netns_path = [];
  interface = codes "eth0";
}

pub works : (ip : Text) (k : ℕ) → (apply_iptables_block willing ip k).0 ≡ ok tt
unfolding apply_iptables_block apply_specs apply_spec after_add rule_specs run_iptables_command
works ip k = refl

abbrev pub world : World ℕ ℕ
world = record { filter = new 0 default_config; kernel = 0; sent = [] }

abbrev pub clock : HandlerClock
clock = record {
  block = record { utc_now = 1000; blocked_at = 100; expiry_base = 101 };
  document_at = 1001;
  responded_at = 1002;
}

abbrev pub request : BlockRequest
request = record {
  ip = written;
  reason = codes "scan";
  threat_level = 300;
  duration_hours = 1;
  source = codes "manual";
}

abbrev pub undo : UnblockRequest
undo = record { ip = evil; reason = codes "mistake" }

abbrev pub dns : Text → List Text
dns ip = codes "host.example" ∷ []

pub request_valid : normalize_ipv4_target request.ip ≡ some evil
unfolding normalize_ipv4_target codes trim trim_start trim_end is_whitespace parse_ip parse_parts
    parse_octet split host_of strip_prefix print_ip print_octet
request_valid = refl

pub undo_valid : normalize_ipv4_target undo.ip ≡ some evil
unfolding normalize_ipv4_target codes trim trim_start trim_end is_whitespace parse_ip parse_parts
    parse_octet split host_of strip_prefix print_ip print_octet
undo_valid = refl

-- the document of the request
abbrev pub made : PersistentBlockedIp
made = document calendar evil request (dns evil) 1001 (1001 + 3600 * nanos_per_sec)

abbrev Answer : Type 0
Answer = World ℕ ℕ × Documents

abbrev left : Option (Result PreventionResponse ℕ × World ℕ ℕ × Documents) → Answer
left (some (r, w, d)) = (w, d)
left none = (world, [])

abbrev once : Answer
once = left (block_ip willing times calendar database dns clock request world [])

abbrev twice : Answer
twice = left (block_ip willing times calendar database dns clock request once.0 once.1)

abbrev undone : Result PreventionResponse ℕ × World ℕ ℕ × Documents
undone = unblock_ip willing calendar database clock undo twice.0 twice.1

abbrev answer : Text → PreventionResponse
answer what = response calendar 1002 evil what

unblock-block_twice_example :
    ((now : ℕ) → is_ip_blocked now evil undone.1.filter ≡ false)
    × (active_for (λ d. d) evil undone.2 ≡ active_for (λ d. d) evil [] + 1)
unfolding block_ip persist_block block_ip_direct record_block unblock_ip persist_unblock
    Blocking.unblock_ip apply_iptables_block apply_specs apply_spec after_add rule_specs
    run_iptables_command remove_iptables_block remove_specs remove_spec after_delete
    normalize_ipv4_target codes trim trim_start trim_end is_whitespace parse_ip parse_parts
    parse_octet split host_of strip_prefix print_ip print_octet text_eq lookup insert count new
unblock-block_twice_example =
    unblock-block_twice willing times calendar database (λ d. d) database-IsDatabase dns clock clock
      clock request request undo evil world once.0 twice.0 undone.1 [] once.1 twice.1 undone.2
      (answer (codes " blocked successfully")) (answer (codes " blocked successfully"))
      (answer (codes " unblocked successfully")) request_valid request_valid undo_valid
      (λ x e. refl) (λ test set e. refl) refl refl refl

abbrev pub restore_clock : ℕ → RestoreClock
restore_clock n = record {
  no_blocked_at = 2000;
  no_expires_at = 2000;
  block = record { utc_now = 2000; blocked_at = 200; expiry_base = 201 };
  utc_later = 2001;
}

abbrev restored : Option (Result (Unit {0}) Text × World ℕ ℕ)
restored = restore_active_blocks willing times database restore_clock (made ∷ []) world

abbrev restored_world : World ℕ ℕ
restored_world = elim restored [ some (r, w) ↦ w | none ↦ world ]

abbrev fine : Result (Unit {0}) Text
fine = ok tt

restore_active_blocks-has_entry_example :
    (fine ≡ ok tt)
    × (has_entry evil restored_world
        ≡ (has_entry evil world || names restore_clock 0 evil (made ∷ [])))
unfolding restore_active_blocks restore_documents restore_document restore_blocked_ip record_block
    apply_iptables_block apply_specs apply_spec after_add rule_specs run_iptables_command keep
restore_active_blocks-has_entry_example =
    restore_active_blocks-has_entry willing times works database restore_clock (made ∷ [])
      (made ∷ []) evil world restored_world fine refl refl
