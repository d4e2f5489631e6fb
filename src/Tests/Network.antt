-- ===== src/Tests/Network.antt =====
-- The network filter at concrete inputs.
use netsentry_sensor.Common.{
  ℕ, ◌+◌, ◌*◌, ◌≤◌, ◌≡◌, refl, true, false, Option, none, some, List, [], ◌∷◌, ◌++◌, arith, All,
  ltb, if◌then◌else◌, nanos_per_sec,
}
use netsentry_sensor.Common.Dict.{lookup, keep_value}
use netsentry_sensor.Common.Outcome.{ok}
use netsentry_sensor.Common.Text.{Text, codes, text_eq, contains, find, starts_with, strip_prefix}
use netsentry_sensor.NetworkFilter.Blocking.{block_ip_direct, forward_or_drop_pending_packet}
use netsentry_sensor.NetworkFilter.Decisions.{
  act, note_decision, apply_vps_decision, cleanup, expired_ips, finish_cleanup,
}
use netsentry_sensor.NetworkFilter.Delivery.{apply_vps_decision-sent}
use netsentry_sensor.NetworkFilter.Expiry.{cleanup-lookup, finish_cleanup-expired_ips, IsWellFormed}
use netsentry_sensor.NetworkFilter.Filter.{
  Times, CheckClock, BlockClock, should_block_packet, is_ip_blocked, get_block_reason, count_packet,
}
use netsentry_sensor.NetworkFilter.Firewall.{
  rule_specs, apply_iptables_block, remove_iptables_block, apply_specs, apply_spec, remove_specs,
  remove_spec, after_add, after_delete, run_iptables_command, is_denied,
}
use netsentry_sensor.NetworkFilter.Firewall.Blocks.{
  IsInstalled, apply_iptables_block-adds_once, apply_iptables_block-installs,
}
use netsentry_sensor.NetworkFilter.Firewall.Removal.{IsGone, remove-apply_iptables_block}
use netsentry_sensor.NetworkFilter.Firewall.Kernel.{rule_eq}
use netsentry_sensor.NetworkFilter.Lifecycle.{is_ip_blocked-block_ip_direct}
use netsentry_sensor.NetworkFilter.State.{
  BlockedIp, TrustedIp, PendingPacket, NetworkFilter, World, block, default_config,
}
use netsentry_sensor.NetworkFilter.Verdicts.{is_block, should_block_packet-is_ip_blocked}
use netsentry_sensor.Shared.Types.{Packet, PacketDecision, PacketAction}
use netsentry_sensor.Tests.Iptables.{
  Rules, count, machine, machine-IsIptables, machine-IsUndisturbed,
}

abbrev evil : Text
evil = codes "203.0.113.9"

abbrev friend : Text
friend = codes "198.51.100.7"

abbrev old : Text
old = codes "203.0.113.50"

abbrev times : Times
times = record {
  instant_after = λ t s. some (t + s * nanos_per_sec);
  utc_after = λ t s. some (t + s * nanos_per_sec);
}

abbrev entry_until : Text → ℕ → BlockedIp
entry_until ip expires = record {
  ip = ip;
  blocked_at = 10;
  expires_at = expires;
  blocked_at_utc = 10;
  expires_at_utc = expires;
  reason = codes "scan";
  threat_level = 4;
  source = codes "api";
  interface = codes "eth0";
}

abbrev friend_entry : TrustedIp
friend_entry = record {
  ip = friend;
  trusted_at = 5;
  expires_at = 900;
  packet_count = 100;
  last_seen = 6;
}

abbrev packet_from : Text → Packet
packet_from src = record {
  id = codes "p1";
  timestamp = 7;
  src_ip = src;
  dst_ip = codes "10.0.0.2";
  src_port = 4000;
  dst_port = 80;
  protocol = codes "TCP";
  payload = 1 ∷ 2 ∷ [];
  packet_size = 2;
  interface = codes "eth0";
}

abbrev waiting : PendingPacket
waiting = record {
  packet = packet_from evil;
  buffer = 1 ∷ 2 ∷ [];
  dest_addr = codes "10.0.0.2:80";
  created_at = 20;
  timeout = 50;
}

abbrev filter : NetworkFilter ℕ
filter = record {
  blocked_ips = (evil, entry_until evil 500) ∷ (old, entry_until old 50) ∷ [];
  trusted_ips = (friend, friend_entry) ∷ [];
  pending_packets = (codes "p1", waiting) ∷ [];
  stats = record {
    total_packets = 3;
    blocked_packets = 2;
    allowed_packets = 1;
    fast_tracked_packets = 1;
    avg_processing_time_ms = 0;
    vps_timeouts = 0;
  };
  config = default_config;
}

abbrev world : World Rules ℕ
world = record { filter = filter; kernel = []; sent = [] }

abbrev check_clock : CheckClock
check_clock = record {
  start = 100;
  at_blocked = 101;
  at_trusted = 102;
  at_seen = 103;
  at_extended = 104;
  finish = 110;
}

abbrev block_clock : BlockClock
block_clock = record { utc_now = 1000; blocked_at = 100; expiry_base = 101 }

should_block_packet-is_ip_blocked_example :
    is_block (block (codes "Cached block: " ++ codes "scan") 4 10) ≡ is_ip_blocked 101 evil filter
unfolding should_block_packet lookup text_eq codes
should_block_packet-is_ip_blocked_example =
    should_block_packet-is_ip_blocked times check_clock (packet_from evil) false filter
      (count_packet filter) (block (codes "Cached block: " ++ codes "scan") 4 10) refl

abbrev installed : Rules
installed = (apply_iptables_block machine evil []).1

abbrev input_rule : List Text
input_rule =
    codes "INPUT" ∷ codes "-i" ∷ codes "eth0" ∷ codes "-s" ∷ evil ∷ codes "-j" ∷ codes "DROP" ∷ []

apply_iptables_block-adds_once_example :
    (0 ≤ count installed input_rule) × (count installed input_rule ≤ 1)
apply_iptables_block-adds_once_example =
    apply_iptables_block-adds_once machine true count machine-IsIptables evil [] input_rule
      machine-IsUndisturbed (omega arith)

apply_iptables_block-installs_example :
    All
      (IsInstalled machine true count machine-IsIptables evil installed)
      (rule_specs (codes "eth0") evil)
unfolding apply_iptables_block apply_specs apply_spec run_iptables_command after_add rule_specs
    codes text_eq rule_eq
apply_iptables_block-installs_example =
    apply_iptables_block-installs machine true count machine-IsIptables evil [] refl

remove-apply_iptables_block_example :
    All
      (IsGone machine true count machine-IsIptables evil
        (remove_iptables_block machine evil installed).1)
      (rule_specs (codes "eth0") evil)
unfolding remove_iptables_block remove_specs remove_spec after_delete apply_iptables_block
    apply_specs apply_spec run_iptables_command after_add rule_specs codes text_eq rule_eq is_denied
    contains find starts_with strip_prefix
remove-apply_iptables_block_example =
    remove-apply_iptables_block machine true count machine-IsIptables evil [] machine-IsUndisturbed
      (λ s. omega arith) refl

is_ip_blocked-block_ip_direct_example :
    (w' : World Rules ℕ) × (block_ip_direct machine times block_clock friend
        (codes "manual")
        5
        24
        (codes "api")
        world
      ≡ some (ok tt, w'))
    × ((now : ℕ) (j : Text)
        → is_ip_blocked now j w'.filter ≡ (
            if text_eq friend j
            then ltb now (101 + 86400 * nanos_per_sec)
            else is_ip_blocked now j filter))
    × ((now : ℕ)
        → get_block_reason now friend w'.filter
          ≡ (if ltb now (101 + 86400 * nanos_per_sec) then some (codes "manual") else none))
unfolding apply_iptables_block apply_specs apply_spec run_iptables_command after_add rule_specs
    codes text_eq rule_eq is_denied contains find starts_with strip_prefix
is_ip_blocked-block_ip_direct_example =
    is_ip_blocked-block_ip_direct machine world times block_clock friend (codes "manual")
      (codes "api") 5 24 (101 + 86400 * nanos_per_sec) (1000 + 86400 * nanos_per_sec)
      (apply_iptables_block machine friend []).1 refl refl refl

world-IsWellFormed : IsWellFormed filter
unfolding lookup text_eq codes
world-IsWellFormed = record {
  blocked = (refl, (refl, tt));
  trusted = (refl, tt);
  pending = (refl, tt);
}

cleanup-lookup_example :
    (lookup old (cleanup machine 60 world).filter.blocked_ips
      ≡ keep_value (λ b. ltb 60 b.expires_at) (lookup old filter.blocked_ips))
    × (lookup old (cleanup machine 60 world).filter.trusted_ips
        ≡ keep_value (λ t. ltb 60 t.expires_at) (lookup old filter.trusted_ips))
    × (lookup old (cleanup machine 60 world).filter.pending_packets
        ≡ keep_value (λ p. ltb 60 (p.created_at + p.timeout)) (lookup old filter.pending_packets))
cleanup-lookup_example = cleanup-lookup machine 60 world old world-IsWellFormed

-- the world after another block of the address
abbrev reblocked : World Rules ℕ
reblocked = record world {
  filter = record filter { blocked_ips = (old, entry_until (codes "again") 900) ∷ [] };
}

finish_cleanup-expired_ips_example :
    is_ip_blocked 70 old (finish_cleanup machine 60 (expired_ips 60 world) reblocked).filter ≡ false
unfolding text_eq codes lookup
finish_cleanup-expired_ips_example =
    finish_cleanup-expired_ips machine 60 70 world reblocked old (entry_until old 50)
      world-IsWellFormed.blocked refl (omega arith)

abbrev send_error : Text → List ℕ → Option Text
send_error address buffer = none

abbrev decision : PacketAction → PacketDecision ℕ
decision action = record {
  packet_id = codes "p1";
  action = action;
  threat_level = 4;
  reason = codes "scan";
  rule_matches = [];
  processing_time_ms = 12;
  metadata = 0;
}

abbrev mean : ℕ → ℕ → ℕ
mean a b = a + b

-- the world after the packet is let through
abbrev after_monitor : World Rules ℕ
after_monitor =
    note_decision mean 12 (forward_or_drop_pending_packet send_error (codes "p1") true world).1

apply_vps_decision-sent_example :
    (after_monitor.sent ≡ (codes "10.0.0.2:80", 1 ∷ 2 ∷ []) ∷ [])
    × (lookup (codes "p1") after_monitor.filter.pending_packets ≡ none)
unfolding apply_vps_decision act forward_or_drop_pending_packet note_decision lookup text_eq codes
apply_vps_decision-sent_example =
    apply_vps_decision-sent send_error machine times block_clock 0 mean
      (decision PacketAction.monitor) world after_monitor waiting refl refl
