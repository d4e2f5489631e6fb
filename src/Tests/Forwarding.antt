-- ===== src/Tests/Forwarding.antt =====
-- The forwarder and the packet processor at concrete inputs.
use netsentry_sensor.Common.{
  ℕ, ◌+◌, ◌*◌, ◌≡◌, refl, true, Option, none, some, [], ◌∷◌, arith, if◌then◌else◌, is_some,
  nanos_per_sec,
}
use netsentry_sensor.Common.Dict.{lookup, insert}
use netsentry_sensor.Common.Ipv4.{print_ip, print_octet, parse_ip, parse_octet, parse_parts}
use netsentry_sensor.Common.Outcome.{ok}
use netsentry_sensor.Common.Text.{
  Text, codes, text_eq, trim, trim_start, trim_end, is_whitespace, split, strip_prefix,
}
use netsentry_sensor.Forwarder.Address.{normalize_ipv4_target, host_of}
use netsentry_sensor.Forwarder.Listing.Feed.{
  live_value, forwarder_get, sync_blocked_ips-forwarder_get,
}
use netsentry_sensor.Forwarder.Service.{
  BlockRequest, UnblockRequest, BlockedIpInfo, AppState, Router, Calendar, block_ip, unblock_ip,
  collect_expired, remove_expired, trim_end_slashes, blocked_response, forward_block_to_firewall,
}
use netsentry_sensor.Forwarder.Service.Blocks.{
  info_of, unblock_ip-block_ip, remove_expired-block_ip,
}
use netsentry_sensor.PacketProcessor.Cache.{
  BlockedIps, SyncClock, Reply, is_ip_blocked, ttl_cleanup, sync_blocked_ips,
}
use netsentry_sensor.PacketProcessor.Cache.Sync.{is_ip_blocked-ttl_cleanup}
use netsentry_sensor.PacketProcessor.Capture.Stream.{
  Frame, IsQueue, capture_all, capture_all-IsQueue,
}

abbrev evil : Text
evil = codes "203.0.113.9"

-- times printed in unary
abbrev ticks : ℕ → Text
ticks n = n ∷ []

abbrev read_ticks : Text → Option ℕ
read_ticks (n ∷ []) = some n
read_ticks _ = none

abbrev calendar : Calendar
calendar = record {
  print_time = ticks;
  parse_time = read_ticks;
  hours_after = λ t h. some (t + h * 3600 * nanos_per_sec);
}

-- a router that takes every message and counts them
abbrev router : Router ℕ
router = record { send = λ url key message r. (ok 200, r + 1); print_status = λ n. n ∷ [] }

abbrev info_until : Text → ℕ → BlockedIpInfo
info_until ip expires = record {
  ip = ip;
  reason = codes "scan";
  threat_level = 3;
  blocked_at = ticks 1;
  expires_at = ticks expires;
  source = codes "vps_auto";
  firewall_enforced = true;
}

abbrev service : AppState
service = record {
  firewall_url = codes "http://192.168.1.1/";
  firewall_api_key = codes "key";
  blocked_ips = (evil, info_until evil 50) ∷ (codes "a", info_until (codes "a") 90) ∷ [];
}

abbrev request : BlockRequest
request = record {
  ip = codes "http://203.0.113.9:80/x";
  reason = codes "scan";
  threat_level = 3;
  duration_hours = 1;
  source = codes "vps_auto";
}

abbrev undo : UnblockRequest
undo = record { ip = codes " 203.0.113.9 "; reason = [] }

request_valid : normalize_ipv4_target request.ip ≡ some evil
unfolding normalize_ipv4_target codes trim trim_start trim_end is_whitespace parse_ip parse_parts
    parse_octet split host_of strip_prefix print_ip print_octet
request_valid = refl

undo_valid : normalize_ipv4_target undo.ip ≡ some evil
unfolding normalize_ipv4_target codes trim trim_start trim_end is_whitespace parse_ip parse_parts
    parse_octet split host_of strip_prefix print_ip print_octet
undo_valid = refl

abbrev expires : ℕ
expires = 60 + 3600 * nanos_per_sec

abbrev made : BlockedIpInfo
made = info_of router calendar request evil 60 expires true

abbrev blocked_service : AppState
blocked_service = record service { blocked_ips = insert evil made service.blocked_ips }

blocked_run :
    block_ip router calendar 60 61 request service 0
    ≡ some (ok (blocked_response calendar 61 evil true), blocked_service, 1)
unfolding block_ip forward_block_to_firewall
blocked_run = ground (arith, request_valid)

unblock_ip-block_ip_example :
    lookup evil (unblock_ip router calendar 61 undo blocked_service 1).1.blocked_ips
    ≡ (if text_eq evil evil then none else lookup evil service.blocked_ips)
unblock_ip-block_ip_example =
    unblock_ip-block_ip router calendar 60 61 request undo service blocked_service 0 1
      (ok (blocked_response calendar 61 evil true)) evil evil request_valid undo_valid blocked_run

remove_expired-block_ip_example :
    (is_some (lookup evil blocked_service.blocked_ips) ≡ true)
    × (lookup evil
          (remove_expired (collect_expired calendar 60 service) blocked_service).blocked_ips
        ≡ none)
unfolding lookup text_eq codes
remove_expired-block_ip_example =
    remove_expired-block_ip router calendar 60 60 61 request service blocked_service 0 1
      (ok (blocked_response calendar 61 evil true)) evil (info_until evil 50) (refl, (refl, tt))
      refl refl request_valid blocked_run

abbrev clock : ℕ → SyncClock
clock i = record { utc_now = 60; expiry_base = 1000; blocked_at = 1001 }

abbrev home : Text
home = codes "http://h:8092"

abbrev get : Text → Reply
get = forwarder_get calendar 60 service home

sync_blocked_ips-forwarder_get_example :
    (is_some (lookup evil (sync_blocked_ips read_ticks clock get (codes "http://h:8092/") []))
      ≡ live_value calendar 60 (lookup evil service.blocked_ips))
    × (sync_blocked_ips read_ticks clock get (codes "http://h:8092/api/v1") [] ≡ [])
unfolding lookup text_eq codes trim_end_slashes
sync_blocked_ips-forwarder_get_example =
    sync_blocked_ips-forwarder_get calendar 60 clock service [] home (codes "http://h:8092/")
      (codes "http://h:8092/api/v1") evil (refl, (refl, tt)) (refl, (refl, tt)) refl refl

abbrev cache : BlockedIps
cache = (evil, record { blocked_at = 5; expires_at = some 70 }) ∷ []

is_ip_blocked-ttl_cleanup_example :
    is_ip_blocked 65 evil (ttl_cleanup 60 cache) ≡ is_ip_blocked 65 evil cache
unfolding lookup
is_ip_blocked-ttl_cleanup_example =
    is_ip_blocked-ttl_cleanup 60 65 evil cache (refl, tt) (omega arith)

abbrev frame : Frame
frame = record {
  now = 60;
  id = codes "f1";
  timestamp = 60;
  size = 80;
  headers = some (record {
    src_ip = evil;
    dst_ip = codes "10.0.0.2";
    src_port = 4000;
    dst_port = 80;
    protocol = codes "TCP";
    payload = 171 ∷ 5 ∷ [];
  });
  blocked = [];
}

capture_all-IsQueue_example :
    IsQueue 2 (capture_all 2 (codes "eth0") (frame ∷ frame ∷ frame ∷ []) [])
capture_all-IsQueue_example = capture_all-IsQueue 2 (codes "eth0") (frame ∷ frame ∷ frame ∷ [])
