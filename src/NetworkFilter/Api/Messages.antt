-- ===== src/NetworkFilter/Api/Messages.antt =====
-- network-filter/src/controllers/mod.rs and models/mod.rs: requests, responses, and the addresses that
-- the handlers take.
use netsentry_sensor.Common.{ℕ, ◌/◌, Bool, true, Option, none, some, List, [], ◌++◌, map}
use mathlib.Core.Option
use netsentry_sensor.Common.Ipv4.{parse_ip, print_ip}
use netsentry_sensor.Common.Outcome.{Result, ok, err}
use netsentry_sensor.Common.Text.{Text, codes, trim, strip_prefix, split}
use netsentry_sensor.Forwarder.Address.{first_part, or_else}
use netsentry_sensor.Forwarder.Service.{Calendar}
use netsentry_sensor.NetworkFilter.Api.Documents.{PersistentBlockedIp, Cursor}
use netsentry_sensor.NetworkFilter.Filter.{BlockClock}
use netsentry_sensor.NetworkFilter.State.{World}

pub record BlockRequest : Type 0 where
  pub ip : Text
  pub reason : Text
  pub threat_level : ℕ
  pub duration_hours : ℕ
  pub source : Text

pub record UnblockRequest : Type 0 where
  pub ip : Text
  pub reason : Text

pub record PreventionResponse : Type 0 where
  pub success : Bool
  pub message : Text
  pub timestamp : Text

pub record BlockedIpInfo : Type 0 where
  pub ip : Text
  pub reason : Text
  pub threat_level : ℕ
  pub blocked_at : Text
  pub expires_at : Text
  pub source : Text
  pub dns_names : List Text
  pub associated_domains : List Text

pub record PreventionStats : Type 0 where
  pub total_blocked : ℕ
  pub total_trusted : ℕ
  pub total_processed : ℕ
  pub blocked_ips : List BlockedIpInfo

pub record IpDomainsResponse : Type 0 where
  pub ip : Text
  pub dns_names : List Text
  pub associated_domains : List Text

-- The readings of the clock: those of the filter, and in nanoseconds since 1970 that for the
-- document and that for the response.
pub record HandlerClock : Type 0 where
  pub block : BlockClock
  pub document_at : ℕ
  pub responded_at : ℕ

-- the host of an address with a scheme, a path or a port
unfoldable pub host_of : Text → Text
unfolding strip_prefix split
host_of trimmed =
    let stripped =
      or_else (strip_prefix trimmed (codes "http://")) (strip_prefix trimmed (codes "https://")) in
    let host : Text = elim stripped [ some without_scheme ↦ without_scheme | none ↦ trimmed ] in
    first_part b':' (first_part b'/' host)

unfoldable pub normalize_ipv4_target : Text → Option Text
unfolding trim host_of
normalize_ipv4_target value = elim (parse_ip (trim value)) [
  | some ip ↦ some (print_ip ip)
  | none ↦ Option.map print_ip (parse_ip (host_of (trim value)))
]

abbrev pub bad_request : ℕ
bad_request = 400

abbrev pub internal_server_error : ℕ
internal_server_error = 500

abbrev pub bad_gateway : ℕ
bad_gateway = 502

-- `timestamp_millis` of a time of day
abbrev pub millis : ℕ → ℕ
millis nanos = nanos / 1000000

abbrev pub info_of : PersistentBlockedIp → BlockedIpInfo
info_of x = record {
  ip = x.ip;
  reason = x.reason;
  threat_level = x.threat_level;
  blocked_at = x.blocked_at;
  expires_at = x.expires_at;
  source = x.source;
  dns_names = x.dns_names;
  associated_domains = x.associated_domains;
}

abbrev pub info_of_row : Calendar → Text × Text × ℕ × ℕ × ℕ × Text → BlockedIpInfo
info_of_row calendar (ip, reason, threat_level, blocked_at, expires_at, source) = record {
  ip = ip;
  reason = reason;
  threat_level = threat_level;
  blocked_at = calendar.print_time blocked_at;
  expires_at = calendar.print_time expires_at;
  source = source;
  dns_names = [];
  associated_domains = [];
}

-- the document of a block
abbrev pub document :
    Calendar
    → (ip : Text) → BlockRequest
    → (dns_names : List Text) (blocked_at expires_at : ℕ) → PersistentBlockedIp
document calendar ip request dns_names blocked_at expires_at = record {
  ip = ip;
  reason = request.reason;
  threat_level = request.threat_level;
  blocked_at = calendar.print_time blocked_at;
  expires_at = calendar.print_time expires_at;
  source = request.source;
  active = true;
  blocked_at_dt = some (millis blocked_at);
  expires_at_dt = some (millis expires_at);
  unblocked_at_dt = none;
  unblock_reason = none;
  dns_names = dns_names;
  associated_domains = [];
}

abbrev pub response : Calendar → (responded_at : ℕ) → (ip done : Text) → PreventionResponse
response calendar responded_at ip done = record {
  success = true;
  message = codes "IP " ++ ip ++ done;
  timestamp = calendar.print_time responded_at;
}

abbrev pub Handled : Type 0 → Type 0 → Type 0 → Type 0
Handled K F D = Result PreventionResponse ℕ × World K F × D

-- the rows of a cursor, unless it fails on the way
abbrev pub listed : Cursor → Result (List BlockedIpInfo) ℕ
listed c = elim (c.failure) [
  | none ↦ ok (map info_of c.documents)
  | some _ ↦ err internal_server_error
]
