-- ===== src/NetworkFilter/Api/Handlers.antt =====
-- network-filter/src/controllers/mod.rs: the handlers. A handler answers with a response or the
-- status of an error, and leaves the filter with its world and the database; `none` stands for a
-- panic. Failures of the database that the source only logs leave no trace here either.
use netsentry_sensor.Common.{
  ℕ, ◌%◌, ◌||◌, not, Option, none, some, List, [], map, length, is_empty, if◌then◌else◌, ◌>>=◌,
  u8_mod,
}
use netsentry_sensor.Common.Outcome.{Result, ok, err}
use netsentry_sensor.Common.Text.{Text, text_eq, codes}
use netsentry_sensor.Forwarder.Service.{Calendar}
use netsentry_sensor.NetworkFilter.Api.Documents.{Database, is_active, is_active_for, deactivated}
use netsentry_sensor.NetworkFilter.Api.Messages.{
  BlockRequest, UnblockRequest, BlockedIpInfo, PreventionStats, IpDomainsResponse, HandlerClock,
  Handled, normalize_ipv4_target, bad_request, internal_server_error, bad_gateway, millis, document,
  response, info_of_row, listed,
}
use netsentry_sensor.NetworkFilter.Blocking.{block_ip_direct}
use netsentry_sensor.NetworkFilter.Blocking
use netsentry_sensor.NetworkFilter.Filter.{Times, get_blocked_ips}
use netsentry_sensor.NetworkFilter.Firewall.{Machine}
use netsentry_sensor.NetworkFilter.State.{World}

module _ {K F D : Type 0} where
  -- `block_ip` once the filter has come back
  unfoldable pub persist_block :
      Calendar
      → Database D
      → (dns : Text → List Text) → HandlerClock
      → (ip : Text) → BlockRequest
      → Result (Unit {0}) Text × World K F
      → D
      → Option (Handled K F D)
  persist_block calendar db dns c ip request (err _, w) d = some (err bad_gateway, w, d)
  persist_block calendar db dns c ip request (ok _, w) d = do
    expires_at ← calendar.hours_after c.document_at request.duration_hours
    let saved = db.insert_one (document calendar ip request (dns ip) c.document_at expires_at) d
    some (ok (response calendar c.responded_at ip (codes " blocked successfully")), w, saved.1)

  unfoldable pub block_ip :
      Machine K
      → Times
      → Calendar
      → Database D
      → (dns : Text → List Text) → HandlerClock
      → BlockRequest
      → World K F
      → D
      → Option (Handled K F D)
  unfolding persist_block
  block_ip m times calendar db dns c request w d = elim (normalize_ipv4_target request.ip) [
    | none ↦ some (err bad_request, w, d)
    | some ip ↦ do
      done ←
          block_ip_direct m times c.block ip request.reason (request.threat_level % u8_mod)
            request.duration_hours request.source w
      persist_block calendar db dns c ip request done d
  ]

  -- the two handlers that unblock, once the filter has come back
  unfoldable pub persist_unblock :
      Calendar
      → Database D
      → HandlerClock
      → (ip reason : Text) → Result (Unit {0}) Text × World K F
      → D
      → Handled K F D
  persist_unblock calendar db c ip reason (err _, w) d = (err internal_server_error, w, d)
  persist_unblock calendar db c ip reason (ok _, w) d =
      let saved =
        db.update_newest (is_active_for ip) (deactivated (millis c.document_at) reason) d in
      (ok (response calendar c.responded_at ip (codes " unblocked successfully")), w, saved.1)

  unfoldable pub unblock_ip :
      Machine K
      → Calendar
      → Database D
      → HandlerClock
      → UnblockRequest
      → World K F
      → D
      → Handled K F D
  unfolding persist_unblock
  unblock_ip m calendar db c request w d = elim (normalize_ipv4_target request.ip) [
    | none ↦ (err bad_request, w, d)
    | some ip ↦ persist_unblock calendar db c ip request.reason (Blocking.unblock_ip m ip w) d
  ]

  unfoldable pub unblock_ip_by_path :
      Machine K → Calendar → Database D → HandlerClock → (ip : Text) → World K F → D → Handled K F D
  unfolding persist_unblock
  unblock_ip_by_path m calendar db c ip w d = elim (normalize_ipv4_target ip) [
    | none ↦ (err bad_request, w, d)
    | some target ↦
        persist_unblock calendar db c target (codes "path_unblock") (Blocking.unblock_ip m target w)
          d
  ]

  unfoldable pub list_blocked_ips :
      Calendar → Database D → (now : ℕ) → World K F → D → Result (List BlockedIpInfo) ℕ
  list_blocked_ips calendar db now w d = elim (db.find_newest is_active d) [
    | err _ ↦ ok (map (info_of_row calendar) (get_blocked_ips now w.filter))
    | ok c ↦ listed c
  ]

  unfoldable pub get_prevention_stats :
      Calendar → Database D → (now : ℕ) → World K F → D → Result PreventionStats ℕ
  unfolding list_blocked_ips
  get_prevention_stats calendar db now w d = elim (list_blocked_ips calendar db now w d) [
    | err status ↦ err status
    | ok blocked_ips ↦ ok (record {
      total_blocked = length blocked_ips;
      total_trusted = w.filter.stats.fast_tracked_packets;
      total_processed = w.filter.stats.total_packets;
      blocked_ips = blocked_ips;
    })
  ]

-- what the database knows of the names of an address, if it knows any
abbrev pub known_domains : {D : Type 0} → Database D → (ip : Text) → D → Option IpDomainsResponse
known_domains db ip d = elim (db.find_one (λ x. text_eq x.ip ip) d) [
  | ok (some x) ↦
      if not (is_empty x.dns_names) || not (is_empty x.associated_domains)
      then some
          (record { ip = ip; dns_names = x.dns_names; associated_domains = x.associated_domains })
      else none
  | _ ↦ none
]

unfoldable pub get_ip_domains :
    {D : Type 0}
    → Database D
    → (dns : Text → List Text) → (ip : Text) → D
    → Result IpDomainsResponse ℕ
get_ip_domains db dns ip d = elim (normalize_ipv4_target ip) [
  | none ↦ err bad_request
  | some target ↦ elim (known_domains db target d) [
    | some answer ↦ ok answer
    | none ↦ ok (record { ip = target; dns_names = dns target; associated_domains = [] })
  ]
]
