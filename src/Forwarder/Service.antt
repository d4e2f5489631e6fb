-- ===== src/Forwarder/Service.antt =====
-- firewall-forwarder/src/main.rs: the requests that block and unblock, and the cleanup task. Times are
-- in nanoseconds since 1970.
pub mod Blocks
use netsentry_sensor.Common.{
  ℕ, ◌≡◌, Bool, true, false, ◌&&◌, Option, none, some, List, [], ◌∷◌, ◌++◌, map, keep, ltb, leb,
  ◌==◌, if◌then◌else◌,
}
use mathlib.Core.List.{reverse}
use netsentry_sensor.Common.Dict.{Dict, lookup, insert, remove}
use netsentry_sensor.Common.Outcome.{Result, ok, err}
use netsentry_sensor.Common.Text.{Text, codes}
use netsentry_sensor.Forwarder.Address.{normalize_ipv4_target}

pub record BlockRequest : Type 0 where
  pub ip : Text
  pub reason : Text
  pub threat_level : ℕ
  pub duration_hours : ℕ
  pub source : Text

pub record UnblockRequest : Type 0 where
  pub ip : Text
  pub reason : Text

pub record BlockedIpInfo : Type 0 where
  pub ip : Text
  pub reason : Text
  pub threat_level : ℕ
  pub blocked_at : Text
  pub expires_at : Text
  pub source : Text
  pub firewall_enforced : Bool

pub record AppState : Type 0 where
  pub firewall_url : Text
  pub firewall_api_key : Text
  pub blocked_ips : Dict BlockedIpInfo

pub record PreventionResponse : Type 0 where
  pub success : Bool
  pub message : Text
  pub timestamp : Text

-- the bodies of the requests to the router
pub data Message : Type 0 where
  block : (ip reason : Text) (duration_hours : ℕ) → Message
  unblock : (ip : Text) → Message

-- The router, as `reqwest` shows it: `send` posts a message to a URL with a key, and answers with a
-- status or the text of an error. `print_status` is how a `StatusCode` prints.
pub record Router (R : Type 0) : Type 0 where
  pub send : (url api_key : Text) → Message → R → Result ℕ Text × R
  pub print_status : ℕ → Text

-- `chrono`: `print_time` is `to_rfc3339`, `parse_time` is `parse_from_rfc3339`, and `hours_after` adds
-- `Duration::hours(hours as i64)` for a `u64`; it is `none` out of range, where the source panics.
pub record Calendar : Type 0 where
  pub print_time : ℕ → Text
  pub parse_time : Text → Option ℕ
  pub hours_after : (time hours : ℕ) → Option ℕ

abbrev drop_slashes : Text → Text
drop_slashes [] = []
drop_slashes (c ∷ s) = let rest = drop_slashes s in if c == b'/' then rest else c ∷ s

-- `url.trim_end_matches('/')`
unfoldable pub trim_end_slashes : Text → Text
trim_end_slashes url = reverse (drop_slashes (reverse url))

abbrev pub Forwarded : Type 0
Forwarded = Result {0, 0} Unit Text

abbrev pub is_ok : Forwarded → Bool
is_ok (ok _) = true
is_ok (err _) = false

abbrev pub bad_request : ℕ
bad_request = 400

-- the answer to a block
abbrev pub blocked_response :
    Calendar → (responded_at : ℕ) → (ip : Text) → (firewall_enforced : Bool) → PreventionResponse
blocked_response calendar responded_at ip firewall_enforced = record {
  success = true;
  message =
      codes "IP "
      ++ ip
      ++ (if firewall_enforced
          then codes " blocked on firewall and cached locally"
          else codes " cached locally (firewall API unavailable - monitoring only)");
  timestamp = calendar.print_time responded_at;
}

module _ {R : Type 0} (router : Router R) where
  abbrev pub answer : Result ℕ Text → Forwarded
  answer (err e) = err (codes "Failed to connect to firewall: " ++ e)
  answer (ok status) =
      if leb 200 status && ltb status 300
      then ok tt
      else err (codes "Firewall API returned " ++ router.print_status status)

  unfoldable pub forward_block_to_firewall :
      (firewall_url api_key ip reason : Text) (duration_hours : ℕ) → R → Forwarded × R
  forward_block_to_firewall firewall_url api_key ip reason duration_hours r =
      let sent =
        router.send (trim_end_slashes firewall_url ++ codes "/api/firewall/block") api_key
          (Message.block ip reason duration_hours) r in
      (answer sent.0, sent.1)

  unfoldable pub forward_unblock_to_firewall : (firewall_url api_key ip : Text) → R → Forwarded × R
  forward_unblock_to_firewall firewall_url api_key ip r =
      let sent =
        router.send (trim_end_slashes firewall_url ++ codes "/api/firewall/unblock") api_key
          (Message.unblock ip) r in
      (answer sent.0, sent.1)

  -- the result of a handler: a response, or the status of an error; with the service and the router
  abbrev pub Handled : Type 0
  Handled = Result PreventionResponse ℕ × AppState × R

  -- `none` stands for a panic of the handler, after the router has been told.
  unfoldable pub block_ip :
      Calendar → (utc_now responded_at : ℕ) → BlockRequest → AppState → R → Option Handled
  unfolding forward_block_to_firewall
  block_ip calendar utc_now responded_at request s r = elim (normalize_ipv4_target request.ip) [
    | none ↦ some (err bad_request, s, r)
    | some ip ↦
        let forwarded =
          forward_block_to_firewall s.firewall_url s.firewall_api_key ip request.reason
            request.duration_hours r in
        elim (calendar.hours_after utc_now request.duration_hours) [
          | none ↦ none
          | some expires ↦
              let info : BlockedIpInfo = record {
                ip = ip;
                reason = request.reason;
                threat_level = request.threat_level;
                blocked_at = calendar.print_time utc_now;
                expires_at = calendar.print_time expires;
                source = request.source;
                firewall_enforced = is_ok forwarded.0;
              } in
              some (
                ok (blocked_response calendar responded_at ip (is_ok forwarded.0)),
                record s { blocked_ips = insert ip info s.blocked_ips },
                forwarded.1,
              )
        ]
  ]

  -- `unblock_ip_by_path`
  unfoldable pub unblock_ip_by_path :
      Calendar → (responded_at : ℕ) → (ip : Text) → AppState → R → Handled
  unfolding forward_unblock_to_firewall
  unblock_ip_by_path calendar responded_at ip s r = elim (normalize_ipv4_target ip) [
    | none ↦ (err bad_request, s, r)
    | some normalized_ip ↦
        let forwarded =
          forward_unblock_to_firewall s.firewall_url s.firewall_api_key normalized_ip r in
        let response : PreventionResponse = record {
          success = true;
          message = codes "IP " ++ normalized_ip ++ codes " unblocked";
          timestamp = calendar.print_time responded_at;
        } in
        (ok response, record s { blocked_ips = remove normalized_ip s.blocked_ips }, forwarded.1)
  ]

  -- `unblock_ip` has the body of `unblock_ip_by_path`, on the address of the request.
  unfoldable pub unblock_ip :
      Calendar → (responded_at : ℕ) → UnblockRequest → AppState → R → Handled
  unblock_ip calendar responded_at request s r =
      unblock_ip_by_path calendar responded_at request.ip s r

abbrev pub is_expired : Calendar → ℕ → BlockedIpInfo → Bool
is_expired calendar now info = elim (calendar.parse_time info.expires_at) [
  | none ↦ false
  | some expires ↦ leb expires now
]

-- The first half of a tick of the cleanup task, under the lock for reading.
unfoldable pub collect_expired : Calendar → (now : ℕ) → AppState → List Text
collect_expired calendar now s =
    map (λ e. e.0) (keep (λ e. is_expired calendar now e.1) s.blocked_ips)

abbrev pub remove_all : List Text → Dict BlockedIpInfo → Dict BlockedIpInfo
remove_all [] d = d
remove_all (ip ∷ ips) d = remove_all ips (remove ip d)

-- The second half, under the lock for writing.
unfoldable pub remove_expired : List Text → AppState → AppState
remove_expired expired s = record s { blocked_ips = remove_all expired s.blocked_ips }
