-- ===== src/PacketProcessor/Cache.antt =====
-- packet-processor/src/main.rs: the cache of blocked addresses, its eviction, and its synchronisation
-- with the service that blocks. Times are in nanoseconds.
pub mod Sync
use netsentry_sensor.Common.{
  ℕ, ◌+◌, ◌-◌, ◌*◌, ◌/◌, ◌≤◌, ◌≡◌, Bool, true, false, ◌&&◌, Option, none, some, List, [], ◌∷◌, ◌++◌,
  map, keep, ltb, leb, if◌then◌else◌, nanos_per_sec,
}
use mathlib.Core.Option
use netsentry_sensor.Common.Dict.{Dict, lookup, insert, remove}
use netsentry_sensor.Common.Text.{Text, codes}
use netsentry_sensor.Forwarder.Service.{trim_end_slashes}

pub record BlockedIpInfo : Type 0 where
  pub blocked_at : ℕ
  pub expires_at : Option ℕ

abbrev pub BlockedIps : Type 0
BlockedIps = Dict BlockedIpInfo

unfoldable pub is_ip_blocked : (now : ℕ) → Text → BlockedIps → Bool
is_ip_blocked now ip blocked_ips = elim (lookup ip blocked_ips) [
  | none ↦ false
  | some info ↦ elim info.expires_at [ none ↦ true | some expires_at ↦ ltb now expires_at ]
]

abbrev pub is_expired : ℕ → Text × BlockedIpInfo → Bool
is_expired now e = elim e.1.expires_at [ none ↦ false | some expires_at ↦ leb expires_at now ]

unfoldable pub evict : List Text → BlockedIps → BlockedIps
evict [] blocked_ips = blocked_ips
evict (ip ∷ ips) blocked_ips = evict ips (remove ip blocked_ips)

-- one tick of `run_ttl_cleanup`
unfoldable pub ttl_cleanup : (now : ℕ) → BlockedIps → BlockedIps
ttl_cleanup now blocked_ips = evict (map (λ e. e.0) (keep (is_expired now) blocked_ips)) blocked_ips

-- An element of the array `data`: its fields where they are strings.
pub record Entry : Type 0 where
  pub ip : Option Text
  pub expires_at : Option Text

-- The readings of the clocks for an entry, in the order of the calls.
pub record SyncClock : Type 0 where
  pub utc_now : ℕ
  pub expiry_base : ℕ
  pub blocked_at : ℕ

-- What `client.get(&url).send()` and `resp.json()` give; `body` is the array under `data`, where the
-- body has one.
pub data Reply : Type 0 where
  response : (status : ℕ) (body : Option (List Entry)) → Reply
  failed : Reply

abbrev pub is_success : ℕ → Bool
is_success status = leb 200 status && ltb status 300

-- The whole seconds from the clock to `expires`, at least 0, after the other clock. A time that
-- RFC 3339 can write leaves the sum in range.
unfoldable pub local_expiry : SyncClock → ℕ → ℕ
local_expiry c expires = c.expiry_base + (expires - c.utc_now) / nanos_per_sec * nanos_per_sec

unfoldable pub insert_entry :
    (parse_time : Text → Option ℕ) → SyncClock → Entry → BlockedIps → BlockedIps
unfolding local_expiry
insert_entry parse_time c e blocked_ips = elim e.ip [
  | none ↦ blocked_ips
  | some ip ↦
      let parsed : Option ℕ = elim e.expires_at [ none ↦ none | some text ↦ parse_time text ] in
      let info : BlockedIpInfo = record {
        blocked_at = c.blocked_at;
        expires_at = Option.map (local_expiry c) parsed;
      } in
      insert ip info blocked_ips
]

-- The clocks of the entries are read one after the other.
unfoldable pub insert_entries :
    (parse_time : Text → Option ℕ)
    → (clock : ℕ → SyncClock) → ℕ
    → List Entry
    → BlockedIps
    → BlockedIps
unfolding insert_entry
insert_entries parse_time clock i [] blocked_ips = blocked_ips
insert_entries parse_time clock i (e ∷ es) blocked_ips =
    insert_entries parse_time clock (i + 1) es (insert_entry parse_time (clock i) e blocked_ips)

-- what is made of the reply
unfoldable pub take_reply :
    (parse_time : Text → Option ℕ) → (clock : ℕ → SyncClock) → Reply → BlockedIps → BlockedIps
unfolding insert_entries
take_reply parse_time clock failed blocked_ips = blocked_ips
take_reply parse_time clock (response status none) blocked_ips = blocked_ips
take_reply parse_time clock (response status (some arr)) blocked_ips =
    if is_success status then insert_entries parse_time clock 0 arr [] else blocked_ips

-- one tick of `sync_blocked_ips`; `get` is what answers a request for a URL
unfoldable pub sync_blocked_ips :
    (parse_time : Text → Option ℕ)
    → (clock : ℕ → SyncClock) → (get : Text → Reply) → (network_filter_url : Text) → BlockedIps
    → BlockedIps
unfolding take_reply
sync_blocked_ips parse_time clock get network_filter_url blocked_ips =
    take_reply parse_time clock (get (trim_end_slashes network_filter_url ++ codes "/blocked"))
      blocked_ips
