-- ===== src/PacketProcessor/Cache/Sync.antt =====
-- What eviction and synchronisation make of the cache.
use netsentry_sensor.Common.{
  ℕ, ◌+◌, ◌-◌, ◌≤◌, ◌<◌, ◌≡◌, refl, ◌∙◌, Bool, true, false, Option, none, some, List, [], ◌∷◌,
  arith, map, keep, any, leb, if◌then◌else◌, Option-cases, inl, inr, nanos_per_sec,
}
use mathlib.Core.Option
use netsentry_sensor.Common.Dict.{IsMap, lookup, remove, lookup-remove, lookup-insert}
use netsentry_sensor.Common.Text.{Text, text_eq, text_eq_iff}
use netsentry_sensor.PacketProcessor.Cache.{
  BlockedIpInfo, BlockedIps, is_ip_blocked, is_expired, evict, ttl_cleanup, Entry, SyncClock,
  response, is_success, local_expiry, insert_entry, insert_entries, take_reply,
}

lookup-evict :
    (ips : List Text) (k : Text) (b : BlockedIps)
    → lookup k (evict ips b) ≡ (if any (λ ip. text_eq ip k) ips then none else lookup k b)
unfolding evict any
lookup-evict [] k b = refl
lookup-evict (ip ∷ ips) k b = ground (arith, lookup-evict ips k (remove ip b), lookup-remove ip k b)

abbrev has_expired : ℕ → Option BlockedIpInfo → Bool
has_expired now none = false
has_expired now (some info) = elim info.expires_at [
  | none ↦ false
  | some expires_at ↦ leb expires_at now
]

any-expired :
    (now : ℕ) (k : Text) (b : BlockedIps)
    → IsMap b
    → any (λ ip. text_eq ip k) (map (λ e. e.0) (keep (is_expired now) b))
      ≡ has_expired now (lookup k b)
unfolding any keep lookup
any-expired now k [] h = refl
any-expired now k ((j, info) ∷ b) (fresh, h) =
    ground (arith, any-expired now k b h, text_eq_iff j k)

-- In a cache in which each key stands once, evicting the expired entries changes no verdict, at the
-- time of the eviction or later.
pub is_ip_blocked-ttl_cleanup :
    (now later : ℕ) (ip : Text) (b : BlockedIps)
    → IsMap b
    → now ≤ later
    → is_ip_blocked later ip (ttl_cleanup now b) ≡ is_ip_blocked later ip b
unfolding is_ip_blocked ttl_cleanup
is_ip_blocked-ttl_cleanup now later ip b h le =
    ground
      (arith, lookup-evict (map (λ e. e.0) (keep (is_expired now) b)) ip b, any-expired now ip b h)

module _ (parse_time : Text → Option ℕ) (clock : ℕ → SyncClock) where
  abbrev info_of : SyncClock → Entry → BlockedIpInfo
  info_of c e = record {
    blocked_at = c.blocked_at;
    expires_at =
        Option.map (local_expiry c)
          (elim e.expires_at [ none ↦ none | some text ↦ parse_time text ]);
  }

  -- what a listing says of an address: its last entry for it, read by the clock of that entry
  abbrev pub listed : ℕ → Text → List Entry → Option BlockedIpInfo
  listed i ip [] = none
  listed i ip (e ∷ es) = elim (listed (i + 1) ip es) [
    | some info ↦ some info
    | none ↦ elim e.ip [
      | none ↦ none
      | some k ↦ if text_eq k ip then some (info_of (clock i) e) else none
    ]
  ]

  abbrev or_else : Option BlockedIpInfo → Option BlockedIpInfo → Option BlockedIpInfo
  or_else none o = o
  or_else (some info) o = some info

  or_else-none : (o : Option BlockedIpInfo) → or_else o none ≡ o
  or_else-none none = refl
  or_else-none (some info) = refl

  lookup-insert_entry :
      (c : SyncClock) (ip : Text) (e : Entry) (b : BlockedIps)
      → lookup ip (insert_entry parse_time c e b)
        ≡ or_else
            (elim e.ip [ none ↦ none | some k ↦ if text_eq k ip then some (info_of c e) else none ])
            (lookup ip b)
  unfolding insert_entry
  lookup-insert_entry c ip e b = elim (Option-cases e.ip) [
    | inl missing ↦ ground (arith, missing)
    | inr (k, found) ↦ ground (arith, found, lookup-insert k ip (info_of c e) b)
  ]

  lookup-insert_entries :
      (i : ℕ) (ip : Text) (es : List Entry) (b : BlockedIps)
      → lookup ip (insert_entries parse_time clock i es b) ≡ or_else (listed i ip es) (lookup ip b)
  unfolding insert_entries insert_entry
  lookup-insert_entries i ip [] b = refl
  lookup-insert_entries i ip (e ∷ es) b = ground (
    arith,
    lookup-insert_entries (i + 1) ip es (insert_entry parse_time (clock i) e b),
    lookup-insert_entry (clock i) ip e b,
  )

  -- After a successful reply the cache holds, for each address, what the last entry for it says, and
  -- nothing of what it held before.
  pub lookup-take_reply :
      (status : ℕ) (arr : List Entry) (b : BlockedIps) (ip : Text)
      → is_success status ≡ true
      → lookup ip (take_reply parse_time clock (response status (some arr)) b) ≡ listed 0 ip arr
  unfolding take_reply lookup
  lookup-take_reply status arr b ip h =
      rw h (lookup-insert_entries 0 ip arr [] ∙ or_else-none (listed 0 ip arr))

-- Where the time that an entry names is not past, the local expiry lies within the second before it,
-- as the difference of the clocks tells it.
pub local_expiry-within :
    (c : SyncClock) (expires : ℕ)
    → c.utc_now ≤ expires
    → (local_expiry c expires ≤ c.expiry_base + (expires - c.utc_now))
      × (c.expiry_base + (expires - c.utc_now) < local_expiry c expires + nanos_per_sec)
unfolding local_expiry
local_expiry-within c expires h = ground arith
