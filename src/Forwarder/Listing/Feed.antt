-- ===== src/Forwarder/Listing/Feed.antt =====
-- The lists against the table, and the feed that the packet processor synchronises with.
use netsentry_sensor.Common.{
  ℕ, ◌+◌, ◌≡◌, refl, ap, ◌∙◌, Bool, true, false, ◌&&◌, ◌||◌, Option, none, some, List, [], ◌∷◌,
  ◌++◌, arith, if◌then◌else◌, map, keep, any, is_some, All,
}
use mathlib.Core.List.{append_assoc}
use netsentry_sensor.Common.Dict.{Dict, IsMap, lookup}
use netsentry_sensor.Common.Text.{Text, codes, text_eq, text_eq_iff, text_eq_refl}
use netsentry_sensor.Forwarder.Listing.{
  is_live, live, text_ltb, insert_newest, sort_newest, list_blocked_ips, get_blocked_simple,
}
use netsentry_sensor.Forwarder.Service.{BlockedIpInfo, AppState, Calendar, trim_end_slashes}
use netsentry_sensor.PacketProcessor.Cache.{
  Entry, SyncClock, BlockedIps, Reply, response, take_reply, sync_blocked_ips,
}
use netsentry_sensor.PacketProcessor.Cache.Sync.{listed, lookup-take_reply}

text_ltb_asymm : (s t : Text) → text_ltb s t ≡ true → text_ltb t s ≡ false
text_ltb_asymm [] [] h = refl
text_ltb_asymm [] (b ∷ t) h = refl
text_ltb_asymm (a ∷ s) [] h = absurd (ground arith)
text_ltb_asymm (a ∷ s) (b ∷ t) h = ground (arith, text_ltb_asymm s t)

-- each entry is blocked no later than the one before it
abbrev pub IsNewestFirst : List BlockedIpInfo → Type 0
IsNewestFirst [] = Unit
IsNewestFirst (x ∷ []) = Unit
IsNewestFirst (x ∷ y ∷ ys) = (text_ltb x.blocked_at y.blocked_at ≡ false) × IsNewestFirst (y ∷ ys)

insert_newest-IsNewestFirst :
    (x : BlockedIpInfo) (xs : List BlockedIpInfo)
    → IsNewestFirst xs
    → IsNewestFirst (insert_newest x xs)
unfolding insert_newest
insert_newest-IsNewestFirst x [] h = tt
insert_newest-IsNewestFirst x (y ∷ []) h = ground (arith, text_ltb_asymm x.blocked_at y.blocked_at)
insert_newest-IsNewestFirst x (y ∷ z ∷ ys) (le, h) =
    ground
      (arith, text_ltb_asymm x.blocked_at y.blocked_at, insert_newest-IsNewestFirst x (z ∷ ys) h)

sort_newest-IsNewestFirst : (xs : List BlockedIpInfo) → IsNewestFirst (sort_newest xs)
unfolding sort_newest
sort_newest-IsNewestFirst [] = tt
sort_newest-IsNewestFirst (x ∷ xs) =
    insert_newest-IsNewestFirst x (sort_newest xs) (sort_newest-IsNewestFirst xs)

any-insert_newest :
    (p : BlockedIpInfo → Bool) (x : BlockedIpInfo) (xs : List BlockedIpInfo)
    → any p (insert_newest x xs) ≡ (p x || any p xs)
unfolding insert_newest any
any-insert_newest p x [] = refl
any-insert_newest p x (y ∷ ys) = ground (arith, any-insert_newest p x ys)

any-sort_newest :
    (p : BlockedIpInfo → Bool) (xs : List BlockedIpInfo) → any p (sort_newest xs) ≡ any p xs
unfolding sort_newest any
any-sort_newest p [] = refl
any-sort_newest p (x ∷ xs) =
    ground (arith, any-insert_newest p x (sort_newest xs), any-sort_newest p xs)

any-live :
    (calendar : Calendar) (now : ℕ) (p : BlockedIpInfo → Bool) (d : Dict BlockedIpInfo)
    → any p (map (λ e. e.1) (keep (λ e. is_live calendar now e.1) d))
      ≡ any (λ e. is_live calendar now e.1 && p e.1) d
unfolding any keep
any-live calendar now p [] = refl
any-live calendar now p ((j, info) ∷ d) = ground (arith, any-live calendar now p d)

-- The list is ordered by the time of the block, the newest first, and a test holds of one of its
-- entries exactly when it holds of a live entry of the table.
pub list_blocked_ips-IsNewestFirst :
    (calendar : Calendar) (now : ℕ) (s : AppState) (p : BlockedIpInfo → Bool)
    → IsNewestFirst (list_blocked_ips calendar now s)
      × (any p (list_blocked_ips calendar now s)
          ≡ any (λ e. is_live calendar now e.1 && p e.1) s.blocked_ips)
unfolding list_blocked_ips live
list_blocked_ips-IsNewestFirst calendar now s p = (
  sort_newest-IsNewestFirst (live calendar now s),
  any-sort_newest p (live calendar now s) ∙ any-live calendar now p s.blocked_ips,
)

-- every entry stands under its own address
abbrev pub IsKeyed : Dict BlockedIpInfo → Type 0
IsKeyed d = All (λ e. text_eq e.0 e.1.ip ≡ true) d

abbrev pub live_value : Calendar → ℕ → Option BlockedIpInfo → Bool
live_value calendar now none = false
live_value calendar now (some info) = is_live calendar now info

abbrev entry_of : BlockedIpInfo → Entry
entry_of info = record { ip = some info.ip; expires_at = some info.expires_at }

listed-live :
    (calendar : Calendar) (now : ℕ) (clock : ℕ → SyncClock) (i : ℕ) (ip : Text)
    (d : Dict BlockedIpInfo)
    → IsMap d
    → IsKeyed d
    → is_some (
        listed calendar.parse_time clock i ip
          (map entry_of (map (λ e. e.1) (keep (λ e. is_live calendar now e.1) d))))
      ≡ live_value calendar now (lookup ip d)
unfolding keep lookup
listed-live calendar now clock i ip [] h k = refl
listed-live calendar now clock i ip ((j, info) ∷ d) (fresh, h) (own, k) = ground (
  arith,
  listed-live calendar now clock i ip d h k,
  listed-live calendar now clock (i + 1) ip d h k,
  text_eq_iff j info.ip,
  text_eq_iff j ip,
  text_eq_iff info.ip ip,
)

-- The replies of a forwarder at `base` to a `GET`, by its routes, as the packet processor reads them: the
-- list of `/api/v1/blocked` is an array by itself, which has no `data`.
unfoldable pub forwarder_get :
    Calendar → (now : ℕ) → AppState → (base : Text) → (url : Text) → Reply
forwarder_get calendar now s base url =
    if text_eq url (base ++ codes "/blocked")
    then response 200 (some (get_blocked_simple calendar now s))
    else if text_eq url (base ++ codes "/api/v1/blocked")
    then response 200 none
    else response 404 none

text_eq-append : (base s t : Text) → text_eq s t ≡ false → text_eq (base ++ s) (base ++ t) ≡ false
unfolding text_eq
text_eq-append [] s t h = h
text_eq-append (c ∷ base) s t h = ground (arith, text_eq-append base s t h)

paths_apart : text_eq (codes "/api/v1/blocked") (codes "/blocked") ≡ false
unfolding text_eq codes
paths_apart = refl

forwarder_get-root :
    (calendar : Calendar) (now : ℕ) (s : AppState) (base : Text)
    → forwarder_get calendar now s base (base ++ codes "/blocked")
      ≡ response 200 (some (map entry_of (live calendar now s)))
unfolding forwarder_get get_blocked_simple live
forwarder_get-root calendar now s base = ground (arith, text_eq_refl (base ++ codes "/blocked"))

joined : codes "/api/v1" ++ codes "/blocked" ≡ codes "/api/v1/blocked"
unfolding codes
joined = refl

forwarder_get-api :
    (calendar : Calendar) (now : ℕ) (s : AppState) (base : Text)
    → forwarder_get calendar now s base ((base ++ codes "/api/v1") ++ codes "/blocked")
      ≡ response 200 none
unfolding forwarder_get
forwarder_get-api calendar now s base =
    rw (append_assoc base (codes "/api/v1") (codes "/blocked"), joined)
      (ground (
        arith,
        text_eq_refl (base ++ codes "/api/v1/blocked"),
        text_eq-append base (codes "/api/v1/blocked") (codes "/blocked") paths_apart,
      ))

take_reply-none :
    (parse_time : Text → Option ℕ) (clock : ℕ → SyncClock) (cache : BlockedIps)
    → take_reply parse_time clock (response 200 none) cache ≡ cache
unfolding take_reply
take_reply-none parse_time clock cache = refl

-- A packet processor that synchronises with a forwarder at `base`, whose table has each key once and
-- each entry under its own address. Where its URL is that of the forwarder, up to slashes at its end,
-- its cache has an entry for an address exactly when that table has a live one. Where its URL is that
-- with `/api/v1` behind it, as in the default settings, its cache stays as it was.
pub sync_blocked_ips-forwarder_get :
    (calendar : Calendar) (now : ℕ) (clock : ℕ → SyncClock) (s : AppState) (cache : BlockedIps)
    (base root_url api_url ip : Text)
    → IsMap s.blocked_ips
    → IsKeyed s.blocked_ips
    → trim_end_slashes root_url ≡ base
    → trim_end_slashes api_url ≡ base ++ codes "/api/v1"
    → (is_some (
          lookup ip (
            sync_blocked_ips calendar.parse_time clock
              (forwarder_get calendar now s base)
              root_url
              cache))
        ≡ live_value calendar now (lookup ip s.blocked_ips))
      × (sync_blocked_ips calendar.parse_time clock
            (forwarder_get calendar now s base)
            api_url
            cache
          ≡ cache)
unfolding sync_blocked_ips live
sync_blocked_ips-forwarder_get calendar now clock s cache base root_url api_url ip h k root api = (
  rw (root, forwarder_get-root calendar now s base)
      (ap is_some (
          lookup-take_reply calendar.parse_time clock 200 (map entry_of (live calendar now s)) cache
            ip refl)
        ∙ listed-live calendar now clock 0 ip s.blocked_ips h k),
  rw (api, forwarder_get-api calendar now s base) (take_reply-none calendar.parse_time clock cache),
)
