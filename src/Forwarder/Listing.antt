-- ===== src/Forwarder/Listing.antt =====
-- firewall-forwarder/src/main.rs: the lists of the blocked addresses.
pub mod Feed
use netsentry_sensor.Common.{
  ℕ, ◌≡◌, Bool, true, false, not, Option, none, some, List, [], ◌∷◌, ◌++◌, map, keep, length, ltb,
  ◌==◌, if◌then◌else◌, is_empty,
}
use netsentry_sensor.Common.Text.{Text, codes}
use netsentry_sensor.Forwarder.Service.{BlockedIpInfo, AppState, Calendar}
use netsentry_sensor.PacketProcessor.Cache.{Entry}

abbrev pub is_live : Calendar → ℕ → BlockedIpInfo → Bool
is_live calendar now info = elim (calendar.parse_time info.expires_at) [
  | none ↦ false
  | some expires ↦ ltb now expires
]

-- the entries that the three listings show
unfoldable pub live : Calendar → (now : ℕ) → AppState → List BlockedIpInfo
live calendar now s = map (λ e. e.1) (keep (λ e. is_live calendar now e.1) s.blocked_ips)

-- `a < b` of strings
abbrev pub text_ltb : Text → Text → Bool
text_ltb [] [] = false
text_ltb [] (_ ∷ _) = true
text_ltb (_ ∷ _) [] = false
text_ltb (a ∷ s) (b ∷ t) =
    let rest = text_ltb s t in if ltb a b then true else if a == b then rest else false

unfoldable pub insert_newest : BlockedIpInfo → List BlockedIpInfo → List BlockedIpInfo
insert_newest x [] = x ∷ []
insert_newest x (y ∷ ys) =
    let rest = insert_newest x ys in
    if text_ltb x.blocked_at y.blocked_at then y ∷ rest else x ∷ y ∷ ys

-- The stable sort by `blocked_at`, the greatest first.
unfoldable pub sort_newest : List BlockedIpInfo → List BlockedIpInfo
unfolding insert_newest
sort_newest [] = []
sort_newest (x ∷ xs) = insert_newest x (sort_newest xs)

unfoldable pub list_blocked_ips : Calendar → (now : ℕ) → AppState → List BlockedIpInfo
unfolding live sort_newest
list_blocked_ips calendar now s = sort_newest (live calendar now s)

pub record PreventionStats : Type 0 where
  pub total_blocked : ℕ
  pub firewall_configured : Bool
  pub blocked_ips : List BlockedIpInfo

unfoldable pub get_prevention_stats : Calendar → (now : ℕ) → AppState → PreventionStats
unfolding live
get_prevention_stats calendar now s = record {
  total_blocked = length (live calendar now s);
  firewall_configured = not (is_empty s.firewall_url);
  blocked_ips = live calendar now s;
}

-- the array under `data`
unfoldable pub get_blocked_simple : Calendar → (now : ℕ) → AppState → List Entry
unfolding live
get_blocked_simple calendar now s =
    map (λ info. record { ip = some info.ip; expires_at = some info.expires_at })
      (live calendar now s)
