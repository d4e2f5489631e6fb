-- ===== src/NetworkFilter/Expiry.antt =====
-- What the cleanup task leaves in the tables.
use netsentry_sensor.Common.{
  ℕ, ◌+◌, ◌≤◌, ◌≡◌, refl, Bool, false, Option, none, some, List, [], ◌∷◌, arith, map, keep, any,
  ltb, leb, if◌then◌else◌,
}
use netsentry_sensor.Common.Dict.{
  Dict, IsMap, lookup, remove, keep_value, lookup-remove, lookup-retain, remove-IsMap,
}
use netsentry_sensor.Common.Text.{Text, text_eq, text_eq_iff}
use netsentry_sensor.NetworkFilter.Decisions.{
  cleanup, expired_ips, finish_cleanup, remove_all, is_expired,
}
use netsentry_sensor.NetworkFilter.Filter.{is_ip_blocked}
use netsentry_sensor.NetworkFilter.Firewall.{Machine}
use netsentry_sensor.NetworkFilter.State.{BlockedIp, TrustedIp, PendingPacket, NetworkFilter, World}

-- Each table has each key once.
pub record IsWellFormed {F : Type 0} (f : NetworkFilter F) : Type 0 where
  pub blocked : IsMap f.blocked_ips
  pub trusted : IsMap f.trusted_ips
  pub pending : IsMap f.pending_packets

lookup-remove_all :
    (ips : List Text) (k : Text) (d : Dict BlockedIp)
    → lookup k (remove_all ips d) ≡ (if any (λ ip. text_eq ip k) ips then none else lookup k d)
unfolding remove_all any
lookup-remove_all [] k d = refl
lookup-remove_all (ip ∷ ips) k d =
    ground (arith, lookup-remove_all ips k (remove ip d), lookup-remove ip k d)

pub remove_all-IsMap : (ips : List Text) (d : Dict BlockedIp) → IsMap d → IsMap (remove_all ips d)
unfolding remove_all
remove_all-IsMap [] d h = h
remove_all-IsMap (ip ∷ ips) d h = remove_all-IsMap ips (remove ip d) (remove-IsMap ip d h)

abbrev expired_keys : ℕ → Dict BlockedIp → List Text
expired_keys now d = map (λ e. e.0) (keep (is_expired now) d)

abbrev expired_value : ℕ → Option BlockedIp → Bool
expired_value now none = false
expired_value now (some b) = leb b.expires_at now

-- a key is among the expired ones exactly when its entry has expired
any-expired_keys :
    (now : ℕ) (k : Text) (d : Dict BlockedIp)
    → IsMap d
    → any (λ ip. text_eq ip k) (expired_keys now d) ≡ expired_value now (lookup k d)
unfolding any keep lookup
any-expired_keys now k [] h = refl
any-expired_keys now k ((j, b) ∷ d) (fresh, h) =
    ground (arith, any-expired_keys now k d h, text_eq_iff j k)

-- Where each table has each key once, and no other task changes them during the tick, one tick of the
-- cleanup task leaves, in each table, exactly the entries that have not expired at its time, as they
-- were.
pub cleanup-lookup :
    {K F : Type 0} (m : Machine K) (now : ℕ) (w : World K F) (k : Text)
    → IsWellFormed w.filter
    → (lookup k (cleanup m now w).filter.blocked_ips
        ≡ keep_value (λ b. ltb now b.expires_at) (lookup k w.filter.blocked_ips))
      × (lookup k (cleanup m now w).filter.trusted_ips
          ≡ keep_value (λ t. ltb now t.expires_at) (lookup k w.filter.trusted_ips))
      × (lookup k (cleanup m now w).filter.pending_packets
          ≡ keep_value
              (λ p. ltb now (p.created_at + p.timeout))
              (lookup k w.filter.pending_packets))
unfolding cleanup
cleanup-lookup m now w k h = (
  ground (
    arith,
    lookup-remove_all (expired_keys now w.filter.blocked_ips) k w.filter.blocked_ips,
    any-expired_keys now k w.filter.blocked_ips h.blocked,
  ),
  lookup-retain (λ (t : TrustedIp). ltb now t.expires_at) k w.filter.trusted_ips h.trusted,
  lookup-retain (λ (p : PendingPacket). ltb now (p.created_at + p.timeout)) k
      w.filter.pending_packets h.pending,
)

-- An address whose entry has expired when a tick of the cleanup task starts, in a table that has each
-- key once: whatever other tasks do before the second half of the tick, a new block of the address
-- included, the address is not blocked after the tick, at any time.
pub finish_cleanup-expired_ips :
    {K F : Type 0} (m : Machine K) (now later : ℕ) (w w' : World K F) (ip : Text) (b : BlockedIp)
    → IsMap w.filter.blocked_ips
    → lookup ip w.filter.blocked_ips ≡ some b
    → b.expires_at ≤ now
    → is_ip_blocked later ip (finish_cleanup m now (expired_ips now w) w').filter ≡ false
unfolding expired_ips finish_cleanup is_ip_blocked
finish_cleanup-expired_ips m now later w w' ip b h found late = ground (
  arith,
  lookup-remove_all (expired_keys now w.filter.blocked_ips) ip w'.filter.blocked_ips,
  any-expired_keys now ip w.filter.blocked_ips h,
)
