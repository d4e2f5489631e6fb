-- ===== src/NetworkFilter/Filter.antt =====
-- network-filter/src/lib.rs, the operations of `NetworkFilter`. A reading of a clock is an argument,
-- named for its place in the call. `none` stands for a panic, which ends the process, or for a call
-- that waits for ever.
use netsentry_sensor.Common.{
  ℕ, ◌-◌, ◌*◌, ◌%◌, Bool, false, Option, none, some, List, ◌++◌, map, keep, ltb, if◌then◌else◌,
  ◌>>=◌, add64, u64_mod,
}
use netsentry_sensor.Common.Dict.{lookup, insert, remove}
use netsentry_sensor.Common.Text.{Text, codes}
use netsentry_sensor.NetworkFilter.State.{
  BlockedIp, TrustedIp, FilterConfig, NetworkFilter, FilterDecision, block, allow, pending,
}
use netsentry_sensor.Shared.Types.{Packet}

-- `x + Duration` of the library of times; `none` where the sum is out of its range, a panic.
-- `utc_after now s` is `now + chrono::Duration::seconds(s as i64)` for a `u64` s.
pub record Times : Type 0 where
  pub instant_after : ℕ → ℕ → Option ℕ
  pub utc_after : ℕ → ℕ → Option ℕ

-- `hours * 3600` of type `u64`
abbrev pub hours_secs : ℕ → ℕ
hours_secs hours = hours * 3600 % u64_mod

-- The readings of `Instant::now()` in `should_block_packet` and `update_trust_stats`.
pub record CheckClock : Type 0 where
  pub start : ℕ
  pub at_blocked : ℕ
  pub at_trusted : ℕ
  pub at_seen : ℕ
  pub at_extended : ℕ
  pub finish : ℕ

-- The readings in the operations that block an address.
pub record BlockClock : Type 0 where
  pub utc_now : ℕ
  pub blocked_at : ℕ
  pub expiry_base : ℕ

-- the entry after one more packet
unfoldable pub refreshed : Times → CheckClock → FilterConfig → TrustedIp → Option TrustedIp
refreshed times c config t =
    let seen : TrustedIp = record t {
      packet_count = add64 t.packet_count 1;
      last_seen = c.at_seen;
    } in
    if ltb config.trust_threshold_packets (add64 t.packet_count 1)
    then (do
      expires ←
          times.instant_after c.at_extended
            (config.trust_duration_minutes * 60 % u64_mod * 2 % u64_mod)
      some (record seen { expires_at = expires }))
    else some seen

abbrev pub row : Text × BlockedIp → Text × Text × ℕ × ℕ × ℕ × Text
row (ip, b) = (ip, b.reason, b.threat_level, b.blocked_at_utc, b.expires_at_utc, b.source)

module _ {F : Type 0} where
  abbrev pub count_packet : NetworkFilter F → NetworkFilter F
  count_packet f = record f {
    stats = record (f.stats) { total_packets = add64 f.stats.total_packets 1 };
  }

  unfoldable pub update_trust_stats :
      Times → CheckClock → Text → NetworkFilter F → Option (NetworkFilter F)
  update_trust_stats times c ip f = elim (lookup ip f.trusted_ips) [
    | none ↦ some f
    | some t ↦ do
      t' ← refreshed times c f.config t
      some (record f { trusted_ips = insert ip t' f.trusted_ips })
  ]

  -- the part of `should_block_packet` from the trusted addresses on
  unfoldable pub check_trusted :
      Times → CheckClock → Packet → NetworkFilter F → Option (FilterDecision × NetworkFilter F)
  check_trusted times c packet f =
      let wait : FilterDecision =
        pending (f.config.vps_timeout_ms * 1000000) (c.finish - c.start) in
      elim (lookup packet.src_ip f.trusted_ips) [
        | none ↦ some (wait, f)
        | some t ↦
            if ltb c.at_trusted t.expires_at
            then (do
              f' ← update_trust_stats times c packet.src_ip f
              some (allow (codes "Trusted IP (fast-path)") (c.finish - c.start), f'))
            else some (wait, f)
      ]

  -- `reentrant` tells whether `DashMap::remove` returns while the task itself holds a reference into
  -- the same map, as the branch of an expired entry does.
  unfoldable pub should_block_packet :
      (reentrant : Bool)
      → Times
      → CheckClock
      → Packet
      → NetworkFilter F
      → Option (FilterDecision × NetworkFilter F)
  should_block_packet reentrant times c packet f =
      let f1 : NetworkFilter F = count_packet f in
      elim (lookup packet.src_ip f1.blocked_ips) [
        | none ↦ check_trusted times c packet f1
        | some b ↦
            if ltb c.at_blocked b.expires_at
            then some
                (block (codes "Cached block: " ++ b.reason) b.threat_level (c.finish - c.start), f1)
            else if reentrant
            then check_trusted times c packet
                (record f1 { blocked_ips = remove packet.src_ip f1.blocked_ips })
            else none
      ]

  unfoldable pub is_ip_blocked : (now : ℕ) → Text → NetworkFilter F → Bool
  is_ip_blocked now ip f = elim (lookup ip f.blocked_ips) [
    | none ↦ false
    | some b ↦ ltb now b.expires_at
  ]

  unfoldable pub get_block_reason : (now : ℕ) → Text → NetworkFilter F → Option Text
  get_block_reason now ip f = elim (lookup ip f.blocked_ips) [
    | none ↦ none
    | some b ↦ if ltb now b.expires_at then some b.reason else none
  ]

  abbrev count_fast_tracked : NetworkFilter F → NetworkFilter F
  count_fast_tracked f = record f {
    stats = record (f.stats) { fast_tracked_packets = add64 f.stats.fast_tracked_packets 1 };
  }

  unfoldable pub trust_ip :
      Times → (trusted_at expiry_base seen : ℕ) → Text → NetworkFilter F → Option (NetworkFilter F)
  trust_ip times trusted_at expiry_base seen packet_id f =
      elim (lookup packet_id f.pending_packets) [
        | none ↦ some f
        | some p ↦ do
          expires ← times.instant_after expiry_base (f.config.trust_duration_minutes * 60 % u64_mod)
          let t : TrustedIp = record {
            ip = p.packet.src_ip;
            trusted_at = trusted_at;
            expires_at = expires;
            packet_count = 1;
            last_seen = seen;
          }
          some (
              count_fast_tracked
                (record f { trusted_ips = insert p.packet.src_ip t f.trusted_ips }))
      ]

  -- The times of a row are printed by `to_rfc3339` in the source.
  unfoldable pub get_blocked_ips :
      (now : ℕ) → NetworkFilter F → List (Text × Text × ℕ × ℕ × ℕ × Text)
  get_blocked_ips now f = map row (keep (λ e. ltb now e.1.expires_at) f.blocked_ips)
