-- ===== src/NetworkFilter/Verdicts.antt =====
-- What `should_block_packet` answers.
use netsentry_sensor.Common.{
  ℕ, ◌-◌, ◌*◌, ◌<◌, ◌≡◌, inl, inr, Bool, true, false, none, some, arith, ◌++◌, ltb, if◌then◌else◌,
  Bool-cases, Option-cases, add64, u64_mod, ◌%◌,
}
use netsentry_sensor.Common.Dict.{lookup, insert, remove, lookup-insert}
use netsentry_sensor.Common.Text.{Text, codes, text_eq_refl}
use netsentry_sensor.NetworkFilter.Filter.{
  Times, CheckClock, update_trust_stats, refreshed, check_trusted, should_block_packet,
  is_ip_blocked, get_block_reason, count_packet,
}
use netsentry_sensor.NetworkFilter.State.{
  TrustedIp, FilterConfig, NetworkFilter, FilterDecision, block, allow, pending,
}
use netsentry_sensor.Shared.Types.{Packet}

abbrev pub is_block : FilterDecision → Bool
is_block (block _ _ _) = true
is_block _ = false

abbrev is_allow : FilterDecision → Bool
is_allow (allow _ _) = true
is_allow _ = false

-- the entry of a trusted address after one more packet
abbrev pub renewed : CheckClock → TrustedIp → FilterConfig → ℕ → TrustedIp
renewed c t config later = record t {
  packet_count = add64 t.packet_count 1;
  last_seen = c.at_seen;
  expires_at =
      if ltb config.trust_threshold_packets (add64 t.packet_count 1) then later else t.expires_at;
}

refreshed-renewed :
    (times : Times) (c : CheckClock) (config : FilterConfig) (t : TrustedIp) (later : ℕ)
    → times.instant_after c.at_extended (config.trust_duration_minutes * 60 % u64_mod * 2 % u64_mod)
      ≡ some later
    → refreshed times c config t ≡ some (renewed c t config later)
unfolding refreshed
refreshed-renewed times c config t later next =
    elim (Bool-cases (ltb config.trust_threshold_packets (add64 t.packet_count 1))) [
      | inl more ↦ rw (more, next)
      | inr few ↦ rw few
    ]

module _ {F : Type 0} (times : Times) (c : CheckClock) (p : Packet) where
  check_trusted-not_block :
      (f f' : NetworkFilter F) (d : FilterDecision)
      → check_trusted times c p f ≡ some (d, f')
      → is_block d ≡ false
  unfolding check_trusted
  check_trusted-not_block f f' d e = ground arith

  -- A check that returns blocks the packet exactly when `is_ip_blocked` says so of its source at the
  -- time of the check.
  pub should_block_packet-is_ip_blocked :
      (reentrant : Bool) (f f' : NetworkFilter F) (d : FilterDecision)
      → should_block_packet reentrant times c p f ≡ some (d, f')
      → is_block d ≡ is_ip_blocked c.at_blocked p.src_ip f
  unfolding should_block_packet is_ip_blocked
  should_block_packet-is_ip_blocked reentrant f f' d e =
      elim (Option-cases (lookup p.src_ip f.blocked_ips)) [
        | inl absent ↦ ground (arith, check_trusted-not_block (count_packet f) f' d)
        | inr (b, found) ↦ ground (
          arith,
          check_trusted-not_block
              (record (count_packet f) { blocked_ips = remove p.src_ip f.blocked_ips }) f' d,
        )
      ]

  -- Where `get_block_reason` gives a reason at the time of the check, the check returns, it blocks with
  -- that reason, and the filter changes only in its count of packets.
  pub should_block_packet-get_block_reason :
      (reentrant : Bool) (f : NetworkFilter F) (r : Text)
      → get_block_reason c.at_blocked p.src_ip f ≡ some r
      → (level : ℕ) × (should_block_packet reentrant times c p f
          ≡ some (block (codes "Cached block: " ++ r) level (c.finish - c.start), count_packet f))
  unfolding should_block_packet get_block_reason
  should_block_packet-get_block_reason reentrant f r e =
      elim (Option-cases (lookup p.src_ip f.blocked_ips)) [
        | inl absent ↦ ground arith
        | inr (b, found) ↦ (b.threat_level, ground arith)
      ]

  -- A source that is not among the blocked addresses and whose trust has not expired is allowed, if
  -- the new expiry is in range; its entry counts the packet, and its trust is extended, to twice the
  -- configured time, exactly when the count passes the threshold.
  pub should_block_packet-trusted :
      (reentrant : Bool) (f : NetworkFilter F) (t : TrustedIp) (later : ℕ)
      → lookup p.src_ip f.blocked_ips ≡ none
      → lookup p.src_ip f.trusted_ips ≡ some t
      → c.at_trusted < t.expires_at
      → times.instant_after c.at_extended
          (f.config.trust_duration_minutes * 60 % u64_mod * 2 % u64_mod)
        ≡ some later
      → (f' : NetworkFilter F) × (should_block_packet reentrant times c p f
          ≡ some (allow (codes "Trusted IP (fast-path)") (c.finish - c.start), f'))
        × (lookup p.src_ip f'.trusted_ips ≡ some (renewed c t f.config later))
  unfolding should_block_packet check_trusted update_trust_stats
  should_block_packet-trusted reentrant f t later clear found early next = (
    record (count_packet f) {
      trusted_ips = insert p.src_ip (renewed c t f.config later) f.trusted_ips;
    },
    ground (arith, refreshed-renewed times c f.config t later next),
    simp (lookup-insert, text_eq_refl),
  )

  -- A source in neither table waits for the cloud, for the configured time; the tables stay.
  pub should_block_packet-unknown :
      (reentrant : Bool) (f : NetworkFilter F)
      → lookup p.src_ip f.blocked_ips ≡ none
      → lookup p.src_ip f.trusted_ips ≡ none
      → should_block_packet reentrant times c p f
        ≡ some (pending (f.config.vps_timeout_ms * 1000000) (c.finish - c.start), count_packet f)
  unfolding should_block_packet check_trusted
  should_block_packet-unknown reentrant f clear unknown = ground arith
