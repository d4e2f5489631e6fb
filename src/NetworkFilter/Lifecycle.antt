-- ===== src/NetworkFilter/Lifecycle.antt =====
-- From blocking an address to unblocking it.
use netsentry_sensor.Common.{ℕ, ◌≡◌, ◌⊎◌, false, none, some, arith, ltb, if◌then◌else◌, inl, inr}
use netsentry_sensor.Common.Dict.{lookup-insert, lookup-remove}
use netsentry_sensor.Common.Outcome.{ok, err}
use netsentry_sensor.Common.Text.{Text, text_eq, text_eq_refl}
use netsentry_sensor.NetworkFilter.Blocking.{
  block_ip_direct, unblock_ip, with_blocked, count_blocked,
}
use netsentry_sensor.NetworkFilter.Filter.{
  Times, BlockClock, hours_secs, is_ip_blocked, get_block_reason,
}
use netsentry_sensor.NetworkFilter.Firewall.{Machine, apply_iptables_block, remove_iptables_block}
use netsentry_sensor.NetworkFilter.Firewall.Kernel.{Run-cases}
use netsentry_sensor.NetworkFilter.State.{BlockedIp, World}

module _ {K F : Type 0} (m : Machine K) (w : World K F) where
  module _ (times : Times) (c : BlockClock) (ip reason source : Text) (level hours : ℕ) where
    -- the entry that is inserted
    abbrev entry : (expires expires_utc : ℕ) → BlockedIp
    entry expires expires_utc = record {
      ip = ip;
      blocked_at = c.blocked_at;
      expires_at = expires;
      blocked_at_utc = c.utc_now;
      expires_at_utc = expires_utc;
      reason = reason;
      threat_level = level;
      source = source;
      interface = m.interface;
    }

    -- Where the times are in range and the firewall commands succeed, `block_ip_direct` succeeds.
    -- Until the expiry, and not after it, `is_ip_blocked` says so of the address and
    -- `get_block_reason` gives the reason; what `is_ip_blocked` says of any other address stays.
    pub is_ip_blocked-block_ip_direct :
        (expires expires_utc : ℕ) (k : K)
        → times.utc_after c.utc_now (hours_secs hours) ≡ some expires_utc
        → times.instant_after c.expiry_base (hours_secs hours) ≡ some expires
        → apply_iptables_block m ip w.kernel ≡ (ok tt, k)
        → (w' : World K F) × (block_ip_direct m times c ip reason level hours source w
            ≡ some (ok tt, w'))
          × ((now : ℕ) (j : Text)
              → is_ip_blocked now j w'.filter
                ≡ (if text_eq ip j then ltb now expires else is_ip_blocked now j w.filter))
          × ((now : ℕ)
              → get_block_reason now ip w'.filter ≡ (if ltb now expires then some reason else none))
    unfolding block_ip_direct is_ip_blocked get_block_reason
    is_ip_blocked-block_ip_direct expires expires_utc k utc inst applied =
        let b : BlockedIp = entry expires expires_utc in
        (
          count_blocked (with_blocked ip b (record w { kernel = k })),
          ground arith,
          λ now j. ground (arith, lookup-insert ip j b w.filter.blocked_ips),
          λ now. ground (arith, lookup-insert ip ip b w.filter.blocked_ips, text_eq_refl ip),
        )

    -- Where the firewall command fails, the call fails with its message, and the filter is as it was.
    pub block_ip_direct-err :
        (expires_utc : ℕ) (k : K) (e : Text)
        → times.utc_after c.utc_now (hours_secs hours) ≡ some expires_utc
        → apply_iptables_block m ip w.kernel ≡ (err e, k)
        → block_ip_direct m times c ip reason level hours source w
          ≡ some (err e, record w { kernel = k })
    unfolding block_ip_direct
    block_ip_direct-err expires_utc k e utc failed = ground arith

    -- A duration whose end is out of the range of the calendar ends the process.
    pub block_ip_direct-panics :
        times.utc_after c.utc_now (hours_secs hours) ≡ none
        → block_ip_direct m times c ip reason level hours source w ≡ none
    unfolding block_ip_direct
    block_ip_direct-panics out = rw out

  -- Unblocking an address either succeeds, and then the address is no longer blocked at any time and
  -- every other address is blocked as before, or fails, and then the filter is as it was.
  pub unblock_ip-filter :
      (ip : Text)
      → (((unblock_ip m ip w).0 ≡ ok tt)
          × ((now : ℕ) (j : Text)
              → is_ip_blocked now j (unblock_ip m ip w).1.filter
                ≡ (if text_eq ip j then false else is_ip_blocked now j w.filter)))
        ⊎ ((e : Text) × ((unblock_ip m ip w).0 ≡ err e) × ((unblock_ip m ip w).1.filter ≡ w.filter))
  unfolding unblock_ip is_ip_blocked
  unblock_ip-filter ip = elim (Run-cases (remove_iptables_block m ip w.kernel)) [
    | inl (u, k, e) ↦
        inl (ground arith, λ now j. ground (arith, lookup-remove ip j w.filter.blocked_ips))
    | inr (x, k, e) ↦ inr (x, ground arith, ground arith)
  ]
