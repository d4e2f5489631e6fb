-- ===== src/NetworkFilter/Decisions.antt =====
-- network-filter/src/lib.rs: the decisions of the cloud, and the cleanup task.
use netsentry_sensor.Common.{
  ℕ, ◌+◌, Bool, true, false, ◌&&◌, Option, none, some, List, [], ◌∷◌, map, keep, ltb, leb,
  if◌then◌else◌, ◌>>=◌, add64,
}
use netsentry_sensor.Common.Dict.{Dict, remove, retain}
use netsentry_sensor.Common.Outcome.{ok, err}
use netsentry_sensor.Common.Text.{Text}
use netsentry_sensor.NetworkFilter.Blocking.{Call, block_ip, forward_or_drop_pending_packet}
use netsentry_sensor.NetworkFilter.Filter.{Times, BlockClock, trust_ip}
use netsentry_sensor.NetworkFilter.Firewall.{Machine, rule_specs, cleanup_specs}
use netsentry_sensor.NetworkFilter.State.{BlockedIp, FilterStats, NetworkFilter, World}
use netsentry_sensor.Shared.Types.{PacketDecision, PacketAction}

abbrev pub is_expired : ℕ → Text × BlockedIp → Bool
is_expired now e = leb e.1.expires_at now

-- the firewall commands for the expired addresses
unfoldable pub cleanup_kernel : {K : Type 0} → Machine K → List Text → K → K
cleanup_kernel m [] k = k
cleanup_kernel m (ip ∷ ips) k = cleanup_kernel m ips (cleanup_specs m (rule_specs m.interface ip) k)

unfoldable pub remove_all : List Text → Dict BlockedIp → Dict BlockedIp
remove_all [] d = d
remove_all (ip ∷ ips) d = remove_all ips (remove ip d)

module _ {K F : Type 0} where
  -- `?` after a call
  abbrev pub and_then : Call K F → (World K F → Call K F) → Call K F
  and_then none f = none
  and_then (some (ok _, w)) f = f w
  and_then (some (err e, w)) f = some (err e, w)

  abbrev pub trusted_world : World K F → Option (NetworkFilter F) → Option (World K F)
  trusted_world w none = none
  trusted_world w (some f) = some (record w { filter = f })

  -- the `match` on the action
  unfoldable pub act :
      Machine K
      → Times
      → BlockClock
      → (trust_seen : ℕ) → (send_error : Text → List ℕ → Option Text) → PacketAction
      → (packet_id reason : Text) (threat_level : ℕ) → World K F
      → Call K F
  act m times c trust_seen send_error PacketAction.block packet_id reason threat_level w =
      and_then (block_ip m times c packet_id reason threat_level w)
        (λ w1. some (forward_or_drop_pending_packet send_error packet_id false w1))
  act m times c trust_seen send_error PacketAction.allow packet_id reason threat_level w =
      trusted_world w (trust_ip times c.blocked_at c.expiry_base trust_seen packet_id w.filter)
      >>= λ w1. some (forward_or_drop_pending_packet send_error packet_id true w1)
  act m times c trust_seen send_error PacketAction.monitor packet_id reason threat_level w =
      some (forward_or_drop_pending_packet send_error packet_id true w)
  act m times c trust_seen send_error PacketAction.quarantine packet_id reason threat_level w =
      some (forward_or_drop_pending_packet send_error packet_id false w)

  -- The statistics after a decision; `mean` is `(avg + ms as f64) / 2.0`. The aggressive
  -- fast-tracking that follows the eleventh slow decision changes no state.
  unfoldable pub note_decision :
      (mean : F → ℕ → F) → (processing_time_ms : ℕ) → World K F → World K F
  note_decision mean ms w =
      let s = w.filter.stats in
      let s1 : FilterStats F = record s {
        avg_processing_time_ms = mean s.avg_processing_time_ms ms;
      } in
      let s2 : FilterStats F =
        if w.filter.config.enable_adaptive_learning && ltb w.filter.config.max_processing_time_ms ms
        then record s1 { vps_timeouts = add64 s.vps_timeouts 1 }
        else s1 in
      record w { filter = record (w.filter) { stats = s2 } }

  unfoldable pub apply_vps_decision :
      {Value : Type 0}
      → Machine K
      → Times
      → BlockClock
      → (trust_seen : ℕ) → (send_error : Text → List ℕ → Option Text) (mean : F → ℕ → F)
      → PacketDecision Value
      → World K F
      → Call K F
  unfolding act note_decision
  apply_vps_decision m times c trust_seen send_error mean d w =
      and_then (act m times c trust_seen send_error d.action d.packet_id d.reason d.threat_level w)
        (λ w1. some (ok tt, note_decision mean d.processing_time_ms w1))

  -- The first half of a tick of the cleanup task: the addresses whose entries have expired.
  unfoldable pub expired_ips : (now : ℕ) → World K F → List Text
  expired_ips now w = map (λ e. e.0) (keep (is_expired now) w.filter.blocked_ips)

  -- The second half, from the firewall commands on. They are awaited, so that other tasks may have
  -- changed the world since the first half; what they do during the second half is not followed.
  unfoldable pub finish_cleanup : Machine K → (now : ℕ) → (ips : List Text) → World K F → World K F
  finish_cleanup m now ips w =
      let f = w.filter in
      record w {
        kernel = cleanup_kernel m ips w.kernel;
        filter = record f {
          blocked_ips = remove_all ips f.blocked_ips;
          trusted_ips = retain (λ t. ltb now t.expires_at) f.trusted_ips;
          pending_packets = retain (λ p. ltb now (p.created_at + p.timeout)) f.pending_packets;
        };
      }

  -- a tick of the cleanup task that no other task comes between
  unfoldable pub cleanup : Machine K → (now : ℕ) → World K F → World K F
  unfolding expired_ips finish_cleanup
  cleanup m now w = finish_cleanup m now (expired_ips now w) w
