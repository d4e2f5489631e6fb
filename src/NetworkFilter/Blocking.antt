-- ===== src/NetworkFilter/Blocking.antt =====
-- network-filter/src/lib.rs, the operations that reach the kernel or the network. `none` stands for a
-- panic, which ends the process.
use netsentry_sensor.Common.{
  ℕ, ◌-◌, ◌/◌, Bool, Option, none, some, List, ◌∷◌, ltb, leb, if◌then◌else◌, ◌>>=◌, add64,
  nanos_per_sec,
}
use netsentry_sensor.Common.Dict.{lookup, insert, remove}
use netsentry_sensor.Common.Outcome.{Result, ok, err}
use netsentry_sensor.Common.Text.{Text, codes}
use netsentry_sensor.NetworkFilter.Filter.{Times, BlockClock, hours_secs}
use netsentry_sensor.NetworkFilter.Firewall.{Machine, apply_iptables_block, remove_iptables_block}
use netsentry_sensor.NetworkFilter.State.{BlockedIp, PendingPacket, FilterStats, World}

-- What a call returns, and the world after it.
abbrev pub Call : Type 0 → Type 0 → Type 0
Call K F = Option (Result (Unit {0}) Text × World K F)

-- `(expires_at_utc - Utc::now()).num_seconds().max(1) as u64`
unfoldable pub remaining_secs : (expires now : ℕ) → ℕ
remaining_secs expires now =
    let secs = (expires - now) / nanos_per_sec in if ltb secs 1 then 1 else secs

abbrev pub uncounted : {F : Type 0} → FilterStats F → FilterStats F
uncounted s =
    if ltb 0 s.blocked_packets then record s { blocked_packets = s.blocked_packets - 1 } else s

module _ {K F : Type 0} where
  abbrev pub with_blocked : Text → BlockedIp → World K F → World K F
  with_blocked ip b w = record w {
    filter = record (w.filter) { blocked_ips = insert ip b w.filter.blocked_ips };
  }

  abbrev pub count_blocked : World K F → World K F
  count_blocked w = record w {
    filter = record (w.filter) {
      stats = record (w.filter.stats) { blocked_packets = add64 w.filter.stats.blocked_packets 1 };
    };
  }

  -- What blocking an address does once the firewall command has come back.
  unfoldable pub record_block :
      Machine K
      → Times
      → BlockClock
      → (ip reason : Text) (threat_level secs expires_at_utc : ℕ) (blocked_at_utc : ℕ)
        (source : Text)
      → Result (Unit {0}) Text × K
      → World K F
      → Call K F
  record_block m times c ip reason threat_level secs expires_at_utc blocked_at_utc source (err e, k)
        w =
      some (err e, record w { kernel = k })
  record_block m times c ip reason threat_level secs expires_at_utc blocked_at_utc source (ok _, k)
        w =
      do
        expires ← times.instant_after c.expiry_base secs
        let b : BlockedIp = record {
          ip = ip;
          blocked_at = c.blocked_at;
          expires_at = expires;
          blocked_at_utc = blocked_at_utc;
          expires_at_utc = expires_at_utc;
          reason = reason;
          threat_level = threat_level;
          source = source;
          interface = m.interface;
        }
        some (ok tt, with_blocked ip b (record w { kernel = k }))

  abbrev pub counted : Result (Unit {0}) Text × World K F → Call K F
  counted (ok u, w) = some (ok u, count_blocked w)
  counted (err e, w) = some (err e, w)

  unfoldable pub block_ip_direct :
      Machine K
      → Times
      → BlockClock
      → (ip reason : Text) (threat_level duration_hours : ℕ) (source : Text) → World K F
      → Call K F
  unfolding record_block
  block_ip_direct m times c ip reason threat_level duration_hours source w = do
    expires_utc ← times.utc_after c.utc_now (hours_secs duration_hours)
    done ←
        record_block m times c ip reason threat_level (hours_secs duration_hours) expires_utc
          c.utc_now source (apply_iptables_block m ip w.kernel) w
    counted done

  -- `utc_later` is the second reading of the clock.
  unfoldable pub restore_blocked_ip :
      Machine K
      → Times
      → BlockClock
      → (utc_later : ℕ) (ip reason : Text) (threat_level : ℕ) (source : Text)
        (blocked_at_utc expires_at_utc : ℕ)
      → World K F
      → Call K F
  unfolding record_block
  restore_blocked_ip m times c utc_later ip reason threat_level source blocked_at_utc expires_at_utc
        w =
      let restored : Call K F =
        record_block m times c ip reason threat_level (remaining_secs expires_at_utc utc_later)
          expires_at_utc blocked_at_utc source (apply_iptables_block m ip w.kernel) w in
      if leb expires_at_utc c.utc_now then some (ok tt, w) else restored

  unfoldable pub block_ip :
      Machine K
      → Times
      → BlockClock
      → (packet_id reason : Text) (threat_level : ℕ) → World K F
      → Call K F
  unfolding record_block
  block_ip m times c packet_id reason threat_level w =
      elim (lookup packet_id w.filter.pending_packets) [
        | none ↦ some (ok tt, w)
        | some p ↦ do
          let secs = hours_secs w.filter.config.block_duration_hours
          expires_utc ← times.utc_after c.utc_now secs
          done ←
              record_block m times c p.packet.src_ip reason threat_level secs expires_utc c.utc_now
                (codes "auto_detection") (apply_iptables_block m p.packet.src_ip w.kernel) w
          counted done
      ]

  abbrev pub after_unblock :
      Text → Result (Unit {0}) Text × K → World K F → Result (Unit {0}) Text × World K F
  after_unblock ip (err e, k) w = (err e, record w { kernel = k })
  after_unblock ip (ok _, k) w = (
    ok tt,
    record w {
      kernel = k;
      filter = record (w.filter) {
        blocked_ips = remove ip w.filter.blocked_ips;
        stats = uncounted w.filter.stats;
      };
    },
  )

  unfoldable pub unblock_ip : Machine K → Text → World K F → Result (Unit {0}) Text × World K F
  unblock_ip m ip w = after_unblock ip (remove_iptables_block m ip w.kernel) w

  abbrev pub delivered : PendingPacket → World K F → World K F
  delivered p w = record w {
    sent = (p.dest_addr, p.buffer) ∷ w.sent;
    filter = record (w.filter) {
      stats = record (w.filter.stats) { allowed_packets = add64 w.filter.stats.allowed_packets 1 };
    };
  }

  -- `send_error` is what `UdpSocket::send_to` fails with, if it fails.
  abbrev pub forwarded :
      (send_error : Text → List ℕ → Option Text)
      → PendingPacket
      → World K F
      → Result (Unit {0}) Text × World K F
  forwarded send_error p w = elim (send_error p.dest_addr p.buffer) [
    | some e ↦ (err e, w)
    | none ↦ (ok tt, delivered p w)
  ]

  unfoldable pub forward_or_drop_pending_packet :
      (send_error : Text → List ℕ → Option Text)
      → Text
      → (should_forward : Bool) → World K F
      → Result (Unit {0}) Text × World K F
  forward_or_drop_pending_packet send_error packet_id should_forward w =
      elim (lookup packet_id w.filter.pending_packets) [
        | none ↦ (ok tt, w)
        | some p ↦
            let w1 : World K F = record w {
              filter = record (w.filter) {
                pending_packets = remove packet_id w.filter.pending_packets;
              };
            } in
            if should_forward then forwarded send_error p w1 else (ok tt, w1)
      ]
