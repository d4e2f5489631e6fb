-- ===== src/NetworkFilter/Delivery.antt =====
-- What becomes of a pending packet.
use netsentry_sensor.Common.{
  ℕ, ◌≡◌, refl, Bool, true, false, Option, none, some, List, ◌∷◌, arith, if◌then◌else◌,
  Option-cases, inl, inr, ◌>>=◌,
}
use netsentry_sensor.Common.Dict.{lookup, lookup-remove}
use netsentry_sensor.Common.Outcome.{Result, ok, err}
use netsentry_sensor.Common.Text.{Text, text_eq_refl}
use netsentry_sensor.NetworkFilter.Blocking.{Call, block_ip, forward_or_drop_pending_packet}
use netsentry_sensor.NetworkFilter.Decisions.{
  and_then, trusted_world, act, note_decision, apply_vps_decision,
}
use netsentry_sensor.NetworkFilter.Filter.{Times, BlockClock, hours_secs, trust_ip}
use netsentry_sensor.NetworkFilter.Firewall.{Machine, apply_iptables_block}
use netsentry_sensor.NetworkFilter.State.{PendingPacket, NetworkFilter, World}
use netsentry_sensor.Shared.Types.{PacketDecision, PacketAction}

-- The actions that let a packet through.
abbrev pub forwards : PacketAction → Bool
forwards PacketAction.allow = true
forwards PacketAction.monitor = true
forwards PacketAction.block = false
forwards PacketAction.quarantine = false

-- A chain that succeeds has a first part that succeeded.
and_then-ok :
    {K F : Type 0} (x : Call K F) (f : World K F → Call K F) (w' : World K F)
    → and_then x f ≡ some (ok tt, w')
    → (w1 : World K F) × (x ≡ some (ok tt, w1)) × (f w1 ≡ some (ok tt, w'))
and_then-ok none f w' e = cc
and_then-ok (some (ok u, w1)) f w' e = (w1, refl, e)
and_then-ok (some (err x, w1)) f w' e = ground arith

trusted_world-some :
    {K F : Type 0} (w : World K F) (o : Option (NetworkFilter F)) (f : World K F → Call K F)
    (w' : World K F)
    → (trusted_world w o >>= f) ≡ some (ok tt, w')
    → (g : NetworkFilter F) × (o ≡ some g) × (f (record w { filter = g }) ≡ some (ok tt, w'))
trusted_world-some w none f w' e = cc
trusted_world-some w (some g) f w' e = (g, refl, e)

module _ {K F : Type 0} (send_error : Text → List ℕ → Option Text) where
  after_forward-lookup :
      (id : Text) (b : Bool) (w : World K F)
      → lookup id (forward_or_drop_pending_packet send_error id b w).1.filter.pending_packets ≡ none
  unfolding forward_or_drop_pending_packet
  after_forward-lookup id b w = elim (Option-cases (lookup id w.filter.pending_packets)) [
    | inl absent ↦ ground arith
    | inr (p, found) ↦ ground (arith, lookup-remove id id w.filter.pending_packets, text_eq_refl id)
  ]

  forward_absent :
      (id : Text) (b : Bool) (w : World K F)
      → lookup id w.filter.pending_packets ≡ none
      → forward_or_drop_pending_packet send_error id b w ≡ (ok tt, w)
  unfolding forward_or_drop_pending_packet
  forward_absent id b w absent = ground arith

  -- A packet leaves the table with the first decision on it, also where sending it fails: a further
  -- one succeeds and changes nothing.
  pub forward_or_drop_once :
      (id : Text) (b b' : Bool) (w : World K F)
      → forward_or_drop_pending_packet send_error id b'
          (forward_or_drop_pending_packet send_error id b w).1
        ≡ (ok tt, (forward_or_drop_pending_packet send_error id b w).1)
  forward_or_drop_once id b b' w = forward_absent id b' _ (after_forward-lookup id b w)

  forward-sent :
      (id : Text) (b : Bool) (w w' : World K F) (p : PendingPacket)
      → lookup id w.filter.pending_packets ≡ some p
      → forward_or_drop_pending_packet send_error id b w ≡ (ok tt, w')
      → (w'.sent ≡ (if b then (p.dest_addr, p.buffer) ∷ w.sent else w.sent))
        × (lookup id w'.filter.pending_packets ≡ none)
  forward-sent id b w w' p found e =
      (unfold forward_or_drop_pending_packet in ground arith, rw e at (after_forward-lookup id b w))

  module _ (m : Machine K) (times : Times) (c : BlockClock) where
    block_ip-keeps :
        (id reason : Text) (level : ℕ) (w w' : World K F) (x : Result (Unit {0}) Text)
        → block_ip m times c id reason level w ≡ some (x, w')
        → (w'.sent ≡ w.sent) × (w'.filter.pending_packets ≡ w.filter.pending_packets)
    unfolding block_ip
    block_ip-keeps id reason level w w' x e = ground arith

    trust_ip-keeps :
        (at base seen : ℕ) (id : Text) (f f' : NetworkFilter F)
        → trust_ip times at base seen id f ≡ some f'
        → f'.pending_packets ≡ f.pending_packets
    unfolding trust_ip
    trust_ip-keeps at base seen id f f' e = ground arith

    act-sent :
        (seen : ℕ) (a : PacketAction) (id reason : Text) (level : ℕ) (w w' : World K F)
        (p : PendingPacket)
        → lookup id w.filter.pending_packets ≡ some p
        → act m times c seen send_error a id reason level w ≡ some (ok tt, w')
        → (w'.sent ≡ (if forwards a then (p.dest_addr, p.buffer) ∷ w.sent else w.sent))
          × (lookup id w'.filter.pending_packets ≡ none)
    unfolding act
    act-sent seen PacketAction.block id reason level w w' p found e =
        let (w1, blocked, dropped) = and_then-ok _ _ w' e in
        let (same, keeps) = block_ip-keeps id reason level w w1 (ok tt) blocked in
        rw (← same) (forward-sent id false w1 w' p (rw keeps found) (ground arith))
    act-sent seen PacketAction.allow id reason level w w' p found e =
        let (f, trusted, sent) = trusted_world-some w _ _ w' e in
        let keeps = trust_ip-keeps _ _ _ id w.filter f trusted in
        forward-sent id true (record w { filter = f }) w' p (rw keeps found) (ground arith)
    act-sent seen PacketAction.monitor id reason level w w' p found e =
        forward-sent id true w w' p found (ground arith)
    act-sent seen PacketAction.quarantine id reason level w w' p found e =
        forward-sent id false w w' p found (ground arith)

    -- A decision on a pending packet that is applied with success sends the packet to its destination
    -- exactly if the action is to allow or to monitor, and in every case takes it out of the table.
    pub apply_vps_decision-sent :
        {Value : Type 0} (seen : ℕ) (mean : F → ℕ → F) (d : PacketDecision Value) (w w' : World K F)
        (p : PendingPacket)
        → lookup d.packet_id w.filter.pending_packets ≡ some p
        → apply_vps_decision m times c seen send_error mean d w ≡ some (ok tt, w')
        → (w'.sent ≡ (if forwards d.action then (p.dest_addr, p.buffer) ∷ w.sent else w.sent))
          × (lookup d.packet_id w'.filter.pending_packets ≡ none)
    unfolding apply_vps_decision
    apply_vps_decision-sent seen mean d w w' p found e =
        let (w1, acted, noted) =
          and_then-ok (act m times c seen send_error d.action d.packet_id d.reason d.threat_level w)
            (λ v. some (ok tt, note_decision mean d.processing_time_ms v)) w' e in
        let (sent, gone) =
          act-sent seen d.action d.packet_id d.reason d.threat_level w w1 p found acted in
        (ground arith, ground arith)

    -- Where the firewall refuses to block the source of a packet, the decision fails with its message;
    -- the packet stays pending and is not sent, and the filter is as it was.
    pub apply_vps_decision-err :
        {Value : Type 0} (seen : ℕ) (mean : F → ℕ → F) (d : PacketDecision Value) (w : World K F)
        (p : PendingPacket) (k : K) (e : Text) (t : ℕ)
        → d.action ≡ PacketAction.block
        → lookup d.packet_id w.filter.pending_packets ≡ some p
        → times.utc_after c.utc_now (hours_secs w.filter.config.block_duration_hours) ≡ some t
        → apply_iptables_block m p.packet.src_ip w.kernel ≡ (err e, k)
        → apply_vps_decision m times c seen send_error mean d w
          ≡ some (err e, record w { kernel = k })
    unfolding apply_vps_decision block_ip
    apply_vps_decision-err seen mean d w p k e t blocks found utc failed = ground arith
