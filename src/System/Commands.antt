-- ===== src/System/Commands.antt =====
-- A command of the cloud, from the text that the collector reads to the tables of the network filter.
use netsentry_sensor.Common.{
  ℕ, ◌+◌, ◌/◌, ◌%◌, ◌≤◌, ◌<◌, u64_mod, ◌≡◌, ◌⊎◌, false, some, List, arith, ltb, if◌then◌else◌, ap,
  add64, inl, inr,
}
use netsentry_sensor.Collector.Commands.{
  Body, Client, Handled, is_success, hours_of, handle_vps_command,
}
use netsentry_sensor.Collector.Commands.Protocol.{Reads, react, handle_vps_command-react}
use netsentry_sensor.Collector.Debug.{WsDebugState, record_command}
use netsentry_sensor.Collector.Json.{Json}
use netsentry_sensor.Common.Outcome.{Result, ok, err}
use netsentry_sensor.Common.Text.{Text, codes, text_eq, text_eq_refl}
use netsentry_sensor.Forwarder.Service.{Calendar}
use netsentry_sensor.NetworkFilter.Api.Answers.{
  block_ip-blocks, block_ip-bad_gateway, unblock_ip-unblocks,
}
use netsentry_sensor.NetworkFilter.Api.Documents.{Database}
use netsentry_sensor.NetworkFilter.Api.Messages.{
  BlockRequest, UnblockRequest, HandlerClock, bad_gateway, PreventionResponse,
  normalize_ipv4_target,
}
use netsentry_sensor.NetworkFilter.Api.Handlers.{block_ip, unblock_ip}
use netsentry_sensor.NetworkFilter.Filter.{Times, hours_secs, is_ip_blocked}
use netsentry_sensor.NetworkFilter.Firewall.{Machine, apply_iptables_block}
use netsentry_sensor.NetworkFilter.State.{World}
use netsentry_sensor.Shared.Protocols.{
  BlockCommand, UnblockCommand, Serializer, IsTyped, message_value, block_command, unblock_command,
}
use netsentry_sensor.System.{
  Node, with_filter, post_block, post_unblock, status_of, with_filter-block, with_filter-unblock,
}

-- the request that a block command becomes
abbrev pub request_of : BlockCommand → BlockRequest
request_of b = record {
  ip = b.ip;
  reason = b.reason;
  threat_level = b.severity;
  duration_hours = hours_of b.duration_secs;
  source = codes "vps_command";
}

-- what is recorded of a command that the filter answered with a status
abbrev pub recorded :
    (at received_at : ℕ) (cmd_type ip reason : Text) (status : ℕ) → WsDebugState → WsDebugState
recorded at received_at cmd_type ip reason status =
    record_command at received_at cmd_type ip reason (is_success status)

-- a positive number of whole hours
abbrev pub IsTimed : ℕ → Type 0
IsTimed secs = (1 ≤ secs) × (secs % 3600 ≡ 0)

-- the collector keeps whole hours
pub hours_of-IsTimed :
    (secs : ℕ)
    → IsTimed secs
    → secs < u64_mod
    → (hours_secs (hours_of secs) ≡ secs) × (hours_of secs ≡ secs / 3600)
unfolding hours_of
hours_of-IsTimed secs (some_secs, whole) small = (ground arith, ground arith)

module _ {F V K G D M : Type 0} (json : Json V) (to : Serializer F V) (h : Reads json to)
    (m : Machine K) (times : Times) (calendar : Calendar) (db : Database D) (dns : Text → List Text)
    (clock : ℕ → HandlerClock) (rest : Client V M) (rule_engine_url base text : Text)
    (at received_at : ℕ) where
  -- the handling of the text by a collector that sends to this filter
  abbrev handled : M → ℕ → World K G → D → WsDebugState → Handled (M × ℕ × Node K G D)
  handled s i w d dbg =
      handle_vps_command json (with_filter m times calendar db dns clock base rest) rule_engine_url
        at received_at text base (s, i, some (w, d)) dbg

  abbrev client : Client V (M × ℕ × Node K G D)
  client = with_filter m times calendar db dns clock base rest

  module _ (b : BlockCommand) (id : Text) (timestamp : ℕ) (s : M) (i : ℕ) (w : World K G) (d : D)
      (dbg : WsDebugState) (typed : IsTyped {F = F} (block_command b))
      (read : json.parse text
        ≡ ok (
            message_value to
              (record { id = id; timestamp = timestamp; payload = block_command b }))) where
    pub handle-block_command :
        (r : Result PreventionResponse ℕ) (w' : World K G) (d' : D)
        → block_ip m times calendar db dns (clock i) (request_of b) w d ≡ some (r, w', d')
        → handled s i w d dbg ≡ (
          ok tt,
          (s, i + 1, some (w', d')),
          recorded at received_at (codes "block_command") b.ip b.reason (status_of r) dbg,
        )
    unfolding react post_block
    handle-block_command r w' d' e =
        let reacted =
          handle_vps_command-react json to h client rule_engine_url base at received_at
            (record { id = id; timestamp = timestamp; payload = block_command b }) text
            (s, i, some (w, d)) dbg typed read in
        let posted =
          with_filter-block m times calendar db dns clock base rest
            (Body.block b.ip b.reason (hours_of b.duration_secs) b.severity (codes "vps_command")) s
            i w d in
        ground (arith, reacted, posted, e)

    -- What follows for any duration, by the hours that the collector makes of it.
    pub block_command-hours_of :
        (ip : Text) (expires_utc expires expires_at : ℕ) (k : K)
        → normalize_ipv4_target b.ip ≡ some ip
        → times.utc_after (clock i).block.utc_now (hours_secs (hours_of b.duration_secs))
          ≡ some expires_utc
        → times.instant_after (clock i).block.expiry_base (hours_secs (hours_of b.duration_secs))
          ≡ some expires
        → calendar.hours_after (clock i).document_at (hours_of b.duration_secs) ≡ some expires_at
        → apply_iptables_block m ip w.kernel ≡ (ok tt, k)
        → (w1 : World K G) × (d1 : D) × ((handled s i w d dbg).1 ≡ (s, i + 1, some (w1, d1)))
          × ((handled s i w d dbg).2.blocks_applied ≡ add64 dbg.blocks_applied 1)
          × ((now : ℕ) (j : Text)
              → is_ip_blocked now j w1.filter
                ≡ (if text_eq ip j then ltb now expires else is_ip_blocked now j w.filter))
    unfolding record_command
    block_command-hours_of ip expires_utc expires expires_at k target utc inst date applied =
        let (a, w1, d1, done, blocked) =
          block_ip-blocks m times calendar db (clock i) w d dns (request_of b) ip expires_utc target
            utc expires expires_at k inst date applied in
        let e = handle-block_command (ok a) w1 d1 done in
        (w1, d1, ap (λ x. x.1) e, ground (arith, e, text_eq_refl (codes "block_command")), blocked)

    -- A block command for a valid address and for a positive number of whole hours, its numbers within
    -- their types, whose times are in range and whose firewall commands succeed, is counted as
    -- applied; the address is then blocked at the network filter until as many seconds as the command
    -- says have passed, and every other address as before.
    pub block_command-is_ip_blocked :
        IsTimed b.duration_secs
        → (ip : Text) (expires_utc expires expires_at : ℕ) (k : K)
        → normalize_ipv4_target b.ip ≡ some ip
        → times.utc_after (clock i).block.utc_now b.duration_secs ≡ some expires_utc
        → times.instant_after (clock i).block.expiry_base b.duration_secs ≡ some expires
        → calendar.hours_after (clock i).document_at (b.duration_secs / 3600) ≡ some expires_at
        → apply_iptables_block m ip w.kernel ≡ (ok tt, k)
        → (w1 : World K G) × (d1 : D) × ((handled s i w d dbg).1 ≡ (s, i + 1, some (w1, d1)))
          × ((handled s i w d dbg).2.blocks_applied ≡ add64 dbg.blocks_applied 1)
          × ((now : ℕ) (j : Text)
              → is_ip_blocked now j w1.filter
                ≡ (if text_eq ip j then ltb now expires else is_ip_blocked now j w.filter))
    block_command-is_ip_blocked timed ip expires_utc expires expires_at k target utc inst date
          applied =
        let (secs, hours) = hours_of-IsTimed b.duration_secs timed typed.0 in
        block_command-hours_of ip expires_utc expires expires_at k target (rw secs utc)
          (rw secs inst) (rw hours date) applied

    -- A block command for no seconds, which the protocol calls permanent, under the same conditions:
    -- it is counted as applied, and the address is blocked until an hour has passed.
    pub block_command-duration_zero :
        b.duration_secs ≡ 0
        → (ip : Text) (expires_utc expires expires_at : ℕ) (k : K)
        → normalize_ipv4_target b.ip ≡ some ip
        → times.utc_after (clock i).block.utc_now 3600 ≡ some expires_utc
        → times.instant_after (clock i).block.expiry_base 3600 ≡ some expires
        → calendar.hours_after (clock i).document_at 1 ≡ some expires_at
        → apply_iptables_block m ip w.kernel ≡ (ok tt, k)
        → (w1 : World K G) × (d1 : D) × ((handled s i w d dbg).1 ≡ (s, i + 1, some (w1, d1)))
          × ((handled s i w d dbg).2.blocks_applied ≡ add64 dbg.blocks_applied 1)
          × ((now : ℕ) (j : Text)
              → is_ip_blocked now j w1.filter
                ≡ (if text_eq ip j then ltb now expires else is_ip_blocked now j w.filter))
    unfolding hours_of
    block_command-duration_zero zero ip expires_utc expires expires_at k target utc inst date
          applied =
        block_command-hours_of ip expires_utc expires expires_at k target (rw zero utc)
          (rw zero inst) (rw zero date) applied

    -- Where the firewall refuses the block of a valid address, the command is still taken as handled
    -- and counted as received, but not as applied: the tables of the network filter and its
    -- database stay.
    pub block_command-refused :
        (ip e : Text) (expires_utc : ℕ) (k : K)
        → normalize_ipv4_target b.ip ≡ some ip
        → times.utc_after (clock i).block.utc_now (hours_secs (hours_of b.duration_secs))
          ≡ some expires_utc
        → apply_iptables_block m ip w.kernel ≡ (err e, k)
        → ((handled s i w d dbg).0 ≡ ok tt)
          × ((handled s i w d dbg).1 ≡ (s, i + 1, some (record w { kernel = k }, d)))
          × ((handled s i w d dbg).2.commands_received ≡ add64 dbg.commands_received 1)
          × ((handled s i w d dbg).2.blocks_applied ≡ dbg.blocks_applied)
    unfolding record_command
    block_command-refused ip e expires_utc k target utc failed =
        let refused =
          block_ip-bad_gateway m times calendar db (clock i) w d dns (request_of b) ip expires_utc
            target utc e k failed in
        let done = handle-block_command (err bad_gateway) (record w { kernel = k }) d refused in
        (ap (λ x. x.0) done, ap (λ x. x.1) done, ground (arith, done), ground (arith, done))

  module _ (u : UnblockCommand) (id : Text) (timestamp : ℕ) (s : M) (i : ℕ) (w : World K G) (d : D)
      (dbg : WsDebugState)
      (read : json.parse text
        ≡ ok (
            message_value to
              (record { id = id; timestamp = timestamp; payload = unblock_command u }))) where
    pub handle-unblock_command :
        let answer =
          unblock_ip m calendar db (clock i) (record { ip = u.ip; reason = u.reason }) w d in
        handled s i w d dbg ≡ (
          ok tt,
          (s, i + 1, some (answer.1, answer.2)),
          recorded at received_at (codes "unblock_command") u.ip u.reason (status_of answer.0) dbg,
        )
    unfolding react post_unblock
    handle-unblock_command =
        let reacted =
          handle_vps_command-react json to h client rule_engine_url base at received_at
            (record { id = id; timestamp = timestamp; payload = unblock_command u }) text
            (s, i, some (w, d)) dbg tt read in
        let posted =
          with_filter-unblock m times calendar db dns clock base rest (Body.unblock u.ip u.reason) s
            i w d in
        ground (arith, reacted, posted)

    -- An unblock command for a valid address is either counted as applied, and then the address is
    -- not blocked at any time at the network filter and every other address is blocked as before,
    -- or it is not counted as applied, and then the tables and the database stay.
    pub unblock_command-is_ip_blocked :
        (ip : Text)
        → normalize_ipv4_target u.ip ≡ some ip
        → (w1 : World K G) × (d1 : D) × ((handled s i w d dbg).1 ≡ (s, i + 1, some (w1, d1)))
          × ((((handled s i w d dbg).2.unblocks_applied ≡ add64 dbg.unblocks_applied 1)
                × ((now : ℕ) (j : Text)
                    → is_ip_blocked now j w1.filter
                      ≡ (if text_eq ip j then false else is_ip_blocked now j w.filter)))
              ⊎ (((handled s i w d dbg).2.unblocks_applied ≡ dbg.unblocks_applied)
                  × (w1.filter ≡ w.filter)
                  × (d1 ≡ d)))
    unfolding record_command
    unblock_command-is_ip_blocked ip target =
        let request : UnblockRequest = record { ip = u.ip; reason = u.reason } in
        let answer = unblock_ip m calendar db (clock i) request w d in
        let done = handle-unblock_command in
        (
          answer.1,
          answer.2,
          ap (λ x. x.1) done,
          elim (unblock_ip-unblocks m calendar db (clock i) w d request ip target) [
            | inl ((a, e), blocked) ↦
                inl (ground (arith, done, e, text_eq_refl (codes "unblock_command")), blocked)
            | inr (e, filter, documents) ↦ inr (ground (arith, done, e), filter, documents)
          ],
        )
