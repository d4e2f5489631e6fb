-- ===== src/NetworkFilter/Start/Survival.antt =====
-- What blocks and unblocks become when the network filter starts again.
use netsentry_sensor.Common.{
  ℕ, ◌*◌, ◌<◌, ◌≤◌, ◌≡◌, Bool, true, false, none, some, List, [], arith, Option-cases, inl, inr,
}
use netsentry_sensor.Common.Dict.{lookup}
use netsentry_sensor.Common.Outcome.{ok}
use netsentry_sensor.Common.Text.{Text}
use netsentry_sensor.Forwarder.Service.{Calendar}
use netsentry_sensor.NetworkFilter.Api.Documents.{
  PersistentBlockedIp, Database, IsDatabase, is_active,
}
use netsentry_sensor.NetworkFilter.Api.Handlers.{block_ip, unblock_ip}
use netsentry_sensor.NetworkFilter.Api.Messages.{
  BlockRequest, UnblockRequest, PreventionResponse, HandlerClock, normalize_ipv4_target, millis,
}
use netsentry_sensor.NetworkFilter.Api.Records.{active_for}
use netsentry_sensor.NetworkFilter.Api.Restart.{has_entry}
use netsentry_sensor.NetworkFilter.Api.Startup.{RestoreClock, restore_active_blocks}
use netsentry_sensor.NetworkFilter.Api.Survival.{restart-block_ip, restart-unblock_ip}
use netsentry_sensor.NetworkFilter.Filter.{Times}
use netsentry_sensor.NetworkFilter.Firewall.{Machine, apply_iptables_block}
use netsentry_sensor.NetworkFilter.Start.{filter_config, start}
use netsentry_sensor.NetworkFilter.State.{World, new}

module _ {K F D : Type 0} (m : Machine K) (times : Times) (calendar : Calendar) (db : Database D)
    (documents : D → List PersistentBlockedIp) (h : IsDatabase db documents)
    (works : (ip : Text) (k : K) → (apply_iptables_block m ip k).0 ≡ ok tt)
    (clock : ℕ → RestoreClock) (xs : List PersistentBlockedIp) (ip : Text) (c : HandlerClock)
    (w w' w1 : World K F) (d d' : D) (a : PreventionResponse) (zero_float : F) (k : K)
    (found : db.find is_active d' ≡ ok (record { documents = xs; failure = none }))
    (started : start m times db clock zero_float d' k ≡ some w1) where
  abbrev fresh : World K F
  fresh = record { filter = new zero_float filter_config; kernel = k; sent = [] }

  -- A block that was answered with success, of a valid address on a database that took the document
  -- and answers in full, is in the table again when the filter has started anew on a firewall that
  -- takes every block, if its end, in full milliseconds, is later than every reading of the clock.
  pub start-block_ip :
      (dns : Text → List Text) (request : BlockRequest) (expires_at : ℕ)
      → normalize_ipv4_target request.ip ≡ some ip
      → ((x : PersistentBlockedIp) → (db.insert_one x d).0 ≡ ok tt)
      → block_ip m times calendar db dns c request w d ≡ some (ok a, w', d')
      → calendar.hours_after c.document_at request.duration_hours ≡ some expires_at
      → ((i : ℕ) → (clock i).block.utc_now < millis expires_at * 1000000)
      → has_entry ip w1 ≡ true
  unfolding start
  start-block_ip dns request expires_at target saves e date early =
      elim (Option-cases (restore_active_blocks m times db clock d' fresh)) [
        | inl out ↦ absurd (ground (arith, out, started))
        | inr ((r, w2), restored) ↦ ground (
          arith,
          started,
          restored,
          restart-block_ip m times calendar db documents h works clock xs ip c w w' fresh w2 d d' a
              r found restored dns request expires_at target saves e date early,
        )
      ]

  -- An unblock that was answered with success, of a valid address with at most one active document on
  -- a database that took the update and answers in full, holds when the filter has started anew on a
  -- firewall that takes every block: the table has no entry of the address.
  pub start-unblock_ip :
      (request : UnblockRequest)
      → normalize_ipv4_target request.ip ≡ some ip
      → ((test : PersistentBlockedIp → Bool) (set : PersistentBlockedIp → PersistentBlockedIp)
          → (db.update_newest test set d).0 ≡ ok tt)
      → unblock_ip m calendar db c request w d ≡ (ok a, w', d')
      → active_for documents ip d ≤ 1
      → has_entry ip w1 ≡ false
  unfolding start new lookup
  start-unblock_ip request target saves e few =
      elim (Option-cases (restore_active_blocks m times db clock d' fresh)) [
        | inl out ↦ absurd (ground (arith, out, started))
        | inr ((r, w2), restored) ↦ ground (
          arith,
          started,
          restored,
          restart-unblock_ip m times calendar db documents h works clock xs ip c w w' fresh w2 d d'
              a r found restored request target saves e few,
        )
      ]
