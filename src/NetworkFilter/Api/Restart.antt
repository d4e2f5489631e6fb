-- ===== src/NetworkFilter/Api/Restart.antt =====
-- What a restart blocks again: the addresses of the active documents whose dates are not over.
use netsentry_sensor.Common.{
  ℕ, ◌+◌, ◌%◌, ◌≡◌, Bool, false, ◌||◌, ◌&&◌, not, none, some, List, [], ◌∷◌, arith, leb, is_some,
  Option-cases, Bool-cases, inl, inr, u8_mod,
}
use netsentry_sensor.Common.Dict.{lookup, lookup-insert}
use netsentry_sensor.Common.Outcome.{Result, ok, err}
use netsentry_sensor.Common.Text.{Text, text_eq}
use netsentry_sensor.NetworkFilter.Api.Documents.{PersistentBlockedIp, Database, is_active}
use netsentry_sensor.NetworkFilter.Api.Startup.{
  RestoreClock, date_or, restore_document, restore_documents, restore_active_blocks,
}
use netsentry_sensor.NetworkFilter.Blocking.{restore_blocked_ip, record_block, remaining_secs}
use netsentry_sensor.NetworkFilter.Filter.{Times, BlockClock}
use netsentry_sensor.NetworkFilter.Firewall.{Machine, apply_iptables_block}
use netsentry_sensor.NetworkFilter.State.{BlockedIp, World}

-- a document whose date is not over
abbrev pub is_current : RestoreClock → PersistentBlockedIp → Bool
is_current c x = not (leb (date_or c.no_expires_at x.expires_at_dt) c.block.utc_now)

-- some document of the address is current when its turn comes
unfoldable pub names :
    (clock : ℕ → RestoreClock) (n : ℕ) (ip : Text) → List PersistentBlockedIp → Bool
names clock n ip [] = false
names clock n ip (x ∷ xs) = text_eq x.ip ip && is_current (clock n) x || names clock (n + 1) ip xs

-- whether the table has an entry
abbrev pub has_entry : {K F : Type 0} → Text → World K F → Bool
has_entry ip w = is_some (lookup ip w.filter.blocked_ips)

record_block-has_entry :
    {K F : Type 0} (m : Machine K) (times : Times) (c : BlockClock) (ip reason source j : Text)
    (level secs expires_utc blocked_utc : ℕ) (done : Result Unit Text × K) (w : World K F)
    (r : Result Unit Text) (w' : World K F)
    → done.0 ≡ ok tt
    → record_block m times c ip reason level secs expires_utc blocked_utc source done w
      ≡ some (r, w')
    → has_entry j w' ≡ (has_entry j w || text_eq ip j)
unfolding record_block
record_block-has_entry m times c ip reason source j level secs expires_utc blocked_utc (err x, k) w
      r w' fine e =
    absurd (ground (arith, fine))
record_block-has_entry m times c ip reason source j level secs expires_utc blocked_utc (ok u, k) w r
      w' fine e =
    elim (Option-cases (times.instant_after c.expiry_base secs)) [
      | inl out ↦ absurd (ground (arith, out, e))
      | inr (expires, inst) ↦
          let b : BlockedIp = record {
            ip = ip;
            blocked_at = c.blocked_at;
            expires_at = expires;
            blocked_at_utc = blocked_utc;
            expires_at_utc = expires_utc;
            reason = reason;
            threat_level = level;
            source = source;
            interface = m.interface;
          } in
          ground (arith, inst, e, lookup-insert ip j b w.filter.blocked_ips)
    ]

module _ {K F : Type 0} (m : Machine K) (times : Times)
    (works : (ip : Text) (k : K) → (apply_iptables_block m ip k).0 ≡ ok tt) where
  restore_document-has_entry :
      (c : RestoreClock) (x : PersistentBlockedIp) (ip : Text) (w w' : World K F)
      → restore_document m times c x w ≡ some w'
      → has_entry ip w' ≡ (has_entry ip w || text_eq x.ip ip && is_current c x)
  unfolding restore_document restore_blocked_ip
  restore_document-has_entry c x ip w w' e =
      let ends = date_or c.no_expires_at x.expires_at_dt in
      elim (Bool-cases (leb ends c.block.utc_now)) [
        | inl over ↦ ground (arith, over, e)
        | inr current ↦
            elim (Option-cases (
              record_block m times c.block x.ip x.reason (x.threat_level % u8_mod)
                (remaining_secs ends c.utc_later) ends (date_or c.no_blocked_at x.blocked_at_dt)
                x.source (apply_iptables_block m x.ip w.kernel) w)) [
                  | inl out ↦ absurd (ground (arith, current, out, e))
                  | inr ((r, w1), recorded) ↦ ground (
                    arith,
                    current,
                    recorded,
                    e,
                    record_block-has_entry m times c.block x.ip x.reason x.source ip
                        (x.threat_level % u8_mod) (remaining_secs ends c.utc_later) ends
                        (date_or c.no_blocked_at x.blocked_at_dt)
                        (apply_iptables_block m x.ip w.kernel) w r w1 (works x.ip w.kernel)
                        recorded,
                  )
                ]
      ]

  restore_documents-has_entry :
      (clock : ℕ → RestoreClock) (n : ℕ) (xs : List PersistentBlockedIp) (ip : Text)
      (w w' : World K F)
      → restore_documents m times clock n xs w ≡ some w'
      → has_entry ip w' ≡ (has_entry ip w || names clock n ip xs)
  unfolding restore_documents names
  restore_documents-has_entry clock n [] ip w w' e = ground (arith, e)
  restore_documents-has_entry clock n (x ∷ xs) ip w w' e =
      elim (Option-cases (restore_document m times (clock n) x w)) [
        | inl out ↦ absurd (ground (arith, out, e))
        | inr (w1, first) ↦ ground (
          arith,
          restore_document-has_entry (clock n) x ip w w1 first,
          restore_documents-has_entry clock (n + 1) xs ip w1 w' (ground (arith, first, e)),
        )
      ]

  -- Where the firewall takes every block and the database answers in full, restoring succeeds
  -- unless it panics. Then an address has an entry exactly if it had one, or if an active
  -- document names it whose date is not over when its turn comes.
  pub restore_active_blocks-has_entry :
      {D : Type 0} (db : Database D) (clock : ℕ → RestoreClock) (d : D)
      (xs : List PersistentBlockedIp) (ip : Text) (w w' : World K F) (r : Result Unit Text)
      → db.find is_active d ≡ ok (record { documents = xs; failure = none })
      → restore_active_blocks m times db clock d w ≡ some (r, w')
      → (r ≡ ok tt) × (has_entry ip w' ≡ (has_entry ip w || names clock 0 ip xs))
  unfolding restore_active_blocks
  restore_active_blocks-has_entry db clock d xs ip w w' r found e =
      elim (Option-cases (restore_documents m times clock 0 xs w)) [
        | inl out ↦ absurd (ground (arith, found, out, e))
        | inr (w1, restored) ↦
            ground
              (arith, found, restored, e, restore_documents-has_entry clock 0 xs ip w w1 restored)
      ]
