-- ===== src/NetworkFilter/Api/Survival.antt =====
-- What a restart makes of the blocks and unblocks before it.
use netsentry_sensor.Common.{
  ℕ, ◌+◌, ◌*◌, ◌<◌, ◌≤◌, ◌≡◌, Bool, true, false, ◌&&◌, ◌==◌, none, some, List, [], ◌∷◌, count,
  arith, Bool-cases, inl, inr, refl,
}
use netsentry_sensor.Common.Outcome.{Result, ok}
use netsentry_sensor.Common.Text.{Text, text_eq, text_eq_refl}
use netsentry_sensor.Forwarder.Service.{Calendar}
use netsentry_sensor.NetworkFilter.Api.Documents.{
  PersistentBlockedIp, Database, IsDatabase, is_active, is_active_for,
}
use netsentry_sensor.NetworkFilter.Api.Handlers.{block_ip, unblock_ip}
use netsentry_sensor.NetworkFilter.Api.Messages.{
  BlockRequest, UnblockRequest, PreventionResponse, HandlerClock, normalize_ipv4_target, document,
  millis,
}
use netsentry_sensor.NetworkFilter.Api.Records.{active_for, unblock_ip-removes, block_ip-inserts}
use netsentry_sensor.NetworkFilter.Api.Restart.{names, has_entry, restore_active_blocks-has_entry}
use netsentry_sensor.NetworkFilter.Api.Startup.{RestoreClock, restore_active_blocks}
use netsentry_sensor.NetworkFilter.Filter.{Times}
use netsentry_sensor.NetworkFilter.Firewall.{Machine, apply_iptables_block}
use netsentry_sensor.NetworkFilter.State.{World}

-- a document of the address that has this date as its end
abbrev pub ends_at : (ip : Text) (ms : ℕ) → PersistentBlockedIp → Bool
ends_at ip ms x = text_eq x.ip ip && elim (x.expires_at_dt) [ some t ↦ t == ms | none ↦ false ]

names_some :
    (clock : ℕ → RestoreClock) (n : ℕ) (ip : Text) (ms : ℕ) (xs : List PersistentBlockedIp)
    → ((i : ℕ) → (clock i).block.utc_now < ms * 1000000)
    → 1 ≤ count (ends_at ip ms) xs
    → names clock n ip xs ≡ true
unfolding names count
names_some clock n ip ms [] early there = absurd (omega (arith, there))
names_some clock n ip ms (x ∷ xs) early there = elim (Bool-cases (ends_at ip ms x)) [
  | inl yes' ↦ ground (arith, early n, yes')
  | inr no' ↦ ground (arith, no', names_some clock (n + 1) ip ms xs early)
]

names_none :
    (clock : ℕ → RestoreClock) (n : ℕ) (ip : Text) (xs : List PersistentBlockedIp)
    → count (λ x. text_eq x.ip ip) xs ≡ 0
    → names clock n ip xs ≡ false
unfolding names count
names_none clock n ip [] e = refl
names_none clock n ip (x ∷ xs) e = ground (arith, names_none clock (n + 1) ip xs)

-- the two tests of a document in either order
count-active :
    (ip : Text) (xs : List PersistentBlockedIp)
    → count (λ x. is_active x && text_eq x.ip ip) xs ≡ count (is_active_for ip) xs
unfolding count
count-active ip [] = refl
count-active ip (x ∷ xs) = ground (arith, count-active ip xs)

module _ {K F D : Type 0} (m : Machine K) (times : Times) (calendar : Calendar) (db : Database D)
    (documents : D → List PersistentBlockedIp) (h : IsDatabase db documents)
    (works : (ip : Text) (k : K) → (apply_iptables_block m ip k).0 ≡ ok tt)
    (clock : ℕ → RestoreClock) (xs : List PersistentBlockedIp) (ip : Text) (c : HandlerClock)
    (w w' w0 w1 : World K F) (d d' : D) (a : PreventionResponse) (r : Result (Unit {0}) Text)
    (found : db.find is_active d' ≡ ok (record { documents = xs; failure = none }))
    (restored : restore_active_blocks m times db clock d' w0 ≡ some (r, w1)) where
  -- A block that was answered with success and stored is in the table again after a restart on a
  -- firewall that takes every block, if the database answers in full, the restart does not panic,
  -- and the block's end, in full milliseconds, is later than every reading of the clock.
  pub restart-block_ip :
      (dns : Text → List Text) (request : BlockRequest) (expires_at : ℕ)
      → normalize_ipv4_target request.ip ≡ some ip
      → ((x : PersistentBlockedIp) → (db.insert_one x d).0 ≡ ok tt)
      → block_ip m times calendar db dns c request w d ≡ some (ok a, w', d')
      → calendar.hours_after c.document_at request.duration_hours ≡ some expires_at
      → ((i : ℕ) → (clock i).block.utc_now < millis expires_at * 1000000)
      → has_entry ip w1 ≡ true
  restart-block_ip dns request expires_at target saves e date early =
      let (stored_end, stored_date, inserted) =
        block_ip-inserts m times calendar db dns c request ip w w' d d' a target e in
      let x = document calendar ip request (dns ip) c.document_at stored_end in
      let ms = millis expires_at in
      let same : stored_end ≡ expires_at = ground (arith, stored_date, date) in
      let there : 1 ≤ count (ends_at ip ms) xs = ground (
        arith,
        same,
        inserted,
        text_eq_refl ip,
        h.inserts x d (λ y. is_active y && ends_at ip ms y) (saves x),
        h.finds is_active (ends_at ip ms) d' (record { documents = xs; failure = none }) found refl,
      ) in
      ground (
        arith,
        names_some clock 0 ip ms xs early there,
        restore_active_blocks-has_entry m times works db clock d' xs ip w0 w1 r found restored,
      )

  -- An unblock that was answered with success and stored, of an address with at most one active
  -- document, holds after a restart that does not panic, if the database answers in full and the
  -- firewall takes every block: the address has an entry then only if it had one before.
  pub restart-unblock_ip :
      (request : UnblockRequest)
      → normalize_ipv4_target request.ip ≡ some ip
      → ((test : PersistentBlockedIp → Bool) (set : PersistentBlockedIp → PersistentBlockedIp)
          → (db.update_newest test set d).0 ≡ ok tt)
      → unblock_ip m calendar db c request w d ≡ (ok a, w', d')
      → active_for documents ip d ≤ 1
      → has_entry ip w1 ≡ has_entry ip w0
  restart-unblock_ip request target saves e few = ground (
    arith,
    unblock_ip-removes m times calendar db documents h (λ _. []) c request ip w w' d d' a target
        saves e,
    count-active ip (documents d'),
    h.finds is_active (λ x. text_eq x.ip ip) d' (record { documents = xs; failure = none }) found
        refl,
    names_none clock 0 ip xs,
    restore_active_blocks-has_entry m times works db clock d' xs ip w0 w1 r found restored,
  )
