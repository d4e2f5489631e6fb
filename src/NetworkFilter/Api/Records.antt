-- ===== src/NetworkFilter/Api/Records.antt =====
-- How many active documents an address has after the handlers.
use netsentry_sensor.Common.{
  ℕ, ◌+◌, ◌-◌, ◌≡◌, Bool, false, some, List, [], ◌∷◌, any, count, arith, Option-cases, inl, inr,
  refl, u8_mod, ◌%◌,
}
use netsentry_sensor.Common.Outcome.{Result, ok, err, Result-cases}
use netsentry_sensor.Common.Text.{Text, text_eq, text_eq_refl}
use netsentry_sensor.Forwarder.Service.{Calendar}
use netsentry_sensor.NetworkFilter.Api.Answers.{unblock_ip-clears}
use netsentry_sensor.NetworkFilter.Api.Documents.{
  PersistentBlockedIp, Database, IsDatabase, Updated, is_active_for, deactivated, bit,
}
use netsentry_sensor.NetworkFilter.Api.Handlers.{
  block_ip, persist_block, unblock_ip, persist_unblock,
}
use netsentry_sensor.NetworkFilter.Api.Messages.{
  BlockRequest, UnblockRequest, PreventionResponse, HandlerClock, normalize_ipv4_target, document,
  millis,
}
use netsentry_sensor.NetworkFilter.Blocking.{block_ip_direct}
use netsentry_sensor.NetworkFilter.Blocking
use netsentry_sensor.NetworkFilter.Filter.{Times, is_ip_blocked}
use netsentry_sensor.NetworkFilter.Firewall.{Machine}
use netsentry_sensor.NetworkFilter.State.{World}

count_of_none : {A : Type 0} (p : A → Bool) (xs : List A) → any p xs ≡ false → count p xs ≡ 0
unfolding any count
count_of_none p [] e = refl
count_of_none p (x ∷ xs) e = ground (arith, count_of_none p xs)

-- the active documents of an address
abbrev pub active_for : {D : Type 0} → (D → List PersistentBlockedIp) → Text → D → ℕ
active_for documents ip d = count (is_active_for ip) (documents d)

module _ {D : Type 0} (db : Database D) (documents : D → List PersistentBlockedIp)
    (h : IsDatabase db documents) where
  update_newest-removes :
      (ip reason : Text) (now : ℕ) (d : D)
      → (db.update_newest (is_active_for ip) (deactivated now reason) d).0 ≡ ok tt
      → active_for documents ip (db.update_newest (is_active_for ip) (deactivated now reason) d).1
        ≡ active_for documents ip d - 1
  update_newest-removes ip reason now d saved =
      elim (h.updates (is_active_for ip) (deactivated now reason) d saved) [
        | Updated.unmatched missing same ↦
            ground (arith, count_of_none (is_active_for ip) (documents d) missing, same)
        | Updated.changed x test counts ↦ ground (arith, test, counts (is_active_for ip))
      ]

module _ {K F D : Type 0} (m : Machine K) (times : Times) (calendar : Calendar) (db : Database D)
    (dns : Text → List Text) where
  persist_block-inserts :
      (c : HandlerClock) (request : BlockRequest) (ip : Text) (done : Result Unit Text × World K F)
      (w' : World K F) (d d' : D) (a : PreventionResponse)
      → persist_block calendar db dns c ip request done d ≡ some (ok a, w', d')
      → (expires_at : ℕ) × (calendar.hours_after c.document_at request.duration_hours
          ≡ some expires_at)
        × (d'
            ≡ (db.insert_one (document calendar ip request (dns ip) c.document_at expires_at) d).1)
  unfolding persist_block
  persist_block-inserts c request ip (err e, w) w' d d' a e' = absurd (ground (arith, e'))
  persist_block-inserts c request ip (ok u, w) w' d d' a e =
      elim (Option-cases (calendar.hours_after c.document_at request.duration_hours)) [
        | inl out ↦ absurd (ground (arith, out, e))
        | inr (expires_at, date) ↦ (expires_at, date, ground (arith, date, e))
      ]

  -- A block that is answered with success has stored the document of its address and its end.
  pub block_ip-inserts :
      (c : HandlerClock) (request : BlockRequest) (ip : Text) (w w' : World K F) (d d' : D)
      (a : PreventionResponse)
      → normalize_ipv4_target request.ip ≡ some ip
      → block_ip m times calendar db dns c request w d ≡ some (ok a, w', d')
      → (expires_at : ℕ) × (calendar.hours_after c.document_at request.duration_hours
          ≡ some expires_at)
        × (d'
            ≡ (db.insert_one (document calendar ip request (dns ip) c.document_at expires_at) d).1)
  unfolding block_ip
  block_ip-inserts c request ip w w' d d' a target e =
      elim (Option-cases (
        block_ip_direct m times c.block ip request.reason (request.threat_level % u8_mod)
          request.duration_hours request.source w)) [
            | inl out ↦ absurd (ground (arith, target, out, e))
            | inr (done, direct) ↦
                persist_block-inserts c request ip done w' d d' a
                  (ground (arith, target, direct, e))
          ]

module _ {K F D : Type 0} (m : Machine K) (times : Times) (calendar : Calendar) (db : Database D)
    (documents : D → List PersistentBlockedIp) (h : IsDatabase db documents)
    (dns : Text → List Text) where
  -- A block that is answered with success, on a database that takes the document, adds one active
  -- document of its address and none of another.
  pub block_ip-adds :
      (c : HandlerClock) (request : BlockRequest) (ip j : Text) (w w' : World K F) (d d' : D)
      (a : PreventionResponse)
      → normalize_ipv4_target request.ip ≡ some ip
      → ((x : PersistentBlockedIp) → (db.insert_one x d).0 ≡ ok tt)
      → block_ip m times calendar db dns c request w d ≡ some (ok a, w', d')
      → active_for documents j d' ≡ active_for documents j d + bit (text_eq ip j)
  block_ip-adds c request ip j w w' d d' a target saves e =
      let (expires_at, _, inserted) =
        block_ip-inserts m times calendar db dns c request ip w w' d d' a target e in
      let x = document calendar ip request (dns ip) c.document_at expires_at in
      ground (arith, inserted, h.inserts x d (is_active_for j) (saves x))

  -- An unblock that is answered with success, on a database that takes the update, takes one of the
  -- active documents of its address, if there are any.
  pub unblock_ip-removes :
      (c : HandlerClock) (request : UnblockRequest) (ip : Text) (w w' : World K F) (d d' : D)
      (a : PreventionResponse)
      → normalize_ipv4_target request.ip ≡ some ip
      → ((test : PersistentBlockedIp → Bool) (set : PersistentBlockedIp → PersistentBlockedIp)
          → (db.update_newest test set d).0 ≡ ok tt)
      → unblock_ip m calendar db c request w d ≡ (ok a, w', d')
      → active_for documents ip d' ≡ active_for documents ip d - 1
  unfolding unblock_ip persist_unblock
  unblock_ip-removes c request ip w w' d d' a target saves e =
      let taken =
        update_newest-removes db documents h ip request.reason (millis c.document_at) d
          (saves (is_active_for ip) (deactivated (millis c.document_at) request.reason)) in
      elim (Result-cases (Blocking.unblock_ip m ip w).0) [
        | inl (u, ran) ↦ ground (arith, target, ran, e, taken)
        | inr (x, ran) ↦ absurd (ground (arith, target, ran, e))
      ]

  -- After two blocks and one unblock of an address, all answered with success on a database that
  -- takes every write, the filter has no block of the address at any time, and the database has one
  -- active document of it more than before.
  pub unblock-block_twice :
      (c1 c2 c3 : HandlerClock) (r1 r2 : BlockRequest) (r3 : UnblockRequest) (ip : Text)
      (w w1 w2 w3 : World K F) (d d1 d2 d3 : D) (a1 a2 a3 : PreventionResponse)
      → normalize_ipv4_target r1.ip ≡ some ip
      → normalize_ipv4_target r2.ip ≡ some ip
      → normalize_ipv4_target r3.ip ≡ some ip
      → ((x : PersistentBlockedIp) (e : D) → (db.insert_one x e).0 ≡ ok tt)
      → ((test : PersistentBlockedIp → Bool) (set : PersistentBlockedIp → PersistentBlockedIp)
            (e : D)
          → (db.update_newest test set e).0 ≡ ok tt)
      → block_ip m times calendar db dns c1 r1 w d ≡ some (ok a1, w1, d1)
      → block_ip m times calendar db dns c2 r2 w1 d1 ≡ some (ok a2, w2, d2)
      → unblock_ip m calendar db c3 r3 w2 d2 ≡ (ok a3, w3, d3)
      → ((now : ℕ) → is_ip_blocked now ip w3.filter ≡ false)
        × (active_for documents ip d3 ≡ active_for documents ip d + 1)
  unblock-block_twice c1 c2 c3 r1 r2 r3 ip w w1 w2 w3 d d1 d2 d3 a1 a2 a3 t1 t2 t3 inserts updates
        e1 e2 e3 =
      (
        unblock_ip-clears m calendar db c3 w2 d2 r3 ip w3 d3 a3 t3 e3,
        ground (
          arith,
          text_eq_refl ip,
          block_ip-adds c1 r1 ip ip w w1 d d1 a1 t1 (λ x. inserts x d) e1,
          block_ip-adds c2 r2 ip ip w1 w2 d1 d2 a2 t2 (λ x. inserts x d1) e2,
          unblock_ip-removes c3 r3 ip w2 w3 d2 d3 a3 t3 (λ test set. updates test set d2) e3,
        ),
      )
