-- ===== src/System.antt =====
-- How the services are joined: raspi-collector/src/services/mod.rs posts to the routes of
-- network-filter/src/controllers/mod.rs (`create_router`). The collector's network is the
-- network filter, with its kernel and its database, and the rest.
pub mod Commands
pub mod Rounds
pub mod Session
pub mod Sync
use netsentry_sensor.Common.{
  ℕ, ◌+◌, ◌≡◌, ◌++◌, Option, none, some, List, [], ◌∷◌, if◌then◌else◌, ltb, u32_mod, false, refl,
  arith,
}
use netsentry_sensor.Collector.Commands.{Body, Client}
use netsentry_sensor.Common.Outcome.{Result, ok, err}
use netsentry_sensor.Common.Text.{Text, codes, text_eq, text_eq_refl}
use netsentry_sensor.Forwarder.Service.{Calendar}
use netsentry_sensor.NetworkFilter.Api.Documents.{Database}
use netsentry_sensor.NetworkFilter.Api.Handlers.{block_ip, unblock_ip}
use netsentry_sensor.NetworkFilter.Api.Messages.{
  BlockRequest, UnblockRequest, HandlerClock, PreventionResponse,
}
use netsentry_sensor.NetworkFilter.Filter.{Times}
use netsentry_sensor.NetworkFilter.Firewall.{Machine}
use netsentry_sensor.NetworkFilter.State.{World}

-- the status that a handler answers with
abbrev pub status_of : Result PreventionResponse ℕ → ℕ
status_of (ok _) = 200
status_of (err status) = status

abbrev pub unprocessable_entity : ℕ
unprocessable_entity = 422

-- A body as `Json<BlockRequest>` reads it; a `threat_level` is a `u32`.
unfoldable pub as_block_request : Body → Option BlockRequest
as_block_request (Body.block ip reason duration_hours threat_level source) =
    if ltb threat_level u32_mod
    then some (record {
      ip = ip;
      reason = reason;
      threat_level = threat_level;
      duration_hours = duration_hours;
      source = source;
    })
    else none
-- the two have no `ip`, or a default for what they lack
as_block_request (Body.unblock ip reason) = some (record {
  ip = ip;
  reason = reason;
  threat_level = 3;
  duration_hours = 24;
  source = codes "manual_dashboard";
})
as_block_request (Body.rule _ _) = none

-- A body as `Json<UnblockRequest>` reads it, which passes over other fields.
unfoldable pub as_unblock_request : Body → Option UnblockRequest
as_unblock_request (Body.block ip reason _ _ _) = some (record { ip = ip; reason = reason })
as_unblock_request (Body.unblock ip reason) = some (record { ip = ip; reason = reason })
as_unblock_request (Body.rule _ _) = none

-- The filter behind its port. `none`: a handler has panicked. What it left, and what it answers from
-- then on, is not modelled: requests fail.
abbrev pub Node : Type 0 → Type 0 → Type 0 → Type 0
Node K F D = Option (World K F × D)

module _ {K F D : Type 0} (m : Machine K) (times : Times) (calendar : Calendar) (db : Database D)
    (dns : Text → List Text) (c : HandlerClock) where
  unfoldable pub post_block : Body → World K F → D → Result ℕ Text × Node K F D
  unfolding as_block_request
  post_block body w d = elim (as_block_request body) [
    | none ↦ (ok unprocessable_entity, some (w, d))
    | some request ↦ elim (block_ip m times calendar db dns c request w d) [
      | none ↦ (err (codes "connection closed before message completed"), none)
      | some (r, w', d') ↦ (ok (status_of r), some (w', d'))
    ]
  ]

  unfoldable pub post_unblock : Body → World K F → D → Result ℕ Text × Node K F D
  unfolding as_unblock_request
  post_unblock body w d = elim (as_unblock_request body) [
    | none ↦ (ok unprocessable_entity, some (w, d))
    | some request ↦
        let answer = unblock_ip m calendar db c request w d in
        (ok (status_of answer.0), some (answer.1, answer.2))
  ]

abbrev serving :
    {K F D : Type 0}
    → (World K F → D → Result ℕ Text × Node K F D)
    → Node K F D
    → Result ℕ Text × Node K F D
serving f none = (err (codes "error sending request"), none)
serving f (some (w, d)) = f w d

-- The network of the collector with the filter at `base`: other requests go on to the rest. The state
-- is that of the rest, the number of the requests to the filter so far, and the filter; `clock` has
-- the readings of the clocks for each of these requests.
module _ {K F D : Type 0} (m : Machine K) (times : Times) (calendar : Calendar) (db : Database D)
    (dns : Text → List Text) (clock : ℕ → HandlerClock) where
  unfoldable pub with_filter :
      {V M : Type 0} → (base : Text) → Client V M → Client V (M × ℕ × Node K F D)
  unfolding post_block post_unblock
  with_filter base rest = record {
    post = λ url body n.
        let blocked = serving (post_block m times calendar db dns (clock n.1) body) n.2 in
        let unblocked = serving (post_unblock m times calendar db dns (clock n.1) body) n.2 in
        let other = rest.post url body n.0 in
        if text_eq url (base ++ codes "/block")
        then (blocked.0, (n.0, n.1 + 1, blocked.1))
        else if text_eq url (base ++ codes "/unblock")
        then (unblocked.0, (n.0, n.1 + 1, unblocked.1))
        else (other.0, (other.1, n.1, n.2));
    get_json =
        λ url key n. let answer = rest.get_json url key n.0 in (answer.0, (answer.1, n.1, n.2));
    alive = λ url n. let answer = rest.alive url n.0 in (answer.0, (answer.1, n.1, n.2));
  }

text_eq-append : (r s t : Text) → text_eq (r ++ s) (r ++ t) ≡ text_eq s t
unfolding text_eq
text_eq-append [] s t = refl
text_eq-append (a ∷ r) s t = ground (arith, text_eq-append r s t)

paths_differ : text_eq (codes "/unblock") (codes "/block") ≡ false
unfolding text_eq codes
paths_differ = refl

module _ {K F D : Type 0} (m : Machine K) (times : Times) (calendar : Calendar) (db : Database D)
    (dns : Text → List Text) (clock : ℕ → HandlerClock) {V M : Type 0} (base : Text)
    (rest : Client V M) (body : Body) (s : M) (i : ℕ) (w : World K F) (d : D) where
  pub with_filter-block :
      (with_filter m times calendar db dns clock base rest).post
        (base ++ codes "/block")
        body
        (s, i, some (w, d))
      ≡ (
        (post_block m times calendar db dns (clock i) body w d).0,
        (s, i + 1, (post_block m times calendar db dns (clock i) body w d).1),
      )
  unfolding with_filter
  with_filter-block = ground (arith, text_eq_refl (base ++ codes "/block"))

  pub with_filter-unblock :
      (with_filter m times calendar db dns clock base rest).post
        (base ++ codes "/unblock")
        body
        (s, i, some (w, d))
      ≡ (
        (post_unblock m times calendar db dns (clock i) body w d).0,
        (s, i + 1, (post_unblock m times calendar db dns (clock i) body w d).1),
      )
  unfolding with_filter
  with_filter-unblock = ground (
    arith,
    text_eq_refl (base ++ codes "/unblock"),
    text_eq-append base (codes "/unblock") (codes "/block"),
    paths_differ,
  )
