-- ===== src/NetworkFilter/Api/Answers.antt =====
-- What the handlers answer, and what they leave behind.
use netsentry_sensor.Common.{
  ℕ, ◌%◌, ◌≡◌, ◌⊎◌, false, some, List, arith, ltb, if◌then◌else◌, u8_mod, Option-cases, inl, inr,
}
use netsentry_sensor.Common.Ipv4.{parse_ip}
use netsentry_sensor.Common.Outcome.{ok, err}
use netsentry_sensor.Common.Text.{Text, text_eq, text_eq_refl, codes, trim, strip_prefix}
use netsentry_sensor.Forwarder.Address
use netsentry_sensor.Forwarder.Service.{Calendar}
use netsentry_sensor.NetworkFilter.Api.Documents.{Database}
use netsentry_sensor.NetworkFilter.Api.Handlers.{
  block_ip, persist_block, unblock_ip, persist_unblock,
}
use netsentry_sensor.NetworkFilter.Api.Messages.{
  BlockRequest, UnblockRequest, PreventionResponse, HandlerClock, host_of, normalize_ipv4_target,
  bad_gateway, internal_server_error, document, response,
}
use netsentry_sensor.NetworkFilter.Blocking
use netsentry_sensor.NetworkFilter.Filter.{Times, hours_secs, is_ip_blocked}
use netsentry_sensor.NetworkFilter.Firewall.{Machine, apply_iptables_block}
use netsentry_sensor.NetworkFilter.Lifecycle.{
  is_ip_blocked-block_ip_direct, block_ip_direct-err, unblock_ip-filter,
}
use netsentry_sensor.NetworkFilter.State.{World}

host_of-same : (s : Text) → host_of s ≡ Address.host_of s
unfolding host_of Address.host_of
host_of-same s = elim (Option-cases (strip_prefix s (codes "http://"))) [
  | inr (t, e) ↦ ground (arith, e)
  | inl a ↦ elim (Option-cases (strip_prefix s (codes "https://"))) [
    | inr (t, e) ↦ ground (arith, a, e)
    | inl b ↦ ground (arith, a, b)
  ]
]

-- The filter and the forwarder normalise every text to the same address, or both refuse it.
pub normalize_ipv4_target-same :
    (value : Text) → normalize_ipv4_target value ≡ Address.normalize_ipv4_target value
unfolding normalize_ipv4_target Address.normalize_ipv4_target
normalize_ipv4_target-same value = elim (Option-cases (parse_ip (trim value))) [
  | inr (ip, e) ↦ ground (arith, e)
  | inl e ↦ ground (arith, e, host_of-same (trim value))
]

module _ {K F D : Type 0} (m : Machine K) (times : Times) (calendar : Calendar) (db : Database D)
    (c : HandlerClock) (w : World K F) (d : D) where
  module _ (dns : Text → List Text) (request : BlockRequest) (ip : Text) (expires_utc : ℕ)
      (target : normalize_ipv4_target request.ip ≡ some ip)
      (utc : times.utc_after c.block.utc_now (hours_secs request.duration_hours)
        ≡ some expires_utc) where
    -- A valid request whose times are in range and whose firewall commands succeed is answered with
    -- success, whatever the database does, and the address is then blocked until the expiry; what
    -- `is_ip_blocked` says of any other address stays.
    pub block_ip-blocks :
        (expires expires_at : ℕ) (k : K)
        → times.instant_after c.block.expiry_base (hours_secs request.duration_hours) ≡ some expires
        → calendar.hours_after c.document_at request.duration_hours ≡ some expires_at
        → apply_iptables_block m ip w.kernel ≡ (ok tt, k)
        → (a : PreventionResponse) × (w' : World K F) × (d' : D) × (block_ip m times calendar db dns
              c request w d
            ≡ some (ok a, w', d'))
          × ((now : ℕ) (j : Text)
              → is_ip_blocked now j w'.filter
                ≡ (if text_eq ip j then ltb now expires else is_ip_blocked now j w.filter))
    unfolding block_ip persist_block
    block_ip-blocks expires expires_at k inst date applied =
        let (w', done, blocked, _) =
          is_ip_blocked-block_ip_direct m w times c.block ip request.reason request.source
            (request.threat_level % u8_mod) request.duration_hours expires expires_utc k utc inst
            applied in
        (
          response calendar c.responded_at ip (codes " blocked successfully"),
          w',
          (db.insert_one (document calendar ip request (dns ip) c.document_at expires_at) d).1,
          ground (arith, target, done, date),
          blocked,
        )

    -- Where the firewall refuses the block of a valid request, the answer is 502, and the filter and
    -- the database are as they were.
    pub block_ip-bad_gateway :
        (e : Text) (k : K)
        → apply_iptables_block m ip w.kernel ≡ (err e, k)
        → block_ip m times calendar db dns c request w d
          ≡ some (err bad_gateway, record w { kernel = k }, d)
    unfolding block_ip persist_block
    block_ip-bad_gateway e k failed =
        let refused =
          block_ip_direct-err m w times c.block ip request.reason request.source
            (request.threat_level % u8_mod) request.duration_hours expires_utc k e utc failed in
        ground (arith, target, refused)

module _ {K F D : Type 0} (m : Machine K) (calendar : Calendar) (db : Database D) (c : HandlerClock)
    (w : World K F) (d : D) where
  -- A request to unblock a valid address is either answered with success, and then the address is
  -- not blocked at any time and every other address is blocked as before, or with 500, and then the
  -- filter and the database are as they were.
  pub unblock_ip-unblocks :
      (request : UnblockRequest) (ip : Text)
      → normalize_ipv4_target request.ip ≡ some ip
      → (((a : PreventionResponse) × ((unblock_ip m calendar db c request w d).0 ≡ ok a))
          × ((now : ℕ) (j : Text)
              → is_ip_blocked now j (unblock_ip m calendar db c request w d).1.filter
                ≡ (if text_eq ip j then false else is_ip_blocked now j w.filter)))
        ⊎ (((unblock_ip m calendar db c request w d).0 ≡ err internal_server_error)
            × ((unblock_ip m calendar db c request w d).1.filter ≡ w.filter)
            × ((unblock_ip m calendar db c request w d).2 ≡ d))
  unfolding unblock_ip persist_unblock
  unblock_ip-unblocks request ip target =
      let ran = Blocking.unblock_ip m ip w in
      elim (unblock_ip-filter m w ip) [
        | inl (e, blocked) ↦ inl (
          (
            response calendar c.responded_at ip (codes " unblocked successfully"),
            ground (arith, target, e),
          ),
          λ now j. ground (arith, target, e, blocked now j),
        )
        | inr (x, e, same) ↦
            inr (
              ground (arith, target, e),
              ground (arith, target, e, same),
              ground (arith, target, e),
            )
      ]

  pub unblock_ip-clears :
      (request : UnblockRequest) (ip : Text) (w' : World K F) (d' : D) (a : PreventionResponse)
      → normalize_ipv4_target request.ip ≡ some ip
      → unblock_ip m calendar db c request w d ≡ (ok a, w', d')
      → (now : ℕ) → is_ip_blocked now ip w'.filter ≡ false
  unblock_ip-clears request ip w' d' a target e now = elim (unblock_ip-unblocks request ip target) [
    | inl (_, blocked) ↦ ground (arith, text_eq_refl ip, e, blocked now ip)
    | inr (refused, _, _) ↦ absurd (ground (arith, e, refused))
  ]
