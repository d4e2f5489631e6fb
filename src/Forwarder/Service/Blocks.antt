-- ===== src/Forwarder/Service/Blocks.antt =====
-- What the requests and the cleanup task make of the table of blocked addresses.
use netsentry_sensor.Common.{
  ℕ, ◌≡◌, refl, Bool, true, false, not, Option, none, some, List, [], ◌∷◌, arith, map, keep, any,
  is_some, if◌then◌else◌, Option-cases, inl, inr,
}
use netsentry_sensor.Common.Dict.{
  Dict, IsMap, lookup, insert, remove, lookup-insert, lookup-remove, keep_value,
}
use netsentry_sensor.Common.Outcome.{Result, ok, err}
use netsentry_sensor.Common.Text.{Text, text_eq, text_eq_iff, text_eq_refl}
use netsentry_sensor.Forwarder.Address.{normalize_ipv4_target}
use netsentry_sensor.Forwarder.Service.{
  BlockRequest, UnblockRequest, BlockedIpInfo, AppState, PreventionResponse, Router, Calendar,
  forward_block_to_firewall, is_ok, bad_request, blocked_response, block_ip, unblock_ip,
  unblock_ip_by_path, is_expired, collect_expired, remove_all, remove_expired,
}

module _ {R : Type 0} (router : Router R) (calendar : Calendar) where
  -- the entry that a request makes
  abbrev pub info_of :
      BlockRequest → (ip : Text) → (utc_now expires : ℕ) → (enforced : Bool) → BlockedIpInfo
  info_of request ip utc_now expires enforced = record {
    ip = ip;
    reason = request.reason;
    threat_level = request.threat_level;
    blocked_at = calendar.print_time utc_now;
    expires_at = calendar.print_time expires;
    source = request.source;
    firewall_enforced = enforced;
  }

  abbrev pub enforced_by : BlockRequest → Text → AppState → R → Bool
  enforced_by request ip s r =
      is_ok
        (forward_block_to_firewall router s.firewall_url s.firewall_api_key ip request.reason
          request.duration_hours r).0

  -- A request for a valid address, whose expiry is in range, succeeds whether or not the router takes
  -- it; the table then has the entry under the normalised address, which says whether the router took
  -- it, and is unchanged elsewhere.
  pub block_ip-caches :
      (utc_now responded_at : ℕ) (request : BlockRequest) (s : AppState) (r : R) (ip : Text)
      (expires : ℕ) (j : Text)
      → normalize_ipv4_target request.ip ≡ some ip
      → calendar.hours_after utc_now request.duration_hours ≡ some expires
      → (response : PreventionResponse) × (s' : AppState) × (r' : R) × (block_ip router calendar
            utc_now responded_at request s r
          ≡ some (ok response, s', r'))
        × (response.success ≡ true)
        × (lookup j s'.blocked_ips ≡ (
            if text_eq ip j
            then some (info_of request ip utc_now expires (enforced_by request ip s r))
            else lookup j s.blocked_ips))
  unfolding block_ip
  block_ip-caches utc_now responded_at request s r ip expires j valid range =
      let enforced = enforced_by request ip s r in
      let info = info_of request ip utc_now expires enforced in
      (
        blocked_response calendar responded_at ip enforced,
        record s { blocked_ips = insert ip info s.blocked_ips },
        (forward_block_to_firewall router s.firewall_url s.firewall_api_key ip request.reason
            request.duration_hours r).1,
        ground (arith, valid, range),
        refl,
        lookup-insert ip j info s.blocked_ips,
      )

  -- A request for what is no address is refused with status 400, and neither the table nor the router
  -- is touched, whether it asks to block or to unblock.
  pub block_ip-bad_request :
      (utc_now responded_at : ℕ) (request : BlockRequest) (s : AppState) (r : R)
      → normalize_ipv4_target request.ip ≡ none
      → (block_ip router calendar utc_now responded_at request s r ≡ some (err bad_request, s, r))
        × (unblock_ip_by_path router calendar responded_at request.ip s r ≡ (err bad_request, s, r))
  unfolding block_ip unblock_ip_by_path
  block_ip-bad_request utc_now responded_at request s r invalid =
      (ground (arith, invalid), ground (arith, invalid))

  -- After a block and an unblock of the same address, in any spelling of it, the table has no entry
  -- for it, and is as it was elsewhere.
  pub unblock_ip-block_ip :
      (utc_now responded_at : ℕ) (request : BlockRequest) (undo : UnblockRequest) (s s' : AppState)
      (r r' : R) (result : Result PreventionResponse ℕ) (ip j : Text)
      → normalize_ipv4_target request.ip ≡ some ip
      → normalize_ipv4_target undo.ip ≡ some ip
      → block_ip router calendar utc_now responded_at request s r ≡ some (result, s', r')
      → lookup j (unblock_ip router calendar responded_at undo s' r').1.blocked_ips
        ≡ (if text_eq ip j then none else lookup j s.blocked_ips)
  unfolding block_ip unblock_ip unblock_ip_by_path
  unblock_ip-block_ip utc_now responded_at request undo s s' r r' result ip j v w e =
      elim (Option-cases (calendar.hours_after utc_now request.duration_hours)) [
        | inl out ↦ absurd (ground (arith, v, out, e))
        | inr (expires, range) ↦ ground (
          arith,
          v,
          w,
          range,
          e,
          lookup-remove ip j s'.blocked_ips,
          lookup-insert ip j (info_of request ip utc_now expires (enforced_by request ip s r))
              s.blocked_ips,
        )
      ]

  abbrev pub not_expired : ℕ → BlockedIpInfo → Bool
  not_expired now info = not (is_expired calendar now info)

  lookup-remove_all :
      (ips : List Text) (k : Text) (d : Dict BlockedIpInfo)
      → lookup k (remove_all ips d) ≡ (if any (λ ip. text_eq ip k) ips then none else lookup k d)
  unfolding any
  lookup-remove_all [] k d = refl
  lookup-remove_all (ip ∷ ips) k d =
      ground (arith, lookup-remove_all ips k (remove ip d), lookup-remove ip k d)

  abbrev expired_value : ℕ → Option BlockedIpInfo → Bool
  expired_value now none = false
  expired_value now (some info) = is_expired calendar now info

  any-expired :
      (now : ℕ) (k : Text) (d : Dict BlockedIpInfo)
      → IsMap d
      → any (λ ip. text_eq ip k) (map (λ e. e.0) (keep (λ e. is_expired calendar now e.1) d))
        ≡ expired_value now (lookup k d)
  unfolding any keep lookup
  any-expired now k [] h = refl
  any-expired now k ((j, info) ∷ d) (fresh, h) =
      ground (arith, any-expired now k d h, text_eq_iff j k)

  -- A tick of the cleanup task that nothing interrupts removes exactly the expired entries of a table
  -- in which each key stands once.
  pub lookup-remove_expired :
      (now : ℕ) (s : AppState) (k : Text)
      → IsMap s.blocked_ips
      → lookup k (remove_expired (collect_expired calendar now s) s).blocked_ips
        ≡ keep_value (not_expired now) (lookup k s.blocked_ips)
  unfolding remove_expired collect_expired
  lookup-remove_expired now s k h = ground (
    arith,
    lookup-remove_all (map (λ e. e.0) (keep (λ e. is_expired calendar now e.1) s.blocked_ips)) k
        s.blocked_ips,
    any-expired now k s.blocked_ips h,
  )

  block_ip-makes_entry :
      (utc_now responded_at : ℕ) (request : BlockRequest) (s s' : AppState) (r r' : R)
      (result : Result PreventionResponse ℕ) (ip : Text)
      → normalize_ipv4_target request.ip ≡ some ip
      → block_ip router calendar utc_now responded_at request s r ≡ some (result, s', r')
      → is_some (lookup ip s'.blocked_ips) ≡ true
  unfolding block_ip
  block_ip-makes_entry utc_now responded_at request s s' r r' result ip v b =
      elim (Option-cases (calendar.hours_after utc_now request.duration_hours)) [
        | inl out ↦ absurd (ground (arith, v, out, b))
        | inr (expires, range) ↦ ground (
          arith,
          v,
          range,
          b,
          text_eq_refl ip,
          lookup-insert ip ip (info_of request ip utc_now expires (enforced_by request ip s r))
              s.blocked_ips,
        )
      ]

  -- When an address whose entry has expired is blocked again between the two halves of a tick, on a
  -- table in which each key stands once, the tick removes the new entry, which the block had made.
  pub remove_expired-block_ip :
      (now utc_now responded_at : ℕ) (request : BlockRequest) (s s' : AppState) (r r' : R)
      (result : Result PreventionResponse ℕ) (ip : Text) (info : BlockedIpInfo)
      → IsMap s.blocked_ips
      → lookup ip s.blocked_ips ≡ some info
      → is_expired calendar now info ≡ true
      → normalize_ipv4_target request.ip ≡ some ip
      → block_ip router calendar utc_now responded_at request s r ≡ some (result, s', r')
      → (is_some (lookup ip s'.blocked_ips) ≡ true)
        × (lookup ip (remove_expired (collect_expired calendar now s) s').blocked_ips ≡ none)
  unfolding remove_expired collect_expired block_ip
  remove_expired-block_ip now utc_now responded_at request s s' r r' result ip info h e x v b = (
    block_ip-makes_entry utc_now responded_at request s s' r r' result ip v b,
    ground (
      arith,
      lookup-remove_all (map (λ e. e.0) (keep (λ e. is_expired calendar now e.1) s.blocked_ips)) ip
          s'.blocked_ips,
      any-expired now ip s.blocked_ips h,
      e,
      x,
    ),
  )
