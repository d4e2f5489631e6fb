-- ===== src/PacketProcessor/Start/Urls.antt =====
-- The URL of the stream of packets, as it is derived from that of the cloud.
use netsentry_sensor.Common.{
  ℕ, zero, suc, ◌+◌, ◌-◌, ◌≤◌, ◌≡◌, refl, ap, ◌∙◌, false, ◌&&◌, some, [], ◌∷◌, ◌++◌, length,
  length-append, arith, Option-cases, inl, inr, ◌==◌,
}
use mathlib.Core.List.{reverse, append_assoc, reverse-append, reverse-reverse}
use netsentry_sensor.Common.Text.{Text, codes, starts_with, strip_prefix}
use netsentry_sensor.PacketProcessor.Junk.{ends_with}
use netsentry_sensor.PacketProcessor.Start.{
  replace_from, drop_prefixes, trim_end_matches, derived_url,
}

-- no two slashes stand side by side
abbrev pub NoPair : Text → Type 0
NoPair [] = Unit
NoPair (c ∷ []) = Unit
NoPair (c ∷ d ∷ s) = ((c == b'/' && d == b'/') ≡ false) × NoPair (d ∷ s)

NoPair-tail : (c : ℕ) (s : Text) → NoPair (c ∷ s) → NoPair s
NoPair-tail c [] h = tt
NoPair-tail c (d ∷ s) h = h.1

NoPair-left : (s t : Text) → NoPair (s ++ t) → NoPair s
NoPair-left [] t h = tt
NoPair-left (c ∷ []) t h = tt
NoPair-left (c ∷ d ∷ s) t (pair, h) = (pair, NoPair-left (d ∷ s) t h)

starts_with-pair : (s p : Text) → NoPair s → starts_with s (p ++ (b'/' ∷ b'/' ∷ [])) ≡ false
unfolding starts_with strip_prefix
starts_with-pair [] [] h = refl
starts_with-pair (c ∷ []) [] h = ground arith
starts_with-pair (c ∷ d ∷ s) [] (pair, _) = ground (arith, pair)
starts_with-pair [] (x ∷ p) h = refl
starts_with-pair (c ∷ s) (x ∷ p) h = ground (arith, starts_with-pair s p (NoPair-tail c s h))

-- what has no such pair has none of the prefixes either
replace_from-same :
    (p to s : Text) → NoPair s → replace_from zero (p ++ (b'/' ∷ b'/' ∷ [])) to s ≡ s
unfolding replace_from
replace_from-same p to [] h = refl
replace_from-same p to (c ∷ s) h =
    rw (starts_with-pair (c ∷ s) p h)
      (ap (λ t. c ∷ t) (replace_from-same p to s (NoPair-tail c s h)))

secure :
    (s : Text)
    → NoPair s
    → replace_from 0
        (codes "http://")
        (codes "ws://")
        (replace_from 0 (codes "https://") (codes "wss://") (codes "https://" ++ s))
      ≡ codes "wss://" ++ s
unfolding replace_from starts_with strip_prefix codes
secure s h = rw (
  replace_from-same (codes "https:") (codes "wss://") s h,
  replace_from-same (codes "http:") (codes "ws://") s h,
)

plain :
    (s : Text)
    → NoPair s
    → replace_from 0
        (codes "http://")
        (codes "ws://")
        (replace_from 0 (codes "https://") (codes "wss://") (codes "http://" ++ s))
      ≡ codes "ws://" ++ s
unfolding replace_from starts_with strip_prefix codes
plain s h = rw (
  replace_from-same (codes "https:") (codes "wss://") s h,
  replace_from-same (codes "http:") (codes "ws://") s h,
)

strip_prefix-append : (p s : Text) → strip_prefix (p ++ s) p ≡ some s
unfolding strip_prefix
strip_prefix-append [] s = refl
strip_prefix-append (c ∷ p) s = ground (arith, strip_prefix-append p s)

drop_prefixes-none : (fuel : ℕ) (s p : Text) → starts_with s p ≡ false → drop_prefixes fuel s p ≡ s
unfolding drop_prefixes starts_with
drop_prefixes-none zero s p h = refl
drop_prefixes-none (suc fuel) s p h = elim (Option-cases (strip_prefix s p)) [
  | inl e ↦ ground (arith, e)
  | inr (t, e) ↦ absurd (ground (arith, e, h))
]

drop_prefixes-once :
    (fuel : ℕ) (s p t : Text)
    → strip_prefix s p ≡ some t
    → starts_with t p ≡ false
    → drop_prefixes (suc fuel) s p ≡ t
unfolding drop_prefixes
drop_prefixes-once fuel s p t e h = ground (arith, e, drop_prefixes-none fuel t p h)

trim_end_matches-none : (s p : Text) → ends_with s p ≡ false → trim_end_matches s p ≡ s
unfolding trim_end_matches ends_with
trim_end_matches-none s p h =
    ap reverse (drop_prefixes-none (length s) (reverse s) (reverse p) h) ∙ reverse-reverse s

trim_end_matches-one :
    (s p : Text) → ends_with s p ≡ false → 1 ≤ length p → trim_end_matches (s ++ p) p ≡ s
unfolding trim_end_matches ends_with
trim_end_matches-one s p h long =
    let fuel = length s + length p - 1 in
    let count : length (s ++ p) ≡ suc fuel = omega (arith, length-append s p) in
    rw
      (
        count,
        reverse-append s p,
        drop_prefixes-once fuel (reverse p ++ reverse s) (reverse p) (reverse s)
            (strip_prefix-append (reverse p) (reverse s)) h,
      )
      (reverse-reverse s)

api_long : 1 ≤ length (codes "/api/vps")
unfolding codes
api_long = omega arith

-- An endpoint `https://` or `http://` whose rest has no two slashes side by side, with `/api/vps` at
-- its end or without, yields the URL with `wss` or `ws` in its place and `/ws/packets` at its end, if
-- what stands before does not end in `/api/vps` once more.
pub derived_url-schemes :
    (s : Text)
    → NoPair (s ++ codes "/api/vps")
    → ends_with (codes "wss://" ++ s) (codes "/api/vps") ≡ false
    → ends_with (codes "ws://" ++ s) (codes "/api/vps") ≡ false
    → (derived_url (codes "https://" ++ (s ++ codes "/api/vps"))
        ≡ (codes "wss://" ++ s) ++ codes "/ws/packets")
      × (derived_url (codes "https://" ++ s) ≡ (codes "wss://" ++ s) ++ codes "/ws/packets")
      × (derived_url (codes "http://" ++ (s ++ codes "/api/vps"))
          ≡ (codes "ws://" ++ s) ++ codes "/ws/packets")
      × (derived_url (codes "http://" ++ s) ≡ (codes "ws://" ++ s) ++ codes "/ws/packets")
unfolding derived_url
derived_url-schemes s h one two = (
  rw (
    secure (s ++ codes "/api/vps") h,
    ← append_assoc (codes "wss://") s (codes "/api/vps"),
    trim_end_matches-one (codes "wss://" ++ s) (codes "/api/vps") one api_long,
  ),
  rw (
    secure s (NoPair-left s (codes "/api/vps") h),
    trim_end_matches-none (codes "wss://" ++ s) (codes "/api/vps") one,
  ),
  rw (
    plain (s ++ codes "/api/vps") h,
    ← append_assoc (codes "ws://") s (codes "/api/vps"),
    trim_end_matches-one (codes "ws://" ++ s) (codes "/api/vps") two api_long,
  ),
  rw (
    plain s (NoPair-left s (codes "/api/vps") h),
    trim_end_matches-none (codes "ws://" ++ s) (codes "/api/vps") two,
  ),
)
