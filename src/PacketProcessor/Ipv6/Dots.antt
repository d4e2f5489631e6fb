-- ===== src/PacketProcessor/Ipv6/Dots.antt =====
-- How the filter of junk reads a printed IPv6 address.
use netsentry_sensor.Common.{
  ℕ, ◌/◌, ◌%◌, ◌+◌, ◌≤◌, ◌≡◌, refl, Bool, false, ◌&&◌, ◌||◌, List, [], ◌∷◌, ◌++◌, map, take, drop,
  arith, ltb, ◌==◌, All, All-append, Bool-cases, inl, inr,
}
use netsentry_sensor.Common.Ipv4.{
  Ipv4, print_ip, print_octet, split-append, split-last, print_octet-no_dot,
}
use netsentry_sensor.Common.Ipv4
use netsentry_sensor.Common.Text.{
  Text, codes, text_eq, join, split, starts_with, strip_prefix, parse_uint,
}
use netsentry_sensor.PacketProcessor.Capture.{hex_digit}
use netsentry_sensor.PacketProcessor.Ipv6.{
  Ipv6, IsAddress, Span, segments, print_hex, longest_zeros, print_segments, is_mapped, mapped,
  print_ipv6,
}
use netsentry_sensor.PacketProcessor.Junk.{is_junk_packet, is_private_or_local, octets, four_octets}
use netsentry_sensor.PacketProcessor.Junk.Private.{octets-cons, parse_uint-print_octet}

abbrev pub HasNoDot : Text → Type 0
HasNoDot s = All (λ c. (c == b'.') ≡ false) s

hex_digit-no_dot : (n : ℕ) → (hex_digit n == b'.') ≡ false
hex_digit-no_dot n = ground arith

hex_digits-HasNoDot : (ns : List ℕ) → HasNoDot (map hex_digit ns)
hex_digits-HasNoDot [] = tt
hex_digits-HasNoDot (n ∷ ns) = (hex_digit-no_dot n, hex_digits-HasNoDot ns)

print_hex-HasNoDot : (n : ℕ) → HasNoDot (print_hex n)
unfolding print_hex
print_hex-HasNoDot n = elim (Bool-cases (ltb n 16)) [
  | inl e ↦ rw e (hex_digits-HasNoDot (n ∷ []))
  | inr e ↦ rw e (elim (Bool-cases (ltb n 256)) [
    | inl f ↦ rw f (hex_digits-HasNoDot ((n / 16) ∷ (n % 16) ∷ []))
    | inr f ↦ rw f (elim (Bool-cases (ltb n 4096)) [
      | inl g ↦ rw g (hex_digits-HasNoDot ((n / 256) ∷ (n / 16 % 16) ∷ (n % 16) ∷ []))
      | inr g ↦
          rw g
            (hex_digits-HasNoDot ((n / 4096 % 16) ∷ (n / 256 % 16) ∷ (n / 16 % 16) ∷ (n % 16) ∷ []))
    ])
  ])
]

print_segments-HasNoDot : (ns : List ℕ) → HasNoDot (print_segments ns)
unfolding print_segments join
print_segments-HasNoDot [] = tt
print_segments-HasNoDot (n ∷ []) = print_hex-HasNoDot n
print_segments-HasNoDot (n ∷ o ∷ ns) =
    All-append (λ c. (c == b'.') ≡ false) (print_hex n) _ (print_hex-HasNoDot n)
      (refl, print_segments-HasNoDot (o ∷ ns))

-- what the filter of junk tells of a text at all
abbrev pub NotJunk : Text → Type 0
NotJunk s =
    (is_private_or_local s ≡ false)
    × (starts_with s (codes "224.") ≡ false)
    × (starts_with s (codes "239.") ≡ false)
    × (starts_with s (codes "255.") ≡ false)

starts_with-no_dot :
    (x y z : ℕ) (s : Text) → HasNoDot s → starts_with s (x ∷ y ∷ z ∷ b'.' ∷ []) ≡ false
unfolding starts_with strip_prefix
starts_with-no_dot x y z [] h = refl
starts_with-no_dot x y z (a ∷ []) h = ground arith
starts_with-no_dot x y z (a ∷ b ∷ []) h = ground arith
starts_with-no_dot x y z (a ∷ b ∷ c ∷ []) h = ground arith
starts_with-no_dot x y z (a ∷ b ∷ c ∷ d ∷ s) (_, (_, (_, (dot, _)))) = ground (arith, dot)

one_part : (s : Text) (otherwise : Bool) → four_octets (octets (s ∷ [])) otherwise ≡ false
unfolding octets
one_part s otherwise = ground arith

pub no_dot-NotJunk : (s : Text) → HasNoDot s → NotJunk s
unfolding is_private_or_local codes
no_dot-NotJunk s h = (
  rw (split-last s h) (one_part s _),
  starts_with-no_dot _ _ _ s h,
  starts_with-no_dot _ _ _ s h,
  starts_with-no_dot _ _ _ s h,
)

-- the first part of a mapped address is no number
octets-mapped :
    (x : Text) (b c d : ℕ)
    → b ≤ 255
    → c ≤ 255
    → d ≤ 255
    → octets ((codes "::ffff:" ++ x) ∷ print_octet b ∷ print_octet c ∷ print_octet d ∷ [])
      ≡ b ∷ c ∷ d ∷ []
unfolding octets parse_uint codes
octets-mapped x b c d hb hc hd = rw (
  octets-cons (print_octet b) b (print_octet c ∷ print_octet d ∷ []) (parse_uint-print_octet b hb),
  octets-cons (print_octet c) c (print_octet d ∷ []) (parse_uint-print_octet c hc),
  octets-cons (print_octet d) d [] (parse_uint-print_octet d hd),
)

split-mapped :
    (ip : Ipv4)
    → Ipv4.IsAddress ip
    → split b'.' (codes "::ffff:" ++ print_ip ip)
      ≡ (codes "::ffff:" ++ print_octet ip.a)
        ∷ print_octet ip.b
        ∷ print_octet ip.c
        ∷ print_octet ip.d
        ∷ []
unfolding print_ip codes
split-mapped ip (ha, hb, hc, hd) = rw (
  split-append (codes "::ffff:" ++ print_octet ip.a)
      (print_octet ip.b ++ (b'.' ∷ print_octet ip.c ++ (b'.' ∷ print_octet ip.d)))
      (refl, (refl, (refl, (refl, (refl, (refl, (refl, print_octet-no_dot ip.a ha))))))),
  split-append (print_octet ip.b) (print_octet ip.c ++ (b'.' ∷ print_octet ip.d))
      (print_octet-no_dot ip.b hb),
  split-append (print_octet ip.c) (print_octet ip.d) (print_octet-no_dot ip.c hc),
  split-last (print_octet ip.d) (print_octet-no_dot ip.d hd),
)

mapped-NotJunk : (ip : Ipv4) → Ipv4.IsAddress ip → NotJunk (codes "::ffff:" ++ print_ip ip)
unfolding is_private_or_local starts_with strip_prefix codes
mapped-NotJunk ip (ha, hb, hc, hd) = (
  rw (split-mapped ip (ha, hb, hc, hd))
      (rw (octets-mapped (print_octet ip.a) ip.b ip.c ip.d hb hc hd)),
  refl,
  refl,
  refl,
)

print_ipv6-NotJunk : (ip : Ipv6) → IsAddress ip → NotJunk (print_ipv6 ip)
unfolding print_ipv6 codes
print_ipv6-NotJunk ip (hg, hh) =
    let none_yet : Span = record { start = 0; len = 0 } in
    let zeros = longest_zeros 0 none_yet none_yet (segments ip) in
    let front = take zeros.start (segments ip) in
    let back = drop (zeros.start + zeros.len) (segments ip) in
    elim (Bool-cases (is_mapped ip)) [
      | inl e ↦ rw e (mapped-NotJunk (mapped ip) (omega arith))
      | inr e ↦ rw e (elim (Bool-cases (ltb 1 zeros.len)) [
        | inl f ↦ rw f (
            no_dot-NotJunk _ (
              All-append (λ c. (c == b'.') ≡ false) (print_segments front) _
                (print_segments-HasNoDot front) (refl, (refl, print_segments-HasNoDot back))))
        | inr f ↦ rw f (no_dot-NotJunk _ (print_segments-HasNoDot (segments ip)))
      ])
    ]

-- Between two printed IPv6 addresses a packet is junk only by its protocol and port: no address is
-- taken as private, local or multicast.
pub is_junk_packet-print_ipv6 :
    (src dst : Ipv6) (protocol : Text) (port : ℕ)
    → IsAddress src
    → IsAddress dst
    → is_junk_packet (print_ipv6 src) (print_ipv6 dst) protocol port ≡ (
        text_eq protocol (codes "UDP")
        && (port == 53 || port == 123 || port == 5353 || port == 1900))
unfolding is_junk_packet
is_junk_packet-print_ipv6 src dst protocol port hs hd =
    ground (arith, print_ipv6-NotJunk src hs, print_ipv6-NotJunk dst hd)
