-- ===== src/PacketProcessor/Junk/Private.antt =====
-- `is_private_or_local` on printed addresses, against the blocks of addresses it stands for.
use netsentry_sensor.Common.{
  ℕ, ◌/◌, ◌≤◌, ◌≡◌, refl, ap, sym, ◌∙◌, Bool, ◌&&◌, ◌||◌, some, List, [], ◌∷◌, ◌++◌, arith, ◌==◌,
  Bool-cases, inl, inr,
}
use mathlib.Core.Path.{subst}
use mathlib.Core.List.{reverse-append, append_assoc}
use netsentry_sensor.Common.Ipv4.{Ipv4, IsAddress, print_ip, print_octet, split-print_ip}
use netsentry_sensor.Common.Text.{
  Text, codes, text_eq, text_eq_iff, split, starts_with, strip_prefix, parse_uint, scan_digits,
}
use netsentry_sensor.PacketProcessor.Junk.{
  is_junk_packet, is_private_or_local, octets, ends_with, match_octets,
}

-- a printed octet parses as itself
pub parse_uint-print_octet : (n : ℕ) → n ≤ 255 → parse_uint 255 (print_octet n) ≡ some n
unfolding parse_uint scan_digits print_octet
parse_uint-print_octet n h = ground arith

pub octets-cons :
    (p : Text) (n : ℕ) (ps : List Text)
    → parse_uint 255 p ≡ some n
    → octets (p ∷ ps) ≡ n ∷ octets ps
unfolding octets
octets-cons p n ps h = ground (arith, h)

octets-print_ip :
    (ip : Ipv4) → IsAddress ip → octets (split b'.' (print_ip ip)) ≡ ip.a ∷ ip.b ∷ ip.c ∷ ip.d ∷ []
octets-print_ip ip (ha, hb, hc, hd) = rw (split-print_ip ip (ha, hb, hc, hd)) (
    rw
      (
        octets-cons (print_octet ip.a) ip.a _ (parse_uint-print_octet ip.a ha),
        octets-cons (print_octet ip.b) ip.b _ (parse_uint-print_octet ip.b hb),
        octets-cons (print_octet ip.c) ip.c _ (parse_uint-print_octet ip.c hc),
        octets-cons (print_octet ip.d) ip.d _ (parse_uint-print_octet ip.d hd),
      )
      (unfold octets in refl))

-- The blocks: 10/8, 172.16/12, 192.168/16, 127/8, 169.254/16, 255/8.
abbrev pub in_private_block : Ipv4 → Bool
in_private_block ip =
    ip.a == 10
    || (ip.a == 172 && ip.b / 16 == 1)
    || (ip.a == 192 && ip.b == 168)
    || ip.a == 127
    || (ip.a == 169 && ip.b == 254)
    || ip.a == 255

-- An address ends in `.255` exactly when its last octet is 255.
ends_with-dot_octet :
    (start : Text) (n : ℕ)
    → n ≤ 255
    → ends_with (start ++ (b'.' ∷ print_octet n)) (codes ".255") ≡ (n == 255)
unfolding ends_with starts_with strip_prefix codes print_octet
ends_with-dot_octet start n h = rw (reverse-append start (b'.' ∷ print_octet n)) (ground arith)

ends_with-print_ip :
    (ip : Ipv4) → IsAddress ip → ends_with (print_ip ip) (codes ".255") ≡ (ip.d == 255)
unfolding print_ip
ends_with-print_ip ip (ha, hb, hc, hd) =
    let start : Text = print_octet ip.a ++ (b'.' ∷ print_octet ip.b ++ (b'.' ∷ print_octet ip.c)) in
    let cut : print_ip ip ≡ start ++ (b'.' ∷ print_octet ip.d) = rw (append_assoc, append_assoc) in
    ap (λ s. ends_with s (codes ".255")) cut ∙ ends_with-dot_octet start ip.d hd

-- the broadcast address ends in `.255`
broadcast-ends_with :
    (s : Text)
    → (ends_with s (codes ".255") || text_eq s (codes "255.255.255.255"))
      ≡ ends_with s (codes ".255")
unfolding ends_with starts_with strip_prefix codes
broadcast-ends_with s = elim (Bool-cases (text_eq s (codes "255.255.255.255"))) [
  | inr e ↦ ground (arith, e)
  | inl e ↦
      let s_eq : s ≡ codes "255.255.255.255" = (text_eq_iff s (codes "255.255.255.255")).0 e in
      subst
        (λ t.
          (ends_with t (codes ".255") || text_eq t (codes "255.255.255.255"))
          ≡ ends_with t (codes ".255"))
        (sym s_eq) refl
]

-- A printed address is private or local exactly when it lies in one of the blocks or its last octet
-- is 255.
pub is_private_or_local-print_ip :
    (ip : Ipv4)
    → IsAddress ip
    → is_private_or_local (print_ip ip) ≡ (in_private_block ip || ip.d == 255)
unfolding is_private_or_local
is_private_or_local-print_ip ip h = rw (octets-print_ip ip h) (
    ap (match_octets ip.a ip.b) (broadcast-ends_with (print_ip ip) ∙ ends_with-print_ip ip h)
    ∙ ground arith)

starts_with-print_octet :
    (n : ℕ) (rest : Text)
    → n ≤ 255
    → (starts_with (print_octet n ++ (b'.' ∷ rest)) (codes "224.") ≡ (n == 224))
      × (starts_with (print_octet n ++ (b'.' ∷ rest)) (codes "239.") ≡ (n == 239))
      × (starts_with (print_octet n ++ (b'.' ∷ rest)) (codes "255.") ≡ (n == 255))
unfolding starts_with strip_prefix codes print_octet
starts_with-print_octet n rest h = (ground arith, ground arith, ground arith)

starts_with-print_ip :
    (ip : Ipv4)
    → IsAddress ip
    → (starts_with (print_ip ip) (codes "224.") ≡ (ip.a == 224))
      × (starts_with (print_ip ip) (codes "239.") ≡ (ip.a == 239))
      × (starts_with (print_ip ip) (codes "255.") ≡ (ip.a == 255))
unfolding print_ip
starts_with-print_ip ip h = starts_with-print_octet ip.a _ h.0

-- Between two printed addresses a packet is junk exactly when the destination is in 224/8, 239/8 or
-- 255/8, when both ends are private or local, or when it is a datagram to one of the four ports.
pub is_junk_packet-print_ip :
    (src dst : Ipv4) (protocol : Text) (port : ℕ)
    → IsAddress src
    → IsAddress dst
    → is_junk_packet (print_ip src) (print_ip dst) protocol port ≡ (
        (dst.a == 224 || dst.a == 239 || dst.a == 255)
        || ((in_private_block src || src.d == 255) && (in_private_block dst || dst.d == 255))
        || (text_eq protocol (codes "UDP")
            && (port == 53 || port == 123 || port == 5353 || port == 1900)))
unfolding is_junk_packet
is_junk_packet-print_ip src dst protocol port hs hd = ground (
  arith,
  is_private_or_local-print_ip src hs,
  is_private_or_local-print_ip dst hd,
  starts_with-print_ip dst hd,
)
