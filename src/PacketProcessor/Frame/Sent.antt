-- ===== src/PacketProcessor/Frame/Sent.antt =====
-- Which frames go to the cloud, by their headers.
use netsentry_sensor.Common.{
  ℕ, ◌≡◌, Bool, false, not, ◌&&◌, ◌||◌, Option, none, some, List, [], ◌∷◌, ◌++◌, take, arith, ltb,
  ◌==◌, if◌then◌else◌, refl, is_empty, Bool-cases, inl, inr,
}
use netsentry_sensor.Common.Ipv4.{Ipv4, IsAddress, print_ip, print_octet}
use netsentry_sensor.Common.Text.{Text, codes, text_eq, join}
use netsentry_sensor.PacketProcessor.Cache.{BlockedIps, is_ip_blocked}
use netsentry_sensor.PacketProcessor.Capture.{StreamedPacket, packet_of, try_send, capture}
use netsentry_sensor.PacketProcessor.Frame.{
  NetHeaders, TransportHeader, PacketHeaders, extract_ips, extract_transport, headers_of,
}
use netsentry_sensor.PacketProcessor.Ipv6.{
  Ipv6, Span, segments, print_hex, print_segments, longest_zeros, is_mapped, print_ipv6,
}
use netsentry_sensor.PacketProcessor.Ipv6
use netsentry_sensor.PacketProcessor.Ipv6.Dots.{no_dot-NotJunk, is_junk_packet-print_ipv6}
use netsentry_sensor.PacketProcessor.Junk.{is_junk_packet}
use netsentry_sensor.PacketProcessor.Junk.Private.{in_private_block, is_junk_packet-print_ip}

-- a datagram to the port of a service that is only noise
abbrev pub is_noise : Option TransportHeader → Bool
is_noise (some (TransportHeader.udp _ port)) =
    port == 53 || port == 123 || port == 5353 || port == 1900
is_noise _ = false

-- the ends are local, or the destination is a group
abbrev pub is_local : Option NetHeaders → Bool
is_local (some (NetHeaders.ipv4 s d)) =
    (d.a == 224 || d.a == 239 || d.a == 255)
    || ((in_private_block s || s.d == 255) && (in_private_block d || d.d == 255))
is_local _ = false

-- The octets are octets, and the last segments fit.
abbrev pub IsParsed : Option NetHeaders → Type 0
IsParsed (some (NetHeaders.ipv4 s d)) = IsAddress s × IsAddress d
IsParsed (some (NetHeaders.ipv6 s d)) = Ipv6.IsAddress s × Ipv6.IsAddress d
IsParsed none = Unit

-- whether the cache has the source of a frame
abbrev pub source_blocked : (now : ℕ) → Option NetHeaders → BlockedIps → Bool
source_blocked now (some (NetHeaders.ipv4 s _)) blocked = is_ip_blocked now (print_ip s) blocked
source_blocked now (some (NetHeaders.ipv6 s _)) blocked = is_ip_blocked now (print_ipv6 s) blocked
source_blocked now none blocked = false

noise_eq :
    (t : Option TransportHeader)
    → (text_eq (extract_transport t).2 (codes "UDP")
        && ((extract_transport t).1 == 53
            || (extract_transport t).1 == 123
            || (extract_transport t).1 == 5353
            || (extract_transport t).1 == 1900))
      ≡ is_noise t
unfolding extract_transport text_eq codes
noise_eq none = refl
noise_eq (some (TransportHeader.tcp s d)) = refl
noise_eq (some (TransportHeader.udp s d)) = refl
noise_eq (some TransportHeader.icmpv4) = refl
noise_eq (some TransportHeader.icmpv6) = refl

is_empty-print_ip : (ip : Ipv4) → is_empty (print_ip ip) ≡ false
unfolding print_ip print_octet
is_empty-print_ip ip = ground arith

is_empty-append_cons : (s : Text) (c : ℕ) (t : Text) → is_empty (s ++ (c ∷ t)) ≡ false
is_empty-append_cons [] c t = refl
is_empty-append_cons (d ∷ s) c t = refl

is_empty-print_ipv6 : (ip : Ipv6) → is_empty (print_ipv6 ip) ≡ false
unfolding print_ipv6 print_segments join codes
is_empty-print_ipv6 ip =
    let none_yet : Span = record { start = 0; len = 0 } in
    let zeros = longest_zeros 0 none_yet none_yet (segments ip) in
    elim (Bool-cases (is_mapped ip)) [
      | inl e ↦ rw e refl
      | inr e ↦ rw e (elim (Bool-cases (ltb 1 zeros.len)) [
        | inl f ↦ rw f (is_empty-append_cons (print_segments (take zeros.start (segments ip))) _ _)
        | inr f ↦ rw f (is_empty-append_cons (print_hex ip.a) _ _)
      ])
    ]

is_junk-headers_of :
    (net : Option NetHeaders) (t : Option TransportHeader)
    → IsParsed net
    → is_junk_packet
        (extract_ips net).0
        (extract_ips net).1
        (extract_transport t).2
        (extract_transport t).1
      ≡ (is_local net || is_noise t)
unfolding extract_ips is_junk_packet
is_junk-headers_of (some (NetHeaders.ipv4 s d)) t (hs, hd) = ground (
  arith,
  noise_eq t,
  is_junk_packet-print_ip s d (extract_transport t).2 (extract_transport t).1 hs hd,
)
is_junk-headers_of (some (NetHeaders.ipv6 s d)) t (hs, hd) = ground (
  arith,
  noise_eq t,
  is_junk_packet-print_ipv6 s d (extract_transport t).2 (extract_transport t).1 hs hd,
)
is_junk-headers_of none t h = ground (arith, noise_eq t, no_dot-NotJunk [] tt)

is_blocked-headers_of :
    (now : ℕ) (net : Option NetHeaders) (blocked : BlockedIps)
    → (not (is_empty (extract_ips net).0) && is_ip_blocked now (extract_ips net).0 blocked)
      ≡ source_blocked now net blocked
unfolding extract_ips
is_blocked-headers_of now (some (NetHeaders.ipv4 s d)) blocked = ground (arith, is_empty-print_ip s)
is_blocked-headers_of now (some (NetHeaders.ipv6 s d)) blocked =
    ground (arith, is_empty-print_ipv6 s)
is_blocked-headers_of now none blocked = refl

-- A frame whose addresses are in range is skipped if the cache has its source as blocked, if it is
-- IPv4 and both ends are private or local or the destination is a group, or if it is a datagram to
-- one of the four ports. Every other frame, of IPv6 whatever its addresses, is put at the end of the
-- channel where that has room; where it is full, the frame is dropped and those in it stay.
pub capture-headers_of :
    (capacity : ℕ) (interface : Text) (now : ℕ) (id : Text) (timestamp size : ℕ) (h : PacketHeaders)
    (blocked : BlockedIps) (queue : List StreamedPacket)
    → IsParsed h.net
    → capture capacity interface now id timestamp size (some (headers_of h)) blocked queue ≡ (
        if source_blocked now h.net blocked || is_local h.net || is_noise h.transport
        then queue
        else try_send capacity (packet_of interface id timestamp size (headers_of h)) queue)
unfolding capture headers_of
capture-headers_of capacity interface now id timestamp size h blocked queue parsed =
    ground
      (arith, is_blocked-headers_of now h.net blocked, is_junk-headers_of h.net h.transport parsed)
