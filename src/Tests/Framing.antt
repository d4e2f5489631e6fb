-- ===== src/Tests/Framing.antt =====
-- Frames, messages and networks at concrete inputs.
use netsentry_sensor.Common.{
  Bool, ◌||◌, ℕ, ◌-◌, ◌/◌, ◌^◌, ◌≤◌, ◌≡◌, refl, false, ◌&&◌, ◌||◌, some, [], ◌∷◌, ◌++◌, All,
  All-append, arith, ◌==◌, if◌then◌else◌, ◌>>=◌,
}
use netsentry_sensor.Common.Ipv4.{Ipv4, IsAddress, parse_ip, print_ip, print_octet, parse-print_ip}
use netsentry_sensor.Common.Outcome.{ok}
use netsentry_sensor.Common.Text.{Text, codes, join, parse_uint, print_uint, parse_uint-print_uint}
use netsentry_sensor.PacketProcessor.Capture.{capture, packet_of, try_send}
use netsentry_sensor.PacketProcessor.Frame.{
  PacketHeaders, NetHeaders, TransportHeader, PayloadSlice, headers_of,
}
use netsentry_sensor.PacketProcessor.Frame.Sent.{
  is_local, is_noise, source_blocked, capture-headers_of,
}
use netsentry_sensor.PacketProcessor.Ipv6.{
  Ipv6, print_ipv6, print_segments, print_hex, longest_zeros,
}
use netsentry_sensor.Shared.Protocols.{message_fields}
use netsentry_sensor.Shared.Protocols.Keys.{repeated, is_alert, message_fields-repeated}
use netsentry_sensor.PacketProcessor.Junk.{is_private_or_local}
use netsentry_sensor.Shared.Utils.Networks.{
  Networks, IsNetworks, bits, is_private_ip, is_private_ip-is_private_or_local,
}
use netsentry_sensor.Tests.Joining.{serializer, evil_alert}

-- fe80::1 and ff02::fb
abbrev link_local : Ipv6
link_local = record { a = 65152; b = 0; c = 0; d = 0; e = 0; f = 0; g = 0; h = 1 }

abbrev group : Ipv6
group = record { a = 65282; b = 0; c = 0; d = 0; e = 0; f = 0; g = 0; h = 251 }

link_local_printed : print_ipv6 link_local ≡ codes "fe80::1"
unfolding print_ipv6 print_segments print_hex longest_zeros codes join
link_local_printed = refl

abbrev frame : PacketHeaders
frame = record {
  net = some (NetHeaders.ipv6 link_local group);
  transport = some (TransportHeader.tcp 40000 443);
  payload = PayloadSlice.tcp (1 ∷ 255 ∷ []);
}

capture-headers_of_example :
    capture 10 (codes "eth0") 7 (codes "1") 8 60 (some (headers_of frame)) [] [] ≡ (
      if source_blocked 7 frame.net [] || is_local frame.net || is_noise frame.transport
      then []
      else try_send 10 (packet_of (codes "eth0") (codes "1") 8 60 (headers_of frame)) [])
capture-headers_of_example =
    capture-headers_of 10 (codes "eth0") 7 (codes "1") 8 60 frame [] [] (omega arith)

message_fields-repeated_example :
    repeated (message_fields serializer evil_alert)
    ≡ (if is_alert evil_alert.payload then codes "timestamp" ∷ [] else [])
message_fields-repeated_example = message_fields-repeated serializer evil_alert

-- what stands before the first slash, and after it
abbrev before : Text → Text
before [] = []
before (c ∷ s) = let rest = before s in if c == b'/' then [] else c ∷ rest

abbrev after : Text → Text
after [] = []
after (c ∷ s) = let rest = after s in if c == b'/' then s else rest

abbrev nets : Networks Ipv4 (Ipv4 × ℕ)
nets = record {
  parse_address = parse_ip;
  parse_network = λ s. do
    base ← parse_ip (before s)
    prefix ← parse_uint 255 (after s)
    some (base, prefix);
  has_member = λ w ip. bits ip / 2 ^ (32 - w.1) == bits w.0 / 2 ^ (32 - w.1);
}

abbrev HasNoSlash : Text → Type 0
HasNoSlash s = All (λ c. (c == b'/') ≡ false) s

split-slash :
    (s t : Text) → HasNoSlash s → (before (s ++ (b'/' ∷ t)) ≡ s) × (after (s ++ (b'/' ∷ t)) ≡ t)
split-slash [] t h = (refl, refl)
split-slash (c ∷ s) t (slash, h) =
    let found = split-slash s t h in (ground (arith, slash, found), ground (arith, slash, found))

print_octet-HasNoSlash : (n : ℕ) → n ≤ 255 → HasNoSlash (print_octet n)
unfolding print_octet
print_octet-HasNoSlash n h = ground arith

print_ip-HasNoSlash : (ip : Ipv4) → IsAddress ip → HasNoSlash (print_ip ip)
unfolding print_ip
print_ip-HasNoSlash ip (ha, hb, hc, hd) =
    let both = All-append (λ c. (c == b'/') ≡ false) in
    both (print_octet ip.a) _ (print_octet-HasNoSlash ip.a ha) (
      refl,
      both (print_octet ip.b) _ (print_octet-HasNoSlash ip.b hb) (
        refl,
        both (print_octet ip.c) _ (print_octet-HasNoSlash ip.c hc)
            (refl, print_octet-HasNoSlash ip.d hd),
      ),
    )

nets-IsNetworks : IsNetworks nets (λ ip. ip)
nets-IsNetworks = record {
  reads_address = parse-print_ip;
  reads_network = λ base prefix h small.
      let parts = split-slash (print_ip base) (print_uint prefix) (print_ip-HasNoSlash base h) in
      (
        (base, prefix),
        ground (arith, parts, parse-print_ip base h, parse_uint-print_uint 255 prefix),
        λ ip hi. refl,
      );
}

abbrev link : Ipv4
link = record { a = 169; b = 254; c = 1; d = 1 }

is_private_ip-is_private_or_local_example :
    (private : Bool) × (is_private_ip nets (print_ip link) ≡ ok private)
    × (is_private_or_local (print_ip link)
        ≡ (private || (link.a == 169 && link.b == 254) || link.a == 255 || link.d == 255))
is_private_ip-is_private_or_local_example =
    is_private_ip-is_private_or_local nets (λ ip. ip) nets-IsNetworks link (omega arith)
