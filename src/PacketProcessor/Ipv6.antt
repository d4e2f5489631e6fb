-- ===== src/PacketProcessor/Ipv6.antt =====
-- `std::net::Ipv6Addr` as it is printed, which packet-processor/src/main.rs, `extract_ips`, does.
pub mod Dots
use netsentry_sensor.Common.{
  ℕ, ◌+◌, ◌/◌, ◌%◌, ◌<◌, Bool, ◌&&◌, List, [], ◌∷◌, ◌++◌, map, take, drop, ltb, ◌==◌, if◌then◌else◌,
  u16_mod,
}
use netsentry_sensor.Common.Ipv4.{Ipv4, print_ip}
use netsentry_sensor.Common.Text.{Text, codes, join}
use netsentry_sensor.PacketProcessor.Capture.{hex_digit}

-- the eight segments
pub record Ipv6 : Type 0 where
  pub a : ℕ
  pub b : ℕ
  pub c : ℕ
  pub d : ℕ
  pub e : ℕ
  pub f : ℕ
  pub g : ℕ
  pub h : ℕ

abbrev pub segments : Ipv6 → List ℕ
segments ip = ip.a ∷ ip.b ∷ ip.c ∷ ip.d ∷ ip.e ∷ ip.f ∷ ip.g ∷ ip.h ∷ []

-- The segments fit 16 bits; it is the last two that are printed in decimal.
abbrev pub IsAddress : Ipv6 → Type 0
IsAddress ip = (ip.g < u16_mod) × (ip.h < u16_mod)

-- `{:x}` of a `u16`
unfoldable pub print_hex : ℕ → Text
print_hex n =
    if ltb n 16
    then hex_digit n ∷ []
    else if ltb n 256
    then hex_digit (n / 16) ∷ hex_digit (n % 16) ∷ []
    else if ltb n 4096
    then hex_digit (n / 256) ∷ hex_digit (n / 16 % 16) ∷ hex_digit (n % 16) ∷ []
    else hex_digit (n / 4096 % 16)
      ∷ hex_digit (n / 256 % 16)
      ∷ hex_digit (n / 16 % 16)
      ∷ hex_digit (n % 16)
      ∷ []

pub record Span : Type 0 where
  pub start : ℕ
  pub len : ℕ

-- The first of the longest runs of zeros among the segments from the `i`-th on, after those seen.
unfoldable pub longest_zeros : (i : ℕ) (current longest : Span) → List ℕ → Span
longest_zeros i current longest [] = longest
longest_zeros i current longest (n ∷ ns) =
    let grown : Span = record {
      start = if current.len == 0 then i else current.start;
      len = current.len + 1;
    } in
    let ended = longest_zeros (i + 1) (record { start = 0; len = 0 }) longest ns in
    let best : Span = if ltb longest.len grown.len then grown else longest in
    let more = longest_zeros (i + 1) grown best ns in if n == 0 then more else ended

unfoldable pub print_segments : List ℕ → Text
unfolding print_hex
print_segments ns = join (b':' ∷ []) (map print_hex ns)

-- `to_ipv4_mapped`
abbrev pub is_mapped : Ipv6 → Bool
is_mapped ip = ip.a == 0 && ip.b == 0 && ip.c == 0 && ip.d == 0 && ip.e == 0 && ip.f == 65535

abbrev pub mapped : Ipv6 → Ipv4
mapped ip = record { a = ip.g / 256; b = ip.g % 256; c = ip.h / 256; d = ip.h % 256 }

unfoldable pub print_ipv6 : Ipv6 → Text
unfolding print_segments longest_zeros print_ip
print_ipv6 ip =
    let none_yet : Span = record { start = 0; len = 0 } in
    let zeros = longest_zeros 0 none_yet none_yet (segments ip) in
    if is_mapped ip
    then codes "::ffff:" ++ print_ip (mapped ip)
    else if ltb 1 zeros.len
    then print_segments (take zeros.start (segments ip))
      ++ (codes "::" ++ print_segments (drop (zeros.start + zeros.len) (segments ip)))
    else print_segments (segments ip)
