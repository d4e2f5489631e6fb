-- ===== src/PacketProcessor/Junk.antt =====
-- packet-processor/src/main.rs: which packets are not worth sending to the cloud.
pub mod Private
use netsentry_sensor.Common.{
  ℕ, ◌≡◌, Bool, true, false, ◌&&◌, ◌||◌, Option, none, some, List, [], ◌∷◌, leb, ◌==◌,
  if◌then◌else◌,
}
use mathlib.Core.List.{reverse}
use netsentry_sensor.Common.Text.{Text, codes, text_eq, split, starts_with, parse_uint}

-- `s.ends_with(p)`
unfoldable pub ends_with : Text → Text → Bool
unfolding starts_with
ends_with s p = starts_with (reverse s) (reverse p)

-- the parts that parse as numbers of type `u8`
unfoldable pub octets : List Text → List ℕ
unfolding parse_uint
octets [] = []
octets (p ∷ ps) =
    let rest = octets ps in elim (parse_uint 255 p) [ none ↦ rest | some n ↦ n ∷ rest ]

-- the `match` on the first two octets
abbrev pub match_octets : (a b : ℕ) → (otherwise : Bool) → Bool
match_octets a b otherwise =
    if a == 10
    then true
    else if a == 172 && leb 16 b && leb b 31
    then true
    else if a == 192 && b == 168
    then true
    else if a == 127
    then true
    else if a == 169 && b == 254
    then true
    else if a == 255
    then true
    else otherwise

abbrev pub four_octets : List ℕ → (otherwise : Bool) → Bool
four_octets (a ∷ b ∷ c ∷ d ∷ []) otherwise = match_octets a b otherwise
four_octets _ otherwise = false

unfoldable pub is_private_or_local : Text → Bool
unfolding split octets ends_with
is_private_or_local ip =
    four_octets (octets (split b'.' ip))
      (ends_with ip (codes ".255") || text_eq ip (codes "255.255.255.255"))

unfoldable pub is_junk_packet : (src_ip dst_ip protocol : Text) → (dst_port : ℕ) → Bool
unfolding starts_with is_private_or_local text_eq
is_junk_packet src_ip dst_ip protocol dst_port =
    if starts_with dst_ip (codes "224.")
      || starts_with dst_ip (codes "239.")
      || starts_with dst_ip (codes "255.")
    then true
    else if is_private_or_local src_ip && is_private_or_local dst_ip
    then true
    else if text_eq protocol (codes "UDP")
        && (dst_port == 53 || dst_port == 123 || dst_port == 5353 || dst_port == 1900)
    then true
    else false
