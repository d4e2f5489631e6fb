-- ===== src/Shared/Utils/Networks.antt =====
-- src/shared/utils/src/lib.rs, `network_utils`. The parsers of addresses and networks are those of
-- `std::net::IpAddr` and of the crate `ipnetwork`.
use netsentry_sensor.Common.{
  ℕ, ◌+◌, ◌-◌, ◌*◌, ◌/◌, ◌^◌, ◌≤◌, ◌≡◌, Bool, true, false, not, ◌&&◌, ◌||◌, ◌∙◌, Option, none, some,
  List, [], ◌∷◌, ◌++◌, arith, is_some, ◌==◌, if◌then◌else◌, refl,
}
use netsentry_sensor.Common.Ipv4.{Ipv4, IsAddress, print_ip, print_octet}
use netsentry_sensor.Common.Outcome.{Result, ok, err}
use netsentry_sensor.Common.Text.{Text, codes, print_uint}
use netsentry_sensor.PacketProcessor.Junk.{is_private_or_local}
use netsentry_sensor.PacketProcessor.Junk.Private.{in_private_block, is_private_or_local-print_ip}

-- `I` is `IpAddr` and `W` is `IpNetwork`
pub record Networks (I W : Type 0) : Type 0 where
  pub parse_address : Text → Option I
  pub parse_network : Text → Option W
  pub has_member : W → I → Bool

module _ {I W : Type 0} (nets : Networks I W) where
  unfoldable pub is_in_cidr : (ip cidr : Text) → Result Bool Text
  is_in_cidr ip cidr = elim (nets.parse_address ip) [
    | none ↦ err (codes "Invalid IP address: " ++ ip)
    | some ip_addr ↦ elim (nets.parse_network cidr) [
      | none ↦ err (codes "Invalid CIDR notation: " ++ cidr)
      | some network ↦ ok (nets.has_member network ip_addr)
    ]
  ]

  unfoldable pub in_some_range : (ip : Text) → List Text → Result Bool Text
  unfolding is_in_cidr
  in_some_range ip [] = ok false
  in_some_range ip (range ∷ ranges) =
      let rest = in_some_range ip ranges in
      elim (is_in_cidr ip range) [ err e ↦ err e | ok here ↦ if here then ok true else rest ]

  unfoldable pub is_private_ip : (ip : Text) → Result Bool Text
  unfolding in_some_range
  is_private_ip ip = in_some_range ip (
      codes "10.0.0.0/8"
      ∷ codes "172.16.0.0/12"
      ∷ codes "192.168.0.0/16"
      ∷ codes "127.0.0.0/8"
      ∷ [])

  unfoldable pub is_valid_ip : (ip : Text) → Bool
  is_valid_ip ip = is_some (nets.parse_address ip)

-- the 32 bits of an address
abbrev pub bits : Ipv4 → ℕ
bits ip = ip.a * 2 ^ 24 + ip.b * 2 ^ 16 + ip.c * 2 ^ 8 + ip.d

-- The documented behaviour of the parsers on IPv4: an address reads as itself, and a network has the
-- addresses that agree with it on the bits of its prefix.
pub record IsNetworks {I W : Type 0} (nets : Networks I W) (v4 : Ipv4 → I) : Type 0 where
  pub reads_address :
      (ip : Ipv4) → IsAddress ip → nets.parse_address (print_ip ip) ≡ Option.some (v4 ip)
  pub reads_network :
      (base : Ipv4) (prefix : ℕ)
      → IsAddress base
      → prefix ≤ 32
      → (w : W) × (nets.parse_network (print_ip base ++ (b'/' ∷ print_uint prefix)) ≡ Option.some w)
        × ((ip : Ipv4)
            → IsAddress ip
            → nets.has_member w (v4 ip)
              ≡ (bits ip / 2 ^ (32 - prefix) == bits base / 2 ^ (32 - prefix)))

module _ {I W : Type 0} (nets : Networks I W) (v4 : Ipv4 → I) (h : IsNetworks nets v4) where
  is_in_cidr-print_ip :
      (ip base : Ipv4) (prefix : ℕ)
      → IsAddress ip
      → IsAddress base
      → prefix ≤ 32
      → is_in_cidr nets (print_ip ip) (print_ip base ++ (b'/' ∷ print_uint prefix))
        ≡ ok (bits ip / 2 ^ (32 - prefix) == bits base / 2 ^ (32 - prefix))
  unfolding is_in_cidr
  is_in_cidr-print_ip ip base prefix hi hb small =
      let (w, read, member) = h.reads_network base prefix hb small in
      ground (arith, h.reads_address ip hi, read, member ip hi)

bits_prefix :
    (ip : Ipv4)
    → IsAddress ip
    → (bits ip / 2 ^ 24 ≡ ip.a)
      × (bits ip / 2 ^ 20 ≡ ip.a * 16 + ip.b / 16)
      × (bits ip / 2 ^ 16 ≡ ip.a * 256 + ip.b)
bits_prefix ip h = omega arith

abbrev address : (a b : ℕ) → Ipv4
address a b = record { a = a; b = b; c = 0; d = 0 }

ranges_printed :
    (print_ip (address 10 0) ++ (b'/' ∷ print_uint 8) ≡ codes "10.0.0.0/8")
    × (print_ip (address 172 16) ++ (b'/' ∷ print_uint 12) ≡ codes "172.16.0.0/12")
    × (print_ip (address 192 168) ++ (b'/' ∷ print_uint 16) ≡ codes "192.168.0.0/16")
    × (print_ip (address 127 0) ++ (b'/' ∷ print_uint 8) ≡ codes "127.0.0.0/8")
unfolding print_ip print_octet print_uint codes
ranges_printed = (refl, refl, refl, refl)

module _ {I W : Type 0} (nets : Networks I W) (v4 : Ipv4 → I) (h : IsNetworks nets v4) where
  -- whether an address is in the range that a base and a prefix make
  range_lem :
      (ip base : Ipv4) (prefix : ℕ) (range : Text)
      → IsAddress ip
      → IsAddress base
      → prefix ≤ 32
      → print_ip base ++ (b'/' ∷ print_uint prefix) ≡ range
      → is_in_cidr nets (print_ip ip) range
        ≡ ok (bits ip / 2 ^ (32 - prefix) == bits base / 2 ^ (32 - prefix))
  range_lem ip base prefix range hi hb small e =
      rw (← e) (is_in_cidr-print_ip nets v4 h ip base prefix hi hb small)

  is_private_ip-print_ip :
      (ip : Ipv4)
      → IsAddress ip
      → is_private_ip nets (print_ip ip)
        ≡ ok (in_private_block ip && not (ip.a == 169 && ip.b == 254) && not (ip.a == 255))
  unfolding is_private_ip
  is_private_ip-print_ip ip hi =
      let (r1, r2, r3, r4) = ranges_printed in
      ground (
        arith,
        bits_prefix ip hi,
        range_lem ip (address 10 0) 8 (codes "10.0.0.0/8") hi (omega arith) (omega arith) r1,
        range_lem ip (address 172 16) 12 (codes "172.16.0.0/12") hi (omega arith) (omega arith) r2,
        range_lem ip (address 192 168) 16 (codes "192.168.0.0/16") hi (omega arith) (omega arith)
            r3,
        range_lem ip (address 127 0) 8 (codes "127.0.0.0/8") hi (omega arith) (omega arith) r4,
      )

  -- Where the parsers of addresses and networks behave as documented on IPv4, a printed address whose
  -- octets are in range is judged the same by the shared utility and by the packet processor, but
  -- that the packet processor also takes 169.254/16, 255/8 and every address that ends in 255 as
  -- private or local.
  pub is_private_ip-is_private_or_local :
      (ip : Ipv4)
      → IsAddress ip
      → (private : Bool) × (is_private_ip nets (print_ip ip) ≡ ok private)
        × (is_private_or_local (print_ip ip)
            ≡ (private || (ip.a == 169 && ip.b == 254) || ip.a == 255 || ip.d == 255))
  is_private_ip-is_private_or_local ip hi = (
    in_private_block ip && not (ip.a == 169 && ip.b == 254) && not (ip.a == 255),
    is_private_ip-print_ip ip hi,
    is_private_or_local-print_ip ip hi ∙ ground arith,
  )
