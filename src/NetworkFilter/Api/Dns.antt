-- ===== src/NetworkFilter/Api/Dns.antt =====
-- network-filter/src/services/mod.rs, `reverse_dns_blocking`, and `reverse_dns` of
-- controllers/mod.rs. `name_of` is `getnameinfo` where it succeeds and the name is text.
use netsentry_sensor.Common.{Bool, Option, none, some, List, [], ◌∷◌, if◌then◌else◌}
use netsentry_sensor.Common.Ipv4.{Ipv4, parse_ip}
use netsentry_sensor.Common.Text.{Text, text_eq}

unfoldable pub reverse_dns_blocking : (name_of : Ipv4 → Option Text) → (ip : Text) → List Text
reverse_dns_blocking name_of ip = elim (parse_ip ip) [
  | none ↦ []
  | some addr ↦ elim (name_of addr) [
    | none ↦ []
    | some name ↦ if text_eq name ip then [] else name ∷ []
  ]
]

-- The lookup runs as a task of its own. A panic of it ends the process in the release build, which
-- aborts on panics; then there is no answer.
unfoldable pub reverse_dns :
    (name_of : Ipv4 → Option Text) → (panics : Bool) → (ip : Text) → Option (List Text)
unfolding reverse_dns_blocking
reverse_dns name_of panics ip = if panics then none else some (reverse_dns_blocking name_of ip)
