-- ===== src/Common/Ipv4.antt =====
-- `std::net::Ipv4Addr`: its parser, and the way it is printed.
use netsentry_sensor.Common.{
  ℕ, ◌+◌, ◌-◌, ◌*◌, ◌/◌, ◌%◌, ◌≤◌, ◌≡◌, refl, true, false, ◌&&◌, Option, none, some, List, [], ◌∷◌,
  ◌++◌, All, All-append, All-map, arith, ltb, leb, ◌==◌, if◌then◌else◌, ◌>>=◌,
}
use netsentry_sensor.Common.Text.{Text, is_digit, split, is_whitespace}

pub record Ipv4 : Type 0 where
  pub a : ℕ
  pub b : ℕ
  pub c : ℕ
  pub d : ℕ

-- an octet printed
unfoldable pub print_octet : ℕ → Text
print_octet n =
    if ltb n 10
    then (n + b'0') ∷ []
    else if ltb n 100
    then (n / 10 + b'0') ∷ (n % 10 + b'0') ∷ []
    else (n / 100 + b'0') ∷ (n / 10 % 10 + b'0') ∷ (n % 10 + b'0') ∷ []

-- one to three digits, none leading but in `0` itself, and at most 255
unfoldable pub parse_octet : Text → Option ℕ
parse_octet (x ∷ []) = if is_digit x then some (x - b'0') else none
parse_octet (x ∷ y ∷ []) =
    if is_digit x && is_digit y && ltb b'0' x then some ((x - b'0') * 10 + (y - b'0')) else none
parse_octet (x ∷ y ∷ z ∷ []) =
    let n = (x - b'0') * 100 + (y - b'0') * 10 + (z - b'0') in
    if is_digit x && is_digit y && is_digit z && ltb b'0' x && leb n 255 then some n else none
parse_octet _ = none

unfoldable pub print_ip : Ipv4 → Text
unfolding print_octet
print_ip ip =
    print_octet ip.a
    ++ (b'.' ∷ print_octet ip.b ++ (b'.' ∷ print_octet ip.c ++ (b'.' ∷ print_octet ip.d)))

unfoldable pub parse_parts : List Text → Option Ipv4
unfolding parse_octet
parse_parts (p ∷ q ∷ r ∷ s ∷ []) = do
  a ← parse_octet p
  b ← parse_octet q
  c ← parse_octet r
  d ← parse_octet s
  some (record { a = a; b = b; c = c; d = d })
parse_parts _ = none

unfoldable pub parse_ip : Text → Option Ipv4
unfolding parse_parts split
parse_ip s = parse_parts (split b'.' s)

pub parse-print_octet : (n : ℕ) → n ≤ 255 → parse_octet (print_octet n) ≡ some n
unfolding parse_octet print_octet
parse-print_octet n h = ground arith

pub parse_octet-le : (s : Text) (n : ℕ) → parse_octet s ≡ some n → n ≤ 255
unfolding parse_octet
parse_octet-le [] n e = ground arith
parse_octet-le (x ∷ []) n e = ground arith
parse_octet-le (x ∷ y ∷ []) n e = ground arith
parse_octet-le (x ∷ y ∷ z ∷ []) n e = ground arith
parse_octet-le (x ∷ y ∷ z ∷ w ∷ s) n e = ground arith

-- every octet is one
abbrev pub IsAddress : Ipv4 → Type 0
IsAddress ip = (ip.a ≤ 255) × (ip.b ≤ 255) × (ip.c ≤ 255) × (ip.d ≤ 255)

pub split-append :
    (s rest : Text)
    → All (λ c. (c == b'.') ≡ false) s
    → split b'.' (s ++ (b'.' ∷ rest)) ≡ s ∷ split b'.' rest
unfolding split
split-append [] rest h = refl
split-append (c ∷ s) rest (p, h) = ground (arith, split-append s rest h)

pub split-last : (s : Text) → All (λ c. (c == b'.') ≡ false) s → split b'.' s ≡ s ∷ []
unfolding split
split-last [] h = refl
split-last (c ∷ s) (p, h) = ground (arith, split-last s h)

-- What is printed of an octet: digits.
print_octet-digits : (n : ℕ) → n ≤ 255 → All (λ c. is_digit c ≡ true) (print_octet n)
unfolding print_octet
print_octet-digits n h = ground arith

pub print_octet-no_dot : (n : ℕ) → n ≤ 255 → All (λ c. (c == b'.') ≡ false) (print_octet n)
unfolding print_octet
print_octet-no_dot n h = ground arith

pub split-print_ip :
    (ip : Ipv4)
    → IsAddress ip
    → split b'.' (print_ip ip)
      ≡ print_octet ip.a ∷ print_octet ip.b ∷ print_octet ip.c ∷ print_octet ip.d ∷ []
unfolding print_ip
split-print_ip ip (ha, hb, hc, hd) = rw (
  split-append (print_octet ip.a) _ (print_octet-no_dot ip.a ha),
  split-append (print_octet ip.b) _ (print_octet-no_dot ip.b hb),
  split-append (print_octet ip.c) _ (print_octet-no_dot ip.c hc),
  split-last (print_octet ip.d) (print_octet-no_dot ip.d hd),
)

-- what is printed is parsed
pub parse-print_ip : (ip : Ipv4) → IsAddress ip → parse_ip (print_ip ip) ≡ some ip
unfolding parse_ip parse_parts
parse-print_ip ip (ha, hb, hc, hd) = rw (split-print_ip ip (ha, hb, hc, hd)) (
    rw (
      parse-print_octet ip.a ha,
      parse-print_octet ip.b hb,
      parse-print_octet ip.c hc,
      parse-print_octet ip.d hd,
    ))

-- a parsed address has octets
parse_parts-IsAddress : (ps : List Text) (ip : Ipv4) → parse_parts ps ≡ some ip → IsAddress ip
unfolding parse_parts
parse_parts-IsAddress (p ∷ q ∷ r ∷ s ∷ []) ip e =
    ground (arith, parse_octet-le p, parse_octet-le q, parse_octet-le r, parse_octet-le s)
parse_parts-IsAddress [] ip e = ground arith
parse_parts-IsAddress (p ∷ []) ip e = ground arith
parse_parts-IsAddress (p ∷ q ∷ []) ip e = ground arith
parse_parts-IsAddress (p ∷ q ∷ r ∷ []) ip e = ground arith
parse_parts-IsAddress (p ∷ q ∷ r ∷ s ∷ t ∷ ps) ip e = ground arith

pub parse_ip-IsAddress : (s : Text) (ip : Ipv4) → parse_ip s ≡ some ip → IsAddress ip
unfolding parse_ip
parse_ip-IsAddress s ip e = parse_parts-IsAddress (split b'.' s) ip e

digit-solid : (c : ℕ) → is_digit c ≡ true → is_whitespace c ≡ false
unfolding is_whitespace
digit-solid c h = ground arith

octet-solid : (n : ℕ) → n ≤ 255 → All (λ c. is_whitespace c ≡ false) (print_octet n)
octet-solid n h = All-map digit-solid (print_octet n) (print_octet-digits n h)

-- a printed address has no white space
pub print_ip-solid : (ip : Ipv4) → IsAddress ip → All (λ c. is_whitespace c ≡ false) (print_ip ip)
unfolding print_ip
print_ip-solid ip (ha, hb, hc, hd) =
    let dot : is_whitespace b'.' ≡ false = unfold is_whitespace in refl in
    let P = λ (c : ℕ). is_whitespace c ≡ false in
    All-append P (print_octet ip.a) _ (octet-solid ip.a ha) (
      dot,
      All-append P (print_octet ip.b) _ (octet-solid ip.b hb)
          (dot, All-append P (print_octet ip.c) _ (octet-solid ip.c hc) (dot, octet-solid ip.d hd)),
    )
