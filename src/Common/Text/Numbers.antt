-- ===== src/Common/Text/Numbers.antt =====
-- Parsing of unsigned numbers.
use Prim.Native.Nat.{ℕ, zero, suc, ◌+◌, ◌-◌, ◌*◌, ◌/◌, ◌%◌, ◌≤◌}
use mathlib.Core.Path.{◌≡◌}
use mathlib.Core.Bool.{Bool, ◌&&◌}
use mathlib.Core.List.{[], ◌∷◌, ◌++◌}
use mathlib.Core.Option.{Option, none, some}
use native.Mathlib.Omega.{arith}
use netsentry_sensor.Common.Tests.{leb, ◌==◌, if◌then◌else◌}
use netsentry_sensor.Common.Text.Equality.{Text}

abbrev pub is_digit : ℕ → Bool
is_digit c = leb b'0' c && leb c b'9'

-- The digits after `acc`; a value above `bound` is an overflow.
unfoldable pub scan_digits : ℕ → ℕ → Text → Option ℕ
scan_digits bound acc [] = some acc
scan_digits bound acc (c ∷ s) =
    let more = scan_digits bound (acc * 10 + (c - b'0')) s in
    if is_digit c && leb (acc * 10 + (c - b'0')) bound then more else none

abbrev scan_nonempty : ℕ → Text → Option ℕ
scan_nonempty bound [] = none
scan_nonempty bound (c ∷ s) = scan_digits bound 0 (c ∷ s)

-- `s.parse()` into the unsigned type with the largest value `bound`
unfoldable pub parse_uint : ℕ → Text → Option ℕ
unfolding scan_digits
parse_uint bound [] = none
parse_uint bound (c ∷ s) = if c == b'+' then scan_nonempty bound s else scan_nonempty bound (c ∷ s)

-- The decimal digits of a number below ten to the `fuel`.
unfoldable pub digits : (fuel : ℕ) → ℕ → Text
digits zero n = []
digits (suc fuel) n =
    let before = digits fuel (n / 10) in
    if leb n 9 then (n + b'0') ∷ [] else before ++ ((n % 10 + b'0') ∷ [])

-- `n.to_string()` for a word of at most 64 bits, which has at most twenty digits
unfoldable pub print_uint : ℕ → Text
unfolding digits
print_uint n = digits 20 n

scan_digits-le :
    (bound acc : ℕ) (s : Text) (n : ℕ) → acc ≤ bound → scan_digits bound acc s ≡ some n → n ≤ bound
unfolding scan_digits
scan_digits-le bound acc [] n h e = ground arith
scan_digits-le bound acc (c ∷ s) n h e =
    ground (arith, scan_digits-le bound (acc * 10 + (c - b'0')) s n)

-- a parsed number fits its type
pub parse_uint-le : (bound : ℕ) (s : Text) (n : ℕ) → parse_uint bound s ≡ some n → n ≤ bound
unfolding parse_uint
parse_uint-le bound [] n e = ground arith
parse_uint-le bound (c ∷ []) n e = ground (arith, scan_digits-le bound 0 (c ∷ []) n)
parse_uint-le bound (c ∷ d ∷ s) n e =
    ground (arith, scan_digits-le bound 0 (d ∷ s) n, scan_digits-le bound 0 (c ∷ d ∷ s) n)
