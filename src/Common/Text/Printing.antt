-- ===== src/Common/Text/Printing.antt =====
-- A printed number is read back.
use Prim.Native.Nat.{ℕ, zero, suc, ◌+◌, ◌-◌, ◌*◌, ◌/◌, ◌%◌, ◌^◌, ◌≤◌, ◌<◌}
use mathlib.Core.Path.{◌≡◌, refl, ◌∙◌}
use mathlib.Core.Logic.{◌≢◌, inl, inr}
use mathlib.Core.Bool.{true, ◌&&◌}
use mathlib.Core.List.{[], ◌∷◌, ◌++◌}
use mathlib.Core.Option.{Option, none, some}
use native.Mathlib.Omega.{arith}
use netsentry_sensor.Common.Lists.{All, All-append}
use netsentry_sensor.Common.Tests.{leb, if◌then◌else◌, Bool-cases}
use netsentry_sensor.Common.Text.Equality.{Text}
use netsentry_sensor.Common.Text.Numbers.{is_digit, scan_digits, parse_uint, digits, print_uint}

-- one digit more
abbrev then_digit : ℕ → ℕ → Option ℕ → Option ℕ
then_digit bound c none = none
then_digit bound c (some m) =
    if is_digit c && leb (m * 10 + (c - b'0')) bound then some (m * 10 + (c - b'0')) else none

scan_digits-append_one :
    (bound acc c : ℕ) (s : Text)
    → scan_digits bound acc (s ++ c ∷ []) ≡ then_digit bound c (scan_digits bound acc s)
unfolding scan_digits
scan_digits-append_one bound acc c [] = ground arith
scan_digits-append_one bound acc c (x ∷ s) =
    ground (arith, scan_digits-append_one bound (acc * 10 + (x - b'0')) c s)

abbrev pow10 : ℕ → ℕ
pow10 zero = 1
pow10 (suc n) = pow10 n * 10

scan_digits-digits :
    (bound fuel n : ℕ) → n < pow10 fuel → n ≤ bound → scan_digits bound 0 (digits fuel n) ≡ some n
unfolding digits scan_digits
scan_digits-digits bound zero n f h = ground (arith, f)
scan_digits-digits bound (suc fuel) n f h =
    let rest : scan_digits bound 0 (digits fuel (n / 10)) ≡ some (n / 10) =
      scan_digits-digits bound fuel (n / 10) (omega (arith, f)) (omega (arith, h)) in
    elim (Bool-cases (leb n 9)) [
      | inl small ↦ ground (arith, small, h)
      | inr large ↦ ground (
        arith,
        large,
        h,
        rest,
        scan_digits-append_one bound 0 (n % 10 + b'0') (digits fuel (n / 10)),
      )
    ]

abbrev IsDigit : ℕ → Type 0
IsDigit c = is_digit c ≡ true

digits-IsDigit : (fuel n : ℕ) → All IsDigit (digits fuel n)
unfolding digits
digits-IsDigit zero n = tt
digits-IsDigit (suc fuel) n =
    let more =
      All-append IsDigit (digits fuel (n / 10)) ((n % 10 + b'0') ∷ [])
        (digits-IsDigit fuel (n / 10)) (ground arith, tt) in
    elim (Bool-cases (leb n 9)) [
      | inl small ↦ rw small (ground (arith, small), tt)
      | inr large ↦ rw large more
    ]

pub print_uint-IsDigit : (n : ℕ) → All IsDigit (print_uint n)
unfolding print_uint
print_uint-IsDigit n = digits-IsDigit 20 n

parse_uint-scan_digits :
    (bound : ℕ) (s : Text) (n : ℕ)
    → All IsDigit s
    → s ≢ []
    → parse_uint bound s ≡ scan_digits bound 0 s
unfolding parse_uint
parse_uint-scan_digits bound [] n h full = absurd (full refl)
parse_uint-scan_digits bound (c ∷ s) n (d, h) full = ground (arith, d)

append_one-full : (s : Text) (c : ℕ) → s ++ c ∷ [] ≢ []
append_one-full [] c e = ground (arith, e)
append_one-full (x ∷ s) c e = ground (arith, e)

digits-full : (fuel n : ℕ) → digits (suc fuel) n ≢ []
unfolding digits
digits-full fuel n e = elim (Bool-cases (leb n 9)) [
  | inl small ↦ ground (arith, small, e)
  | inr large ↦ append_one-full (digits fuel (n / 10)) (n % 10 + b'0') (ground (arith, large, e))
]

print_uint-full : (n : ℕ) → print_uint n ≢ []
unfolding print_uint
print_uint-full n = digits-full 19 n

-- Printing a word and parsing it yields the word, for every type that it fits.
pub parse_uint-print_uint :
    (bound n : ℕ) → n ≤ bound → n < 2 ^ 64 → parse_uint bound (print_uint n) ≡ some n
unfolding print_uint
parse_uint-print_uint bound n h word =
    parse_uint-scan_digits bound (print_uint n) n (print_uint-IsDigit n) (print_uint-full n)
    ∙ scan_digits-digits bound 20 n (omega (arith, word)) h
