-- ===== src/Shared/Config/Durations.antt =====
-- src/shared/config/src/lib.rs, `parser`: levels and durations. `lower` is `str::to_lowercase`.
use netsentry_sensor.Common.{
  ℕ, ◌*◌, ◌%◌, ◌<◌, ◌≤◌, ◌≡◌, true, false, Option, none, some, [], ◌∷◌, ◌++◌, All-append, All-map,
  arith, ◌==◌, if◌then◌else◌, refl, ap, ◌∙◌, u64_mod, u64_max,
}
use mathlib.Core.Option
use netsentry_sensor.Common.Outcome.{Result, ok, err}
use netsentry_sensor.Common.Text.{
  Text, codes, text_eq, trim, trim-solid, is_digit, is_whitespace, parse_uint, print_uint,
  print_uint-IsDigit, parse_uint-print_uint,
}

pub data LevelFilter : Type 0 where
  error : LevelFilter
  warn : LevelFilter
  info : LevelFilter
  debug : LevelFilter
  trace : LevelFilter

unfoldable pub parse_log_level : (lower : Text → Text) → Text → Result LevelFilter Text
parse_log_level lower level =
    let s = lower level in
    if text_eq s (codes "error")
    then ok LevelFilter.error
    else if text_eq s (codes "warn")
    then ok LevelFilter.warn
    else if text_eq s (codes "info")
    then ok LevelFilter.info
    else if text_eq s (codes "debug")
    then ok LevelFilter.debug
    else if text_eq s (codes "trace")
    then ok LevelFilter.trace
    else err (codes "Invalid log level: " ++ level)

-- `s.strip_suffix(c)` for a character
unfoldable pub strip_suffix : Text → ℕ → Option Text
strip_suffix [] c = none
strip_suffix (x ∷ []) c = if x == c then some [] else none
strip_suffix (x ∷ y ∷ s) c = Option.map (λ t. x ∷ t) (strip_suffix (y ∷ s) c)

-- a parsed `u64` times the seconds of its unit, which wraps around in a release build
abbrev pub scaled : (unit : ℕ) (message : Text) → Text → Result ℕ Text
scaled unit message s = elim (parse_uint u64_max s) [
  | none ↦ err message
  | some n ↦ ok (n * unit % u64_mod)
]

abbrev pub seconds : (message : Text) → Text → Result ℕ Text
seconds message s = elim (parse_uint u64_max s) [ none ↦ err message | some n ↦ ok n ]

unfoldable pub parse_duration_seconds : (lower : Text → Text) → Text → Result ℕ Text
unfolding strip_suffix
parse_duration_seconds lower duration =
    let s = lower (trim duration) in
    elim (strip_suffix s b'h') [
      | some n ↦ scaled 3600 (codes "Invalid hour format") n
      | none ↦ elim (strip_suffix s b'm') [
        | some n ↦ scaled 60 (codes "Invalid minute format") n
        | none ↦ elim (strip_suffix s b's') [
          | some n ↦ seconds (codes "Invalid second format") n
          | none ↦ seconds (codes "Invalid duration format") s
        ]
      ]
    ]

strip_suffix-append : (s : Text) (c : ℕ) → strip_suffix (s ++ c ∷ []) c ≡ some s
unfolding strip_suffix
strip_suffix-append [] c = ground arith
strip_suffix-append (x ∷ []) c = ground (arith, strip_suffix-append [] c)
strip_suffix-append (x ∷ y ∷ s) c = ground (arith, strip_suffix-append (y ∷ s) c)

strip_suffix-other : (s : Text) (c d : ℕ) → (c == d) ≡ false → strip_suffix (s ++ c ∷ []) d ≡ none
unfolding strip_suffix
strip_suffix-other [] c d h = ground (arith, h)
strip_suffix-other (x ∷ []) c d h = ground (arith, h, strip_suffix-other [] c d h)
strip_suffix-other (x ∷ y ∷ s) c d h = ground (arith, strip_suffix-other (y ∷ s) c d h)

IsDigit-solid : (c : ℕ) → is_digit c ≡ true → is_whitespace c ≡ false
unfolding is_whitespace
IsDigit-solid c d = ground (arith, d)

-- a printed number with its unit has no space
with_unit-solid :
    (n c : ℕ) → is_whitespace c ≡ false → trim (print_uint n ++ c ∷ []) ≡ print_uint n ++ c ∷ []
with_unit-solid n c h = trim-solid (print_uint n ++ c ∷ []) (
    All-append (λ x. is_whitespace x ≡ false) (print_uint n) (c ∷ [])
      (All-map IsDigit-solid (print_uint n) (print_uint-IsDigit n)) (h, tt))

-- Where `lower` leaves digits and a small letter as they are, a printed number with the letter of a
-- unit is read as that many units, in seconds modulo 2^64.
pub parse_duration_seconds-print_uint :
    (lower : Text → Text) (n : ℕ)
    → n < u64_mod
    → ((c : ℕ) → b'a' ≤ c → c ≤ b'z' → lower (print_uint n ++ c ∷ []) ≡ print_uint n ++ c ∷ [])
    → (parse_duration_seconds lower (print_uint n ++ b'h' ∷ []) ≡ ok (n * 3600 % u64_mod))
      × (parse_duration_seconds lower (print_uint n ++ b'm' ∷ []) ≡ ok (n * 60 % u64_mod))
      × (parse_duration_seconds lower (print_uint n ++ b's' ∷ []) ≡ ok n)
unfolding parse_duration_seconds
parse_duration_seconds-print_uint lower n word low =
    let read : parse_uint u64_max (print_uint n) ≡ some n =
      parse_uint-print_uint u64_max n (omega (arith, word)) word in
    let at_unit : (c : ℕ)
        → is_whitespace c ≡ false
        → b'a' ≤ c
        → c ≤ b'z'
        → lower (trim (print_uint n ++ c ∷ [])) ≡ print_uint n ++ c ∷ [] =
      λ c solid from to. ap lower (with_unit-solid n c solid) ∙ low c from to in
    let s = print_uint n in
    (
      ground (
        arith,
        at_unit b'h' (unfold is_whitespace in refl) (omega arith) (omega arith),
        strip_suffix-append s b'h',
        read,
      ),
      ground (
        arith,
        at_unit b'm' (unfold is_whitespace in refl) (omega arith) (omega arith),
        strip_suffix-other s b'm' b'h' refl,
        strip_suffix-append s b'm',
        read,
      ),
      ground (
        arith,
        at_unit b's' (unfold is_whitespace in refl) (omega arith) (omega arith),
        strip_suffix-other s b's' b'h' refl,
        strip_suffix-other s b's' b'm' refl,
        strip_suffix-append s b's',
        read,
      ),
    )
