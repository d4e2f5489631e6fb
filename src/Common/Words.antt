-- ===== src/Common/Words.antt =====
-- Machine words: the wrap-around of unsigned additions in a release build, and casts.
use Prim.Native.Nat.{ℕ, ◌+◌, ◌-◌, ◌/◌, ◌%◌, ◌^◌}
use netsentry_sensor.Common.Tests.{leb, if◌then◌else◌}

abbrev pub u8_mod : ℕ
u8_mod = 2 ^ 8

abbrev pub u16_mod : ℕ
u16_mod = 2 ^ 16

abbrev pub u32_mod : ℕ
u32_mod = 2 ^ 32

abbrev pub u64_mod : ℕ
u64_mod = 2 ^ 64

-- a + b of type `u64` or `usize`
abbrev pub add64 : ℕ → ℕ → ℕ
add64 a b = (a + b) % u64_mod

abbrev pub u64_max : ℕ
u64_max = u64_mod - 1

-- Times are numbers of nanoseconds.
abbrev pub nanos_per_sec : ℕ
nanos_per_sec = 1000000000

-- `(now - start).num_seconds() as u64`: the difference is signed and cut towards zero, and the cast
-- of a negative number wraps around.
abbrev pub seconds_between : ℕ → ℕ → ℕ
seconds_between now start =
    if leb start now
    then (now - start) / nanos_per_sec % u64_mod
    else (u64_mod - (start - now) / nanos_per_sec % u64_mod) % u64_mod
