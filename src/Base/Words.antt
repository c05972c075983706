-- ===== src/Base/Words.antt =====
-- Go's `int64` by its 64 bits: the numbers from 2^63 on stand for the negative ones.
use Prim.Native.Nat.{ℕ, ◌+◌, ◌-◌, ◌*◌, ◌/◌, ◌%◌, ◌^◌}
use mathlib.Core.Bool.{Bool, not}
use submariner.Base.Tests.{ltb, if◌then◌else◌}

abbrev pub is_negative : ℕ → Bool
is_negative a = not (ltb a (2 ^ 63))

abbrev pub add_int64 : ℕ → ℕ → ℕ
add_int64 a b = (a + b) % 2 ^ 64

abbrev pub sub_int64 : ℕ → ℕ → ℕ
sub_int64 a b = (a + (2 ^ 64 - b)) % 2 ^ 64

abbrev pub mul_int64 : ℕ → ℕ → ℕ
mul_int64 a b = a * b % 2 ^ 64

-- By a positive number, towards zero.
abbrev pub div_int64 : ℕ → ℕ → ℕ
div_int64 a n = if is_negative a then (2 ^ 64 - (2 ^ 64 - a) / n) % 2 ^ 64 else a / n

-- In the order of the signed numbers.
abbrev pub less_int64 : ℕ → ℕ → Bool
less_int64 a b = ltb ((a + 2 ^ 63) % 2 ^ 64) ((b + 2 ^ 63) % 2 ^ 64)
