-- ===== src/Prelude/Int.antt =====
-- Signed integers over the native numbers: Go's `time.Duration` and `int64`, with the wrap-around
-- and the saturation that the source's arithmetic has.
use Prim.Native.Nat.{ℕ, suc, ◌+◌, ◌-◌, ◌*◌, ◌%◌, ◌^◌, ◌≤◌}
use mathlib.Core.Bool.{Bool}
use hetdns.Prelude.Tests.{ltb, leb, if◌then◌else◌}

-- `negsuc n` is -(n + 1).
pub data ℤ : Type 0 where
  pos : ℕ → ℤ
  negsuc : ℕ → ℤ

abbrev pub pos_part : ℤ → ℕ
pos_part (pos n) = n
pos_part (negsuc n) = 0

abbrev pub neg_part : ℤ → ℕ
neg_part (pos n) = 0
neg_part (negsuc n) = suc n

-- a - b, as an integer.
abbrev pub sub_ℕ : ℕ → ℕ → ℤ
sub_ℕ a b = if leb b a then pos (a - b) else negsuc (b - a - 1)

infixl 65 ◌+ℤ◌ ◌-ℤ◌
infix 50 ◌≤ℤ◌
unfoldable pub ◌+ℤ◌ : ℤ → ℤ → ℤ
a +ℤ b = sub_ℕ (pos_part a + pos_part b) (neg_part a + neg_part b)

unfoldable pub ◌-ℤ◌ : ℤ → ℤ → ℤ
a -ℤ b = sub_ℕ (pos_part a + neg_part b) (neg_part a + pos_part b)

abbrev pub ◌≤ℤ◌ : ℤ → ℤ → Type 0
a ≤ℤ b = pos_part a + neg_part b ≤ pos_part b + neg_part a

abbrev pub ltb_ℤ : ℤ → ℤ → Bool
ltb_ℤ a b = ltb (pos_part a + neg_part b) (pos_part b + neg_part a)

abbrev pub leb_ℤ : ℤ → ℤ → Bool
leb_ℤ a b = leb (pos_part a + neg_part b) (pos_part b + neg_part a)

-- The value of an int64 whose bit pattern is `n` modulo 2^64.
unfoldable pub int64_of : ℕ → ℤ
int64_of n = let m = n % 2 ^ 64 in if ltb m (2 ^ 63) then pos m else negsuc (2 ^ 64 - 1 - m)

-- An int64 sum, by its bit pattern.
abbrev pub wrap_int64 : ℤ → ℤ
wrap_int64 (pos n) = int64_of n
wrap_int64 (negsuc n) = int64_of (2 ^ 64 - 1 - n % 2 ^ 64)

unfoldable pub add_int64 : ℤ → ℤ → ℤ
add_int64 a b = wrap_int64 (a +ℤ b)

-- Durations are nanoseconds.
abbrev pub millisecond : ℕ
millisecond = 1000000

abbrev pub second : ℕ
second = 1000000000

abbrev pub minute : ℕ
minute = 60 * second

abbrev pub hour : ℕ
hour = 60 * minute

-- A time is the nanoseconds since Go's zero time, so that `IsZero` is a test for 0.
-- `t.Add(d)`; the program adds no duration that leads before the zero time.
unfoldable pub add_time : ℕ → ℤ → ℕ
add_time t d = t + pos_part d - neg_part d

-- `t.Sub(u)` saturates at the ends of int64.
unfoldable pub sub_time : ℕ → ℕ → ℤ
sub_time t u =
    if leb u t
    then (if leb (t - u) (2 ^ 63 - 1) then pos (t - u) else pos (2 ^ 63 - 1))
    else (if leb (u - t) (2 ^ 63) then negsuc (u - t - 1) else negsuc (2 ^ 63 - 1))
