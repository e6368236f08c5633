-- ===== src/Words.antt =====
-- The 64-bit operations of Go's math/bits and of its operators that storage/encode.go uses.
pub mod Bits
pub mod Zeros
pub mod Shift
use Prim.Native.Nat.{bit_xor}
use marchimetrics.Base.{ℕ, zero, suc, ◌+◌, ◌-◌, ◌*◌, ◌/◌, ◌%◌, ◌^◌, ◌==◌, ltb, if◌then◌else◌}

-- The number of digits of `x`, for `x` below 2 ^ fuel.
bit_length : ℕ → ℕ → ℕ
bit_length zero x = 0
bit_length (suc fuel) x = let more = bit_length fuel (x / 2) in if x == 0 then 0 else suc more

-- bits.LeadingZeros64 is 64 less the number of digits.
pub leading_zeros64 : ℕ → ℕ
unfolding bit_length
leading_zeros64 x = 64 - bit_length 64 x

-- How often 2 divides `x`, up to `fuel` times.
twos : ℕ → ℕ → ℕ
twos zero x = 0
twos (suc fuel) x = let more = twos fuel (x / 2) in if x % 2 == 0 then suc more else 0

-- bits.TrailingZeros64, which is 64 at 0.
pub trailing_zeros64 : ℕ → ℕ
unfolding twos
trailing_zeros64 x = twos 64 x

-- `a ^ b`
abbrev pub xor64 : ℕ → ℕ → ℕ
xor64 a b = bit_xor a b

-- `x >> k` and `x << k` for a shift count that is not negative.
abbrev pub shr : ℕ → ℕ → ℕ
shr x k = x / 2 ^ k

abbrev pub shl : ℕ → ℕ → ℕ
shl x k = x * 2 ^ k % 2 ^ 64
