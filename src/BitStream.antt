-- ===== src/BitStream.antt =====
-- bitWriter and bitReader of storage/encode.go: bits, the highest of each byte first.
pub mod Stream
pub mod Writing
pub mod Reading
pub mod RoundTrip
use Prim.Native.Nat.{bit_or}
use marchimetrics.Base.{
  ℕ, zero, suc, ◌+◌, ◌-◌, ◌*◌, ◌/◌, ◌%◌, ◌^◌, List, [], ◌∷◌, ◌++◌, Option, none, some, Result, ok,
  err, unexpected_eof, ◌>>=◌, ltb, ◌==◌, if◌then◌else◌, get_elem?,
}
use marchimetrics.Words.{shr}

pub record BitWriter : Type 0 where
  pub buf : List ℕ
  pub cur : ℕ
  pub n : ℕ

abbrev pub empty : BitWriter
empty = record { buf = []; cur = 0; n = 0 }

-- The tail of writeBit, once the bit is in `cur`.
abbrev full_byte : BitWriter → BitWriter
full_byte w = if w.n == 8 then record { buf = w.buf ++ (w.cur ∷ []); cur = 0; n = 0 } else w

-- `(b & 1) << (7 - n)` fits a byte, since n is at most 7.
pub write_bit : BitWriter → ℕ → BitWriter
write_bit w b = full_byte (record w { cur = bit_or w.cur (b % 2 * 2 ^ (7 - w.n)); n = w.n + 1 })

-- The loop from i = n - 1 down to 0; `byte(v >> i)` is a number below 256.
pub write_bits : BitWriter → ℕ → ℕ → BitWriter
unfolding write_bit
write_bits w v zero = w
write_bits w v (suc i) = write_bits (write_bit w (shr v i % 256)) v i

pub bytes : BitWriter → List ℕ
bytes w = if w.n == 0 then w.buf else w.buf ++ (w.cur ∷ [])

pub record BitReader : Type 0 where
  pub b : List ℕ
  pub pos : ℕ

-- An index at or past the end is what `pos/8 >= len(b)` tests for.
pub read_bit : BitReader → Result (ℕ × BitReader)
read_bit r = elim (get_elem? r.b (r.pos / 8)) [
  | none ↦ err unexpected_eof
  | some byte ↦ ok (shr byte (7 - r.pos % 8) % 2, record r { pos = r.pos + 1 })
]

-- The rounds that are left, with the value so far; `v << 1` ends in a 0, so `|` is a sum.
read_bits_loop : ℕ → ℕ → BitReader → Result (ℕ × BitReader)
unfolding read_bit
read_bits_loop zero v r = ok (v, r)
read_bits_loop (suc n) v r = do (bit, r') ← read_bit r; read_bits_loop n (v * 2 % 2 ^ 64 + bit) r'

pub read_bits : ℕ → BitReader → Result (ℕ × BitReader)
unfolding read_bits_loop
read_bits n r = read_bits_loop n 0 r
