-- ===== src/Varint.antt =====
-- The varints of Go's encoding/binary, as storage/encode.go and storage/indexdb.go call them, and
-- the byteReader of storage/indexdb.go with its methods. A byte slice is a list of numbers below
-- 256. A uint64 is a number below 2 ^ 64, and an int64 is its two's complement pattern.
pub mod RoundTrip
pub mod Stable
pub mod Shrinks
use marchimetrics.Base.{
  ℕ, zero, suc, ◌+◌, ◌-◌, ◌*◌, ◌/◌, ◌%◌, ◌^◌, ◌≤◌, ◌<◌, List, [], ◌∷◌, ◌++◌, Result, ok, err,
  unexpected_eof, varint_overflow, ◌>>=◌, ltb, ◌==◌, ◌&&◌, if◌then◌else◌, length, take, drop,
}

abbrev pub IsByte : ℕ → Type 0
IsByte b = b < 256

abbrev pub IsU64 : ℕ → Type 0
IsU64 v = v < 2 ^ 64

-- A byteReader is the bytes that it has left: a method returns its value and the new slice.
abbrev pub Reader {ℓ} : Type ℓ → Type ℓ
Reader A = List ℕ → Result (A × List ℕ)

-- AppendUvarint: seven bits a byte, the lowest group first, the top bit set on all but the last.
-- `byte(x) | 0x80` is `x % 128 + 128`.
unfoldable pub uvarint_groups : ℕ → ℕ → List ℕ
uvarint_groups zero x = x % 256 ∷ []
uvarint_groups (suc fuel) x =
    let rest = uvarint_groups fuel (x / 128) in
    if ltb x 128 then x % 256 ∷ [] else (x % 128 + 128) ∷ rest

-- A uint64 has at most ten groups of seven bits, so nine rounds reach the last one.
unfoldable pub append_uvarint : List ℕ → ℕ → List ℕ
append_uvarint buf x = buf ++ uvarint_groups 9 x

-- PutVarint: `ux := uint64(x) << 1; if x < 0 { ux = ^ux }`.
pub zigzag : ℕ → ℕ
zigzag x = let ux = x * 2 % 2 ^ 64 in if ltb x (2 ^ 63) then ux else 2 ^ 64 - 1 - ux

-- Varint: `x := int64(ux >> 1); if ux&1 != 0 { x = ^x }`.
pub unzigzag : ℕ → ℕ
unzigzag ux = let x = ux / 2 in if ux % 2 == 0 then x else 2 ^ 64 - 1 - x

pub append_varint : List ℕ → ℕ → List ℕ
unfolding append_uvarint zigzag
append_varint buf x = append_uvarint buf (zigzag x)

-- The loop of binary.Uvarint. `s` is 7 * i and `x` is below 2 ^ s, so `|` is a sum. A result of 0
-- bytes is `unexpected_eof` and a negative one `varint_overflow`, as byteReader reports them.
uvarint_loop : List ℕ → ℕ → ℕ → ℕ → Result (ℕ × List ℕ)
uvarint_loop [] i x s = err unexpected_eof
uvarint_loop (b ∷ rest) i x s =
    let more = uvarint_loop rest (i + 1) ((x + b % 128 * 2 ^ s % 2 ^ 64) % 2 ^ 64) (s + 7) in
    if i == 10
    then err varint_overflow
    else if ltb b 128
    then (if (i == 9) && ltb 1 b
        then err varint_overflow
        else ok ((x + b * 2 ^ s % 2 ^ 64) % 2 ^ 64, rest))
    else more

-- byteReader.uvarint
pub uvarint : Reader ℕ
unfolding uvarint_loop
uvarint b = uvarint_loop b 0 0 0

-- byteReader.varint
pub varint : Reader ℕ
unfolding uvarint unzigzag
varint b = do (ux, rest) ← uvarint b; ok (unzigzag ux, rest)

-- byteReader.str
pub str : Reader (List ℕ)
unfolding uvarint
str b = do
  (l, rest) ← uvarint b
  if ltb (length rest) l then err unexpected_eof else ok (take l rest, drop l rest)
