-- ===== src/Values.antt =====
-- encodeValues and decodeValues of storage/encode.go. A float64 is its bit pattern, which
-- math.Float64bits and math.Float64frombits carry over unchanged.
pub mod Cover
pub mod Steps
pub mod Decoding
pub mod RoundTrip
pub mod Corrupt
use marchimetrics.Base.{
  ℕ, zero, suc, ◌+◌, ◌-◌, Bool, List, [], ◌∷◌, ◌++◌, Result, ok, err, unexpected_eof, panicked,
  ◌>>=◌, ltb, leb, ◌==◌, ◌&&◌, not, if◌then◌else◌, length, take, drop,
}
use marchimetrics.Base.Int.{ℤ, pos, negsuc, pos_part, sub_ℕ, ◌-ℤ◌}
use marchimetrics.Varint.{append_uvarint, uvarint}
use marchimetrics.Fixed64.{put_u64, le_value}
use marchimetrics.Words.{leading_zeros64, trailing_zeros64, xor64, shr, shl}
use marchimetrics.BitStream.{
  BitWriter, empty, write_bit, write_bits, bytes, BitReader, read_bit, read_bits,
}

-- prevLz and prevTz of the encoder.
pub record Window : Type 0 where
  pub lz : ℕ
  pub tz : ℕ

-- The zeros of a difference that is not 0, the leading ones at most 31 for the 5-bit field.
pub window_of : ℕ → Window
window_of x =
    let lz = leading_zeros64 x in
    record { lz = (if ltb 31 lz then 31 else lz); tz = trailing_zeros64 x }

-- prevLz != 0 && lz >= prevLz && tz >= prevTz
pub fits_window : Window → Window → Bool
fits_window prev win = not (prev.lz == 0) && leb prev.lz win.lz && leb prev.tz win.tz

-- The significant bits; lz + tz is below 64 for a difference that is not 0.
abbrev pub width : Window → ℕ
width win = 64 - win.lz - win.tz

-- sigLen in 6 bits, where 0 means 64.
abbrev pub length_code : ℕ → ℕ
length_code sig_len = if sig_len == 64 then 0 else sig_len

-- One round of the encoder's loop: the new writer and window.
pub encode_step : BitWriter → Window → ℕ → BitWriter × Window
unfolding window_of fits_window
encode_step w prev x =
    let win = window_of x in
    if x == 0
    then (write_bit w 0, prev)
    else if fits_window prev win
    then (write_bits (write_bit (write_bit w 1) 0) (shr x prev.tz) (width prev), prev)
    else (
      write_bits
          (write_bits (write_bits (write_bit (write_bit w 1) 1) win.lz 5) (length_code (width win))
            6)
          (shr x win.tz) (width win),
      win,
    )

pub encode_xors : BitWriter → Window → ℕ → List ℕ → BitWriter
unfolding encode_step
encode_xors w win prev [] = w
encode_xors w win prev (cur ∷ vs) =
    let (w', win') = encode_step w win (xor64 cur prev) in encode_xors w' win' cur vs

pub encode_values : List ℕ → List ℕ
unfolding encode_xors
encode_values [] = append_uvarint [] 0
encode_values (v0 ∷ vs) =
    append_uvarint [] (length (v0 ∷ vs))
    ++ (put_u64 v0 ++ bytes (encode_xors empty (record { lz = 0; tz = 0 }) v0 vs))

-- The decoder's variables. `tz` is an int: a corrupt block can make it negative.
pub record Decoder : Type 0 where
  pub reader : BitReader
  pub prev : ℕ
  pub lz : ℕ
  pub tz : ℤ

-- `sig << tz` panics on a negative count.
pub shift_by : ℕ → ℤ → Result ℕ
shift_by sig (pos k) = ok (shl sig k)
shift_by sig (negsuc k) = err panicked

-- '11': five bits of leading zeros and six of length.
pub read_window : Decoder → Result Decoder
unfolding ◌-ℤ◌
read_window d = do
  (l, r) ← read_bits 5 d.reader
  (s, r') ← read_bits 6 r
  let sig_len = if s == 0 then 64 else s
  ok (record { reader = r'; prev = d.prev; lz = l; tz = pos 64 -ℤ pos l -ℤ pos sig_len })

-- The significant bits of the window; a loop of a negative number of rounds makes none.
pub read_significant : Decoder → Result Decoder
unfolding ◌-ℤ◌ shift_by
read_significant d = do
  (sig, r) ← read_bits (pos_part (pos 64 -ℤ pos d.lz -ℤ d.tz)) d.reader
  x ← shift_by sig d.tz
  ok (record { reader = r; prev = xor64 d.prev x; lz = d.lz; tz = d.tz })

-- The round behind a first bit of 1.
pub decode_changed : Decoder → Result Decoder
unfolding read_window read_significant
decode_changed d = do
  (bit, r) ← read_bit d.reader
  let d' : Decoder = record d { reader = r }
  d'' ← if bit == 1 then read_window d' else ok d'
  read_significant d''

-- One round of the decoder's loop; `prev` is the value that it appends.
pub decode_step : Decoder → Result Decoder
unfolding decode_changed
decode_step d = do
  (bit, r) ← read_bit d.reader
  let d' : Decoder = record d { reader = r }
  if bit == 0 then ok d' else decode_changed d'

pub decode_xors : ℕ → Decoder → List ℕ → Result (List ℕ)
unfolding decode_step
decode_xors zero d out = ok out
decode_xors (suc rounds) d out = do
  d' ← decode_step d
  decode_xors rounds d' (out ++ (d'.prev ∷ []))

-- After the count.
pub decode_counted : ℕ → List ℕ → Result (List ℕ)
unfolding decode_xors
decode_counted count b =
    if count == 0
    then ok []
    else if ltb (length b) 8
    then err unexpected_eof
    else (let prev = le_value (take 8 b) in
        decode_xors (count - 1)
          (record { reader = record { b = drop 8 b; pos = 0 }; prev = prev; lz = 0; tz = pos 0 })
          (prev ∷ []))

pub decode_values : List ℕ → Result (List ℕ)
unfolding decode_counted
decode_values block = do (count, b) ← uvarint block; decode_counted count b
