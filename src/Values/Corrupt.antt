-- ===== src/Values/Corrupt.antt =====
-- decodeValues of storage/encode.go on a block that encodeValues never writes.
use marchimetrics.Base.{
  ℕ, ◌+◌, ◌-◌, ◌^◌, ◌<◌, ◌≡◌, arith, List, ◌∷◌, ◌++◌, err, panicked, if◌then◌else◌, ◌==◌,
}
use marchimetrics.Base.Int.{pos, negsuc, ◌-ℤ◌, pos_part}
use marchimetrics.BitStream.{BitReader}
use marchimetrics.BitStream.Stream.{low_bits}
use marchimetrics.BitStream.Reading.{view, read_bit-view, read_bits-view}
use marchimetrics.Values.{Decoder, shift_by, decode_changed, decode_step}

abbrev skip : BitReader → ℕ → BitReader
skip r n = record r { pos = r.pos + n }

negative_tz : (l s : ℕ) → 64 < l + s → l < 32 → pos 64 -ℤ pos l -ℤ pos s ≡ negsuc (l + s - 65)
unfolding ◌-ℤ◌
negative_tz l s h hl = ground arith

rounds_kept :
    (l s : ℕ) → 64 < l + s → l < 32 → pos_part (pos 64 -ℤ pos l -ℤ negsuc (l + s - 65)) ≡ s
unfolding ◌-ℤ◌
rounds_kept l s h hl = ground arith

-- A block whose next bits are a new window with leading zeros and a length that pass 64 together
-- makes the trailing zeros negative, and the shift by them panics: no error is returned.
pub decode_step_panics :
    (d : Decoder) (l s x : ℕ) (rest : List ℕ)
    → l < 32
    → s < 64
    → 64 < l + s
    → x < 2 ^ s
    → view d.reader ≡ 1 ∷ 1 ∷ (low_bits 5 l ++ (low_bits 6 s ++ (low_bits s x ++ rest)))
    → decode_step d ≡ err panicked
unfolding decode_step decode_changed shift_by
decode_step_panics d l s x rest hl hs wide hx h =
    let len : (if s == 0 then 64 else s) ≡ s = ground arith in
    let (e1, v1) = read_bit-view d.reader 1 _ h in
    let (e2, v2) = read_bit-view (skip d.reader 1) 1 _ v1 in
    let (e3, v3) = read_bits-view 5 l (skip (skip d.reader 1) 1) _ (omega arith) (omega arith) v2 in
    let (e4, v4) =
      read_bits-view 6 s (skip (skip (skip d.reader 1) 1) 5) _ (omega arith) (omega arith) v3 in
    let (e5, v5) =
      read_bits-view s x (skip (skip (skip (skip d.reader 1) 1) 5) 6) rest (omega arith) hx v4 in
    rw (e1, e2, e3, e4, len, negative_tz l s wide hl, rounds_kept l s wide hl, e5)
