-- ===== src/Values/RoundTrip.antt =====
-- decodeValues of storage/encode.go on what encodeValues wrote.
use marchimetrics.Base.{
  ℕ, suc, ◌-◌, ◌≡◌, refl, sym, ap, ◌∙◌, arith, List, [], ◌∷◌, ◌++◌, ok, append-nil, append_assoc,
  length, All, length-append, take-append_left, drop-append_left, le→ltb,
}
use marchimetrics.Varint.{IsU64, append_uvarint}
use marchimetrics.Varint.RoundTrip.{uvarint-append_uvarint}
use marchimetrics.Fixed64.{put_u64, length-put_u64, le_value-put_u64}
use marchimetrics.Words.{xor64}
use marchimetrics.Words.Bits.{bit_xor_cancel, bit_xor-lt}
use marchimetrics.BitStream.{BitWriter, empty, bytes, BitReader}
use marchimetrics.BitStream.Stream.{all_bits}
use marchimetrics.BitStream.Writing.{
  IsOpen, empty-IsOpen, stream, padding, empty-stream, all_bits-bytes,
}
use marchimetrics.BitStream.Reading.{view}
use marchimetrics.Values.{
  Window, encode_step, encode_xors, encode_values, decode_xors, decode_counted, decode_values,
}
use marchimetrics.Values.Steps.{step_bits, next_window, encode_step-stream}
use marchimetrics.Values.Decoding.{at_window, decode_step_lem}

-- The bits of the values behind the first.
code : Window → ℕ → List ℕ → List ℕ
code win prev [] = []
code win prev (v ∷ vs) = step_bits win (xor64 v prev) ++ code (next_window win (xor64 v prev)) v vs

encode_xors-stream :
    (vs : List ℕ) (w : BitWriter) (win : Window) (prev : ℕ)
    → IsOpen w
    → IsOpen (encode_xors w win prev vs)
      × (stream (encode_xors w win prev vs) ≡ stream w ++ code win prev vs)
unfolding encode_xors code
encode_xors-stream [] w win prev o = (o, sym (append-nil (stream w)))
encode_xors-stream (v ∷ vs) w win prev o =
    let x = xor64 v prev in
    let (o1, e1, n1) = encode_step-stream w win x o in
    let (o2, e2) = encode_xors-stream vs (encode_step w win x).0 (encode_step w win x).1 v o1 in
    (
      o2,
      e2 ∙ rw (e1, n1) (append_assoc (stream w) (step_bits win x) (code (next_window win x) v vs)),
    )

decode_xors-code :
    (vs : List ℕ) (r : BitReader) (win : Window) (prev : ℕ) (rest out : List ℕ)
    → IsU64 prev
    → All IsU64 vs
    → view r ≡ code win prev vs ++ rest
    → decode_xors (length vs) (at_window r prev win) out ≡ ok (out ++ vs)
unfolding decode_xors code
decode_xors-code [] r win prev rest out hp h e = rw append-nil
decode_xors-code (v ∷ vs) r win prev rest out hp (hv, h) e =
    let x = xor64 v prev in
    let (r', d, left) =
      decode_step_lem win x prev r (code (next_window win x) v vs ++ rest)
        (bit_xor-lt 64 v prev hv hp)
        (e ∙ append_assoc (step_bits win x) (code (next_window win x) v vs) rest) in
    rw (d, bit_xor_cancel prev v)
      (decode_xors-code vs r' (next_window win x) v rest (out ++ (v ∷ [])) hv h left
        ∙ ap ok (append_assoc out (v ∷ []) vs))

-- Behind the count stand the eight bytes of the first value.
decode_counted-suc :
    (n v0 : ℕ) (tail : List ℕ)
    → IsU64 v0
    → decode_counted (suc n) (put_u64 v0 ++ tail)
      ≡ decode_xors n
          (at_window (record { b = tail; pos = 0 }) v0 (record { lz = 0; tz = 0 }))
          (v0 ∷ [])
unfolding decode_counted
decode_counted-suc n v0 tail h =
    let e : suc n - 1 ≡ n = omega arith in
    rw
      (
        le→ltb (length (put_u64 v0 ++ tail)) 8
            (omega (arith, length-append (put_u64 v0) tail, length-put_u64 v0)),
        take-append_left 8 (put_u64 v0) tail (sym (length-put_u64 v0)),
        drop-append_left 8 (put_u64 v0) tail (sym (length-put_u64 v0)),
        le_value-put_u64 v0 h,
        e,
      )
      (ground arith)

-- Decoding what `encode_values` wrote gives the bit patterns back, for any float64s whose number is
-- a uint64.
pub decode-encode_values :
    (vs : List ℕ) → IsU64 (length vs) → All IsU64 vs → decode_values (encode_values vs) ≡ ok vs
unfolding decode_values encode_values
decode-encode_values [] hl h =
    rw (← append-nil (append_uvarint [] 0), uvarint-append_uvarint 0 [] (omega arith))
      (unfold decode_counted in refl)
decode-encode_values (v0 ∷ vs) hl (h0, h) =
    let start : Window = record { lz = 0; tz = 0 } in
    let w = encode_xors empty start v0 vs in
    let (o, e) = encode_xors-stream vs empty start v0 empty-IsOpen in
    let whole : all_bits (bytes w) ≡ code start v0 vs ++ padding w =
      all_bits-bytes w o
      ∙ ap (λ r. r ++ padding w) (e ∙ ap (λ r. r ++ code start v0 vs) empty-stream) in
    rw (uvarint-append_uvarint (length (v0 ∷ vs)) _ hl) (
      decode_counted-suc (length vs) v0 (bytes w) h0
      ∙ decode_xors-code vs (record { b = bytes w; pos = 0 }) start v0 (padding w) (v0 ∷ []) h0 h
          whole)
