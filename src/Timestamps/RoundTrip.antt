-- ===== src/Timestamps/RoundTrip.antt =====
-- decodeTimestamps of storage/encode.go on what encodeTimestamps wrote.
use marchimetrics.Base.{
  ℕ, suc, ◌-◌, ◌≡◌, refl, sym, ap, ◌∙◌, arith, List, [], ◌∷◌, ◌++◌, ok, if◌then◌else◌, ◌==◌,
  append-nil, append_assoc, length, All, length-append, take-append_left, drop-append_left, le→ltb,
}
use marchimetrics.Varint.{IsU64, append_uvarint, append_varint}
use marchimetrics.Varint.RoundTrip.{uvarint-append_uvarint, varint-append_varint, append_varint_lem}
use marchimetrics.Fixed64.{
  put_u64, sub64, add64-sub64, sub64-IsU64, length-put_u64, le_value-put_u64,
}
use marchimetrics.Timestamps.{
  encode_dods, encode_timestamps, decode_dods, decode_deltas, decode_counted, decode_timestamps,
}

-- The deltas of deltas without the buffer.
dods : List ℕ → ℕ → ℕ → List ℕ
dods [] prev pd = []
dods (t ∷ ts) prev pd = append_varint [] (sub64 (sub64 t prev) pd) ++ dods ts t (sub64 t prev)

encode_dods-dods :
    (out ts : List ℕ) (prev pd : ℕ) → encode_dods out ts prev pd ≡ out ++ dods ts prev pd
unfolding encode_dods dods
encode_dods-dods out [] prev pd = sym (append-nil out)
encode_dods-dods out (t ∷ ts) prev pd = rw (append_varint_lem out (sub64 (sub64 t prev) pd)) (
    encode_dods-dods (out ++ append_varint [] (sub64 (sub64 t prev) pd)) ts t (sub64 t prev)
    ∙ append_assoc out (append_varint [] (sub64 (sub64 t prev) pd)) (dods ts t (sub64 t prev)))

decode_dods-dods :
    (ts rest out : List ℕ) (prev pd : ℕ)
    → IsU64 prev
    → IsU64 pd
    → All IsU64 ts
    → decode_dods (length ts) (dods ts prev pd ++ rest) out prev pd ≡ ok (out ++ ts)
unfolding decode_dods dods
decode_dods-dods [] rest out prev pd hp hd h = rw append-nil
decode_dods-dods (t ∷ ts) rest out prev pd hp hd (ht, h) =
    rw
      (
        append_assoc,
        varint-append_varint (sub64 (sub64 t prev) pd) (dods ts t (sub64 t prev) ++ rest)
            (sub64-IsU64 _ _),
        add64-sub64 (sub64 t prev) pd (sub64-IsU64 t prev) hd,
        add64-sub64 t prev ht hp,
      )
      (decode_dods-dods ts rest (out ++ (t ∷ [])) t (sub64 t prev) ht (sub64-IsU64 t prev) h
        ∙ ap ok (append_assoc out (t ∷ []) ts))

-- Behind the count stand the eight bytes of the first timestamp.
decode_counted-suc :
    (n t0 : ℕ) (tail : List ℕ)
    → IsU64 t0
    → decode_counted (suc n) (put_u64 t0 ++ tail)
      ≡ (if suc n == 1 then ok (t0 ∷ []) else decode_deltas (suc n) tail t0)
unfolding decode_counted
decode_counted-suc n t0 tail h =
    rw
      (
        le→ltb (length (put_u64 t0 ++ tail)) 8
            (omega (arith, length-append (put_u64 t0) tail, length-put_u64 t0)),
        take-append_left 8 (put_u64 t0) tail (sym (length-put_u64 t0)),
        drop-append_left 8 (put_u64 t0) tail (sym (length-put_u64 t0)),
        le_value-put_u64 t0 h,
      )
      (ground arith)

decode_counted_many :
    (n t0 : ℕ) (tail : List ℕ)
    → IsU64 t0
    → decode_counted (suc (suc n)) (put_u64 t0 ++ tail) ≡ decode_deltas (suc (suc n)) tail t0
decode_counted_many n t0 tail h = rw (decode_counted-suc (suc n) t0 tail h) (ground arith)

decode_deltas-dods :
    (t0 t1 : ℕ) (ts : List ℕ)
    → IsU64 t0
    → IsU64 t1
    → All IsU64 ts
    → decode_deltas
        (length (t0 ∷ t1 ∷ ts))
        (append_varint [] (sub64 t1 t0) ++ dods ts t1 (sub64 t1 t0))
        t0
      ≡ ok (t0 ∷ t1 ∷ ts)
unfolding decode_deltas
decode_deltas-dods t0 t1 ts h0 h1 h =
    let rounds : suc (suc (length ts)) - 2 ≡ length ts = omega arith in
    rw
      (
        varint-append_varint (sub64 t1 t0) (dods ts t1 (sub64 t1 t0)) (sub64-IsU64 t1 t0),
        add64-sub64 t1 t0 h1 h0,
        rounds,
        ← append-nil (dods ts t1 (sub64 t1 t0)),
      )
      (decode_dods-dods ts [] (t0 ∷ t1 ∷ []) t1 (sub64 t1 t0) h1 (sub64-IsU64 t1 t0) h)

-- Decoding what `encode_timestamps` wrote gives the timestamps back, for any int64s, sorted or not,
-- whose number is a uint64.
pub decode-encode_timestamps :
    (ts : List ℕ)
    → IsU64 (length ts)
    → All IsU64 ts
    → decode_timestamps (encode_timestamps ts) ≡ ok ts
unfolding decode_timestamps encode_timestamps
decode-encode_timestamps [] hl h =
    rw (← append-nil (append_uvarint [] 0), uvarint-append_uvarint 0 [] (omega arith))
      (unfold decode_counted in refl)
decode-encode_timestamps (t0 ∷ []) hl (h0, h) =
    rw (uvarint-append_uvarint 1 (put_u64 t0) (omega arith), ← append-nil (put_u64 t0))
      (decode_counted-suc 0 t0 [] h0)
decode-encode_timestamps (t0 ∷ t1 ∷ ts) hl (h0, (h1, h)) =
    rw
      (
        encode_dods-dods,
        append_varint_lem (append_uvarint [] (length (t0 ∷ t1 ∷ ts)) ++ put_u64 t0) (sub64 t1 t0),
        append_assoc,
        append_assoc,
        uvarint-append_uvarint (length (t0 ∷ t1 ∷ ts)) _ hl,
      )
      (rw (decode_counted_many (length ts) t0 _ h0) (decode_deltas-dods t0 t1 ts h0 h1 h))
