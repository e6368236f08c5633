-- ===== src/Timestamps.antt =====
-- encodeTimestamps and decodeTimestamps of storage/encode.go. A timestamp is an int64, held as its
-- two's complement pattern, so `-` and `+` wrap as they do in Go.
pub mod RoundTrip
use marchimetrics.Base.{
  ℕ, zero, suc, ◌+◌, ◌-◌, List, [], ◌∷◌, ◌++◌, Result, ok, err, unexpected_eof, ◌>>=◌, ltb, ◌==◌,
  if◌then◌else◌, length, take, drop,
}
use marchimetrics.Varint.{append_uvarint, append_varint, uvarint, varint}
use marchimetrics.Fixed64.{put_u64, le_value, add64, sub64}

-- The loop from i = 2 on: `prev` is ts[i-1] and `prev_delta` the delta before it.
encode_dods : List ℕ → List ℕ → ℕ → ℕ → List ℕ
encode_dods out [] prev prev_delta = out
encode_dods out (t ∷ ts) prev prev_delta =
    encode_dods (append_varint out (sub64 (sub64 t prev) prev_delta)) ts t (sub64 t prev)

pub encode_timestamps : List ℕ → List ℕ
unfolding encode_dods
encode_timestamps [] = append_uvarint [] 0
encode_timestamps (t0 ∷ []) = append_uvarint [] 1 ++ put_u64 t0
encode_timestamps (t0 ∷ t1 ∷ ts) =
    encode_dods
      (append_varint (append_uvarint [] (length (t0 ∷ t1 ∷ ts)) ++ put_u64 t0) (sub64 t1 t0)) ts t1
      (sub64 t1 t0)

-- The loop with `rounds` timestamps to go: `last` is out[i-1] and `d` the last delta.
decode_dods : ℕ → List ℕ → List ℕ → ℕ → ℕ → Result (List ℕ)
decode_dods zero b out last d = ok out
decode_dods (suc rounds) b out last d = do
  (dod, b') ← varint b
  let d' = add64 d dod
  decode_dods rounds b' (out ++ (add64 last d' ∷ [])) (add64 last d') d'

-- From the second timestamp on.
decode_deltas : ℕ → List ℕ → ℕ → Result (List ℕ)
unfolding decode_dods
decode_deltas count b t0 = do
  (d, b') ← varint b
  decode_dods (count - 2) b' (t0 ∷ add64 t0 d ∷ []) (add64 t0 d) d

-- After the count.
decode_counted : ℕ → List ℕ → Result (List ℕ)
unfolding decode_deltas
decode_counted count b =
    if count == 0
    then ok []
    else if ltb (length b) 8
    then err unexpected_eof
    else (let t0 = le_value (take 8 b) in
        if count == 1 then ok (t0 ∷ []) else decode_deltas count (drop 8 b) t0)

pub decode_timestamps : List ℕ → Result (List ℕ)
unfolding decode_counted
decode_timestamps bytes = do (count, b) ← uvarint bytes; decode_counted count b
