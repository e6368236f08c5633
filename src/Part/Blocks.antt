-- ===== src/Part/Blocks.antt =====
-- What readSeriesBlock finds where writePart put a block.
use marchimetrics.Base.{
  ℕ, suc, ◌+◌, ◌≤◌, ◌≡◌, refl, sym, ap, ◌∙◌, arith, List, [], ◌∷◌, ◌++◌, Result, ok, err, inl, inr,
  true, false, Bool-cases, ltb, length, take, drop, length-append, take-append_left,
  drop-append_left, take-append_le, drop-append_le, length-drop, append-nil, All, io_failure,
  Result-cases,
}
use marchimetrics.Base.{◌==◌ as nat_eq}
use marchimetrics.Base.Str.{nat_key}
use marchimetrics.Varint.{IsU64}
use marchimetrics.Timestamps.{encode_timestamps, decode_timestamps}
use marchimetrics.Timestamps.RoundTrip.{decode-encode_timestamps}
use marchimetrics.Values.{encode_values, decode_values}
use marchimetrics.Values.RoundTrip.{decode-encode_values}
use marchimetrics.Sample.{Sample, FitsSample, FitsSamples}
use marchimetrics.Part.{
  gorilla, SeriesIndexEntry, sample_timestamps, sample_values, read_at, pair_samples,
  read_series_block,
}

-- A block is read from where it was put, whatever follows.
pub read_at-append :
    (file block : List ℕ) → read_at (file ++ block) (length file) (length block) ≡ ok block
unfolding read_at
read_at-append file [] = refl
read_at-append file (x ∷ xs) =
    let block = x ∷ xs in
    let z : nat_eq (length block) 0 ≡ false = ground arith in
    let long : ltb (length (file ++ block)) (length file + length block) ≡ false =
      ground (arith, length-append file block) in
    let whole : take (length block) block ≡ block =
      ap (take (length block)) (sym (append-nil block))
      ∙ take-append_left (length block) block [] refl in
    rw (z, long, drop-append_left (length file) file block refl) (ap ok whole)

-- What could be read stays readable when the file grows.
read_at-grown :
    (file more b : List ℕ) (offset n : ℕ)
    → read_at file offset n ≡ ok b
    → read_at (file ++ more) offset n ≡ ok b
unfolding read_at
read_at-grown file more b offset n h = elim (Bool-cases (nat_eq n 0)) [
  | inl z ↦ let h' : ◌≡◌ {A = Result (List ℕ)} (ok []) (ok b) = rw z at h in rw z h'
  | inr z ↦ elim (Bool-cases (ltb (length file) (offset + n))) [
    | inl short ↦
        let h' : ◌≡◌ {A = Result (List ℕ)} (err io_failure) (ok b) = rw (z, short) at h in cc
    | inr short ↦
        let fits : offset + n ≤ length file = ground arith in
        let long : ltb (length (file ++ more)) (offset + n) ≡ false =
          ground (arith, length-append file more) in
        let h' : ◌≡◌ {A = Result (List ℕ)} (ok (take n (drop offset file))) (ok b) =
          rw (z, short) at h in
        rw
          (
            z,
            long,
            drop-append_le offset file more (omega arith),
            take-append_le n (drop offset file) more (omega (arith, length-drop offset file)),
          )
          h'
  ]
]

length-timestamps : (s : List Sample) → length (sample_timestamps s) ≡ length s
unfolding sample_timestamps
length-timestamps [] = refl
length-timestamps (x ∷ s) = ap suc (length-timestamps s)

length-values : (s : List Sample) → length (sample_values s) ≡ length s
unfolding sample_values
length-values [] = refl
length-values (x ∷ s) = ap suc (length-values s)

pair_samples-split : (s : List Sample) → pair_samples (sample_timestamps s) (sample_values s) ≡ s
unfolding pair_samples sample_timestamps sample_values
pair_samples-split [] = refl
pair_samples-split (x ∷ s) = ap (λ r. x ∷ r) (pair_samples-split s)

All-timestamps : (s : List Sample) → All FitsSample s → All IsU64 (sample_timestamps s)
unfolding sample_timestamps
All-timestamps [] h = tt
All-timestamps (x ∷ s) ((ht, hv), h) = (ht, All-timestamps s h)

All-values : (s : List Sample) → All FitsSample s → All IsU64 (sample_values s)
unfolding sample_values
All-values [] h = tt
All-values (x ∷ s) ((ht, hv), h) = (hv, All-values s h)

decode_timestamps-samples :
    (s : List Sample)
    → FitsSamples s
    → decode_timestamps (encode_timestamps (sample_timestamps s)) ≡ ok (sample_timestamps s)
decode_timestamps-samples s (hl, h) =
    decode-encode_timestamps (sample_timestamps s) (omega (arith, length-timestamps s))
      (All-timestamps s h)

decode_values-samples :
    (s : List Sample)
    → FitsSamples s
    → decode_values (encode_values (sample_values s)) ≡ ok (sample_values s)
decode_values-samples s (hl, h) =
    decode-encode_values (sample_values s) (omega (arith, length-values s)) (All-values s h)

pub read_series_block-grown :
    (ts vs more_ts more_vs : List ℕ) (e : SeriesIndexEntry) (s : List Sample)
    → read_series_block ts vs e gorilla ≡ ok s
    → read_series_block (ts ++ more_ts) (vs ++ more_vs) e gorilla ≡ ok s
unfolding read_series_block
read_series_block-grown ts vs more_ts more_vs e s h =
    elim (Result-cases (read_at ts e.ts_offset e.ts_length)) [
      | inr (f, r) ↦ let h' : ◌≡◌ {A = Result (List Sample)} (err f) (ok s) = rw r at h in cc
      | inl (a, r) ↦ elim (Result-cases (read_at vs e.val_offset e.val_length)) [
        | inr (f, q) ↦ let h' : ◌≡◌ {A = Result (List Sample)} (err f) (ok s) = rw (r, q) at h in cc
        | inl (b, q) ↦
            rw
              (
                read_at-grown ts more_ts a e.ts_offset e.ts_length r,
                read_at-grown vs more_vs b e.val_offset e.val_length q,
              )
              (rw (r, q) at h)
      ]
    ]

-- The entry that writePart makes for a block leads back to the block's samples.
pub read_series_block-written :
    (ts vs : List ℕ) (s : List Sample)
    → FitsSamples s
    → read_series_block
        (ts ++ encode_timestamps (sample_timestamps s))
        (vs ++ encode_values (sample_values s))
        (record {
          offset = 0;
          count = length s;
          ts_offset = length ts;
          ts_length = length (encode_timestamps (sample_timestamps s));
          val_offset = length vs;
          val_length = length (encode_values (sample_values s));
        })
        gorilla
      ≡ ok s
unfolding read_series_block
read_series_block-written ts vs s h =
    let lt : nat_eq (length (sample_timestamps s)) (length s) ≡ true =
      ground (arith, length-timestamps s) in
    let lv : nat_eq (length (sample_values s)) (length s) ≡ true =
      ground (arith, length-values s) in
    rw
      (
        read_at-append ts (encode_timestamps (sample_timestamps s)),
        read_at-append vs (encode_values (sample_values s)),
        decode_timestamps-samples s h,
        decode_values-samples s h,
        lt,
        lv,
        pair_samples-split s,
      )
      refl
