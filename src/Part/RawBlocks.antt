-- ===== src/Part/RawBlocks.antt =====
-- The raw blocks of storage/part.go, which parts of older versions hold.
use marchimetrics.Base.{
  ℕ, ◌+◌, ◌*◌, ◌%◌, ◌^◌, ◌<◌, ◌≡◌, refl, sym, ap, ◌∙◌, arith, List, [], ◌∷◌, ◌++◌, All, ok, some,
  length, length-append, take-append_left, drop-append_left, lt→ltb,
}
use marchimetrics.Base.Str.{nat_key}
use marchimetrics.GoMap.{lookup}
use marchimetrics.GoMap.Laws.{lookup-insert, eq_refl}
use marchimetrics.Fixed64.{put_u64, length-put_u64, le_value-put_u64}
use marchimetrics.Sample.{Sample, FitsSample}
use marchimetrics.Part.{
  raw, SeriesIndexEntry, PartWriter, sample_timestamps, sample_values, raw_cells, raw_samples,
  read_at, read_series_block, write_block,
}
use marchimetrics.Part.Blocks.{read_at-append}

length-raw_cells_timestamps :
    (s : List Sample) → length (raw_cells (sample_timestamps s)) ≡ length s * 8
unfolding raw_cells sample_timestamps
length-raw_cells_timestamps [] = omega arith
length-raw_cells_timestamps (sm ∷ s) = omega (
  arith,
  length-append (put_u64 sm.timestamp) (raw_cells (sample_timestamps s)),
  length-put_u64 sm.timestamp,
  length-raw_cells_timestamps s,
)

length-raw_cells_values : (s : List Sample) → length (raw_cells (sample_values s)) ≡ length s * 8
unfolding raw_cells sample_values
length-raw_cells_values [] = omega arith
length-raw_cells_values (sm ∷ s) = omega (
  arith,
  length-append (put_u64 sm.value) (raw_cells (sample_values s)),
  length-put_u64 sm.value,
  length-raw_cells_values s,
)

raw_samples-raw_cells :
    (s : List Sample)
    → All FitsSample s
    → raw_samples (length s) (raw_cells (sample_timestamps s)) (raw_cells (sample_values s)) ≡ s
unfolding raw_samples raw_cells sample_timestamps sample_values
raw_samples-raw_cells [] h = refl
raw_samples-raw_cells (sm ∷ s) ((t, v), h) =
    let ts = raw_cells (sample_timestamps s) in
    let vs = raw_cells (sample_values s) in
    let eight = λ (x : ℕ). sym (length-put_u64 x) in
    rw
      (
        take-append_left 8 (put_u64 sm.timestamp) ts (eight sm.timestamp),
        take-append_left 8 (put_u64 sm.value) vs (eight sm.value),
        drop-append_left 8 (put_u64 sm.timestamp) ts (eight sm.timestamp),
        drop-append_left 8 (put_u64 sm.value) vs (eight sm.value),
        le_value-put_u64 sm.timestamp t,
        le_value-put_u64 sm.value v,
        raw_samples-raw_cells s h,
      )
      refl

-- The entry that the raw encoding makes for a series leads back to its samples, for any int64s and
-- float64s, when the two buffers hold the cells of `offset` samples and the cells of all of them are
-- at offsets below 2^64.
pub read_series_block-raw :
    (w : PartWriter) (id : ℕ) (s : List Sample)
    → length w.part.timestamps_bin ≡ w.offset * 8
    → length w.part.values_bin ≡ w.offset * 8
    → (w.offset + length s) * 8 < 2 ^ 64
    → All FitsSample s
    → let p = write_block raw w id s in
      (e : SeriesIndexEntry) × (lookup id p.index ≡ some e)
      × (read_series_block p.timestamps_bin p.values_bin e raw ≡ ok s)
unfolding write_block read_series_block
read_series_block-raw w id s at_ts at_vs room h =
    let e : SeriesIndexEntry = record {
      offset = w.offset;
      count = length s;
      ts_offset = 0;
      ts_length = 0;
      val_offset = 0;
      val_length = 0;
    } in
    let from : w.offset * 8 % 2 ^ 64 ≡ w.offset * 8 = omega (arith, room) in
    let size : length s * 8 % 2 ^ 64 ≡ length s * 8 = omega (arith, room) in
    let ts : read_at (w.part.timestamps_bin ++ raw_cells (sample_timestamps s)) (w.offset * 8)
          (length s * 8)
        ≡ ok (raw_cells (sample_timestamps s)) =
      rw (← at_ts, ← length-raw_cells_timestamps s)
        (read_at-append w.part.timestamps_bin (raw_cells (sample_timestamps s))) in
    let vs : read_at (w.part.values_bin ++ raw_cells (sample_values s)) (w.offset * 8)
          (length s * 8)
        ≡ ok (raw_cells (sample_values s)) =
      rw (← at_vs, ← length-raw_cells_values s)
        (read_at-append w.part.values_bin (raw_cells (sample_values s))) in
    (
      e,
      lookup-insert id id e w.part.index ∙ rw (eq_refl id) refl,
      rw (from, size)
          (rw (ts, vs, lt→ltb (length s * 8) (2 ^ 64) (omega (arith, room)))
            (ap (λ (x : List Sample). ok x) (raw_samples-raw_cells s h))),
    )
